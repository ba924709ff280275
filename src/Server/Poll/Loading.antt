-- ===== src/Server/Poll/Loading.antt =====
-- The polls that take in a scan of the 8-byte protocol: its command, its TMS bytes and its TDI
-- bytes.
use jtag.Prelude.{
  ℕ, ◌+◌, ◌-◌, ◌<◌, ◌≤◌, ◌≡◌, refl, ap, ◌∙◌, true, false, List, [], ◌∷◌, ◌++◌, length, arith, blit,
  blit_whole, sub32,
}
use jtag.Wire.{Bytes, minimal_cmd, minimal_length, minimal_size, buffer_size, zeros, response_bytes}
use jtag.Socket.{Event, arrived, recv, Recv, received, Outcome, takes}
use jtag.Server.State.{
  ScanState, receiving_tms, receiving_tdi, processing, Sf0State, openocd_vpi, World, on_server,
}
use jtag.Server.Connection.{go, tolerant, fetch, fetched, store_minimal}
use jtag.Server.Response.{send_minimal_response}
use jtag.Server.Response.OnTheWire.{response_delivered}
use jtag.Server.Packet.{process_vpi_packet, parse_packet, perform, do_scan, start_minimal_scan}
use jtag.Server.Scan.{
  bytes_of_bits, fresh_scan, continue_scan, continue_scan_in, tms_arrived, tdi_arrived,
}
use jtag.Server.Work.{
  continue_vpi_work, flush_tx, sf0_work, tms_work, scan_work, after_scan, receive_work,
  minimal_work, empty_minimal,
}
use jtag.Server.Poll.{poll}
use jtag.Server.Poll.Parts.{with_inbox, recv-part}

-- A connection of the 8-byte protocol between two commands.
pub record Waiting (w : World) : Type 0 where
  pub connected : w.server.connected ≡ true
  pub protocol : w.server.protocol_mode ≡ openocd_vpi
  pub minimal : w.server.vpi_minimal_mode ≡ true
  pub no_response : w.server.tx.vpi_tx_pending ≡ false
  pub resting : w.server.sf0.state ≡ Sf0State.resting
  pub no_sequence : w.server.tms_seq.active ≡ false
  pub no_scan : w.server.scan.state ≡ ScanState.idle
  pub legacy : w.server.scan.is_legacy ≡ true
  pub no_bytes : w.server.rx.minimal_rx_bytes ≡ 0
  pub sized : length w.server.rx.minimal_cmd_rx ≡ minimal_size
  pub no_pulse : w.server.signals.pending_tck_pulse ≡ false
  pub no_reset : w.server.signals.reset_pulses_remaining ≡ 0
  pub no_toggle : w.server.signals.pending_tckc_toggle ≡ false
  pub no_fault : w.server.fault ≡ false

-- Nothing is asked for.
pub record Quiet (w : World) : Type 0 where
  pub no_pulse : w.server.signals.pending_tck_pulse ≡ false
  pub no_reset : w.server.signals.reset_pulses_remaining ≡ 0
  pub no_toggle : w.server.signals.pending_tckc_toggle ≡ false

-- A scan of `n` bits in this state, with these buffers and so many bytes of the next one, of the
-- connection that was `v`, behind the first response.
pub record Loaded (n received : ℕ) (st : ScanState) (tms tdi : Bytes) (os : List Outcome)
    (response : Bytes) (v w : World) : Type 0 where
  pub state : w.server.scan.state ≡ st
  pub legacy : w.server.scan.is_legacy ≡ true
  pub total : w.server.scan.num_bits ≡ n
  pub count : w.server.scan.num_bytes ≡ bytes_of_bits n
  pub index : w.server.scan.bit_index ≡ 0
  pub bytes : w.server.scan.bytes_received ≡ received
  pub none_sent : w.server.scan.bytes_sent ≡ 0
  pub tms_buf : w.server.scan.tms_buf ≡ tms
  pub tdi_buf : w.server.scan.tdi_buf ≡ tdi
  pub tdo_buf : w.server.scan.tdo_buf ≡ zeros buffer_size
  pub signals : w.server.signals ≡ v.server.signals
  pub msb : w.server.msb_first ≡ v.server.msb_first
  pub no_fault : w.server.fault ≡ false
  pub script : w.sends ≡ os
  pub wire : w.wire ≡ v.wire ++ response

-- The same on a connection of the 8-byte protocol.
pub record InState (n received : ℕ) (st : ScanState) (tms tdi : Bytes) (os : List Outcome)
    (v w : World) : Type 0 where
  pub connected : w.server.connected ≡ true
  pub protocol : w.server.protocol_mode ≡ openocd_vpi
  pub minimal : w.server.vpi_minimal_mode ≡ true
  pub no_response : w.server.tx.vpi_tx_pending ≡ false
  pub resting : w.server.sf0.state ≡ Sf0State.resting
  pub no_sequence : w.server.tms_seq.active ≡ false
  pub loaded :
      Loaded n received st tms tdi os
        (response_bytes 0 v.server.signals.current_tdo v.server.signals.current_mode 0)
        v
        w

-- The command: 8 bytes in one piece.
module _ (x : ℕ) (xs : Bytes) (n k : ℕ) (os : List Outcome) (v : World) (a : Waiting v)
    (size : length (x ∷ xs) ≡ minimal_size) (command : minimal_cmd (x ∷ xs) ≡ 2)
    (bits : minimal_length (x ∷ xs) ≡ n) (some_bits : 0 < n) (fits : n ≤ 4096)
    (script : v.sends ≡ takes (4 + k) ∷ os) where
  abbrev filled : World
  filled = record v { inbox = []; server = store_minimal (x ∷ xs) v.server }

  fetch-command :
      fetch tolerant
        (minimal_size - v.server.rx.minimal_rx_bytes)
        store_minimal
        (with_inbox (arrived x xs ∷ []) v)
      ≡ go filled
  unfolding fetch fetched
  fetch-command =
      ap (λ (q : Recv × List Event). fetched tolerant store_minimal q.0 (with_inbox q.1 v))
        (recv-part (minimal_size - v.server.rx.minimal_rx_bytes) x xs []
          (omega (arith, size, a.no_bytes)))

  filled-buffer : filled.server.rx.minimal_cmd_rx ≡ x ∷ xs
  unfolding store_minimal
  filled-buffer =
      ap (λ i. blit v.server.rx.minimal_cmd_rx i (x ∷ xs)) a.no_bytes
      ∙ blit_whole v.server.rx.minimal_cmd_rx (x ∷ xs) (omega (arith, size, a.sized))

  filled-count : filled.server.rx.minimal_rx_bytes ≡ minimal_size
  unfolding store_minimal
  filled-count = omega (arith, size, a.no_bytes)

  poll-command :
      poll (with_inbox (arrived x xs ∷ []) v) ≡ on_server empty_minimal (process_vpi_packet filled)
  unfolding poll continue_vpi_work flush_tx sf0_work tms_work scan_work receive_work minimal_work
  poll-command = ground (arith, fetch-command, filled-count, a)

  process-scan : process_vpi_packet filled ≡ start_minimal_scan n filled
  unfolding process_vpi_packet parse_packet perform do_scan store_minimal
  process-scan = ground (
    arith,
    filled-count,
    ap minimal_cmd filled-buffer ∙ command,
    ap minimal_length filled-buffer ∙ bits,
    a.minimal,
  )

  response-sent :
      send_minimal_response 0 v.server.signals.current_tdo v.server.signals.current_mode 0 filled
      ≡ record filled {
        server = record filled.server { vpi_minimal_mode = true };
        sends = os;
        wire =
            v.wire ++ response_bytes 0 v.server.signals.current_tdo v.server.signals.current_mode 0;
      }
  response-sent =
      response_delivered 0 v.server.signals.current_tdo v.server.signals.current_mode 0 0 k os
        filled script (omega arith)

  -- The world that waits for the TMS bytes.
  abbrev answered : World
  answered = record filled {
    server = record filled.server { vpi_minimal_mode = true; scan = fresh_scan n v.server.scan };
    sends = os;
    wire = v.wire ++ response_bytes 0 v.server.signals.current_tdo v.server.signals.current_mode 0;
  }

  scan-answered : start_minimal_scan n filled ≡ answered
  unfolding start_minimal_scan store_minimal
  scan-answered = ground (arith, response-sent, some_bits, fits)

  pub starts :
      InState n 0 receiving_tms
        (zeros buffer_size)
        (zeros buffer_size)
        os
        v
        (poll (with_inbox (arrived x xs ∷ []) v))
  unfolding empty_minimal store_minimal fresh_scan
  starts =
      rw (poll-command, process-scan, scan-answered)
        (record {
          connected = a.connected;
          protocol = a.protocol;
          minimal = refl;
          no_response = a.no_response;
          resting = a.resting;
          no_sequence = a.no_sequence;
          loaded = record {
            state = refl;
            legacy = a.legacy;
            total = refl;
            count = refl;
            index = refl;
            bytes = refl;
            none_sent = refl;
            tms_buf = refl;
            tdi_buf = refl;
            tdo_buf = refl;
            signals = refl;
            msb = refl;
            no_fault = ground (arith, a.no_fault, a.no_bytes, size);
            script = refl;
            wire = refl;
          };
        })

-- The bytes of a buffer, in one piece.
module _ (y : ℕ) (ys : Bytes) (n : ℕ) (tms tdi : Bytes) (os : List Outcome) (v w : World)
    (size : length (y ∷ ys) ≡ bytes_of_bits n) (fits : n ≤ 4096) where
  recv-buffer :
      w.server.scan.num_bytes ≡ bytes_of_bits n
      → w.server.scan.bytes_received ≡ 0
      → recv (sub32 w.server.scan.num_bytes w.server.scan.bytes_received) (arrived y ys ∷ [])
        ≡ (received (y ∷ ys), [])
  recv-buffer c b =
      recv-part (sub32 w.server.scan.num_bytes w.server.scan.bytes_received) y ys []
        (omega (arith, size))

  pub takes_tms :
      InState n 0 receiving_tms tms tdi os v w
      → InState n 0 receiving_tdi
          (blit tms 0 (y ∷ ys))
          tdi
          os
          v
          (poll (with_inbox (arrived y ys ∷ []) w))
  unfolding poll continue_vpi_work flush_tx sf0_work tms_work scan_work after_scan continue_scan
      continue_scan_in tms_arrived
  takes_tms a = ground (arith, recv-buffer a.loaded.count a.loaded.bytes)

  pub takes_tdi :
      InState n 0 receiving_tdi tms tdi os v w
      → InState n
          (bytes_of_bits n)
          processing
          tms
          (blit tdi 0 (y ∷ ys))
          os
          v
          (poll (with_inbox (arrived y ys ∷ []) w))
  unfolding poll continue_vpi_work flush_tx sf0_work tms_work scan_work after_scan continue_scan
      continue_scan_in tdi_arrived
  takes_tdi a = ground (arith, recv-buffer a.loaded.count a.loaded.bytes)
