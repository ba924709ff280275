-- ===== src/Server/Poll/LegacyScan.antt =====
-- A whole scan of the legacy mode, from the bytes that come in to the bytes that go out.
use jtag.Prelude.{ℕ, ◌≤◌, ◌≡◌, refl, ◌∙◌, true, List, [], ◌∷◌, length, arith, blit, sub32}
use jtag.Wire.{Bytes, minimal_size, buffer_size, zeros, response_bytes}
use jtag.Socket.{Outcome, arrived, recv, received}
use jtag.Server.State.{
  ScanState, receiving_tms, receiving_tdi, processing, legacy_8byte, Server, World, on_server,
}
use jtag.Server.Scan.{
  bytes_of_bits, fresh_scan, process_bits, continue_scan, continue_scan_in, tms_arrived,
  tdi_arrived,
}
use jtag.Server.Poll.{poll}
use jtag.Server.Poll.Shifting.{Framed, Shifts}
use jtag.Server.Poll.Parts.{with_inbox, recv-part}
use jtag.Server.Poll.Loading.{Loaded}
use jtag.Server.Poll.LegacyLoading.{Listening, scanning}

-- A scan of `n` bits in this state on a connection of the legacy mode.
pub record InState (n received : ℕ) (st : ScanState) (tms tdi : Bytes) (os : List Outcome)
    (v w : World) : Type 0 where
  pub connected : w.server.connected ≡ true
  pub protocol : w.server.protocol_mode ≡ legacy_8byte
  pub no_bytes : w.server.rx.cmd_bytes_received ≡ 0
  pub sized : length w.server.rx.cmd_buf ≡ minimal_size
  pub silent : w.inbox ≡ []
  pub loaded :
      Loaded n received st tms tdi os (response_bytes 0 v.server.signals.current_tdo 0 0) v w

pub scanning-InState :
    (n : ℕ) (os : List Outcome) (bytes : Bytes) (v : World)
    → Listening v
    → length bytes ≡ minimal_size
    → InState n 0 receiving_tms (zeros buffer_size) (zeros buffer_size) os v (scanning n os bytes v)
unfolding fresh_scan
scanning-InState n os bytes v a l = record {
  connected = a.connected;
  protocol = a.protocol;
  no_bytes = refl;
  sized = l;
  silent = refl;
  loaded = record {
    state = refl;
    legacy = refl;
    total = refl;
    count = refl;
    index = refl;
    bytes = refl;
    none_sent = refl;
    tms_buf = refl;
    tdi_buf = refl;
    tdo_buf = refl;
    signals = refl;
    msb = refl;
    no_fault = a.no_fault;
    script = refl;
    wire = refl;
  };
}

-- The bytes of a buffer, in one piece.
module _ (y : ℕ) (ys : Bytes) (n : ℕ) (tms tdi : Bytes) (os : List Outcome) (v w : World)
    (size : length (y ∷ ys) ≡ bytes_of_bits n) (fits : n ≤ 4096) where
  recv-buffer :
      w.server.scan.num_bytes ≡ bytes_of_bits n
      → w.server.scan.bytes_received ≡ 0
      → recv (sub32 w.server.scan.num_bytes w.server.scan.bytes_received) (arrived y ys ∷ [])
        ≡ (received (y ∷ ys), [])
  recv-buffer c b =
      recv-part (sub32 w.server.scan.num_bytes w.server.scan.bytes_received) y ys []
        (omega (arith, size))

  pub takes_tms :
      InState n 0 receiving_tms tms tdi os v w
      → InState n 0 receiving_tdi
          (blit tms 0 (y ∷ ys))
          tdi
          os
          v
          (poll (with_inbox (arrived y ys ∷ []) w))
  unfolding poll continue_scan continue_scan_in tms_arrived
  takes_tms a = ground (arith, recv-buffer a.loaded.count a.loaded.bytes)

  pub takes_tdi :
      InState n 0 receiving_tdi tms tdi os v w
      → InState n
          (bytes_of_bits n)
          processing
          tms
          (blit tdi 0 (y ∷ ys))
          os
          v
          (poll (with_inbox (arrived y ys ∷ []) w))
  unfolding poll continue_scan continue_scan_in tdi_arrived
  takes_tdi a = ground (arith, recv-buffer a.loaded.count a.loaded.bytes)

-- A server of the legacy mode that shifts the bits of a scan.
pub record LegacyShifting (s : Server) : Type 0 where
  pub connected : s.connected ≡ true
  pub protocol : s.protocol_mode ≡ legacy_8byte
  pub state : s.scan.state ≡ processing

pub poll-processes : (w : World) → LegacyShifting w.server → poll w ≡ on_server process_bits w
unfolding poll continue_scan continue_scan_in
poll-processes w q = ground arith

pub LegacyShifting-Framed : (s s' : Server) → Framed s s' → LegacyShifting s → LegacyShifting s'
LegacyShifting-Framed s s' f q = record {
  connected = f.connected ∙ q.connected;
  protocol = f.protocol ∙ q.protocol;
  state = f.state ∙ q.state;
}

pub legacy-Shifts : Shifts LegacyShifting
legacy-Shifts = record {
  kept = LegacyShifting-Framed;
  shifts = λ k n w q h b a. poll-processes w q;
}
