-- ===== src/Server/Poll/Responses.antt =====
-- The polls that shift the bits of a scan of the full protocol and send its response.
use jtag.Prelude.{
  ℕ, Bool, zero, suc, ◌+◌, ◌/◌, ◌<◌, ◌≤◌, ◌≡◌, refl, sym, ap, ap₂, ◌∙◌, false, List, [], ◌∷◌, ◌++◌,
  Option, map, length, arith, blit, get_or, bit_at, take, get_or-blit-take, length-blit,
  if◌then◌else◌,
}
use jtag.Wire.{Bytes, OcdVpiCmd, image, buffer_size, vpi_pkt_size}
use jtag.Wire.Layout.{IsSized}
use jtag.Server.State.{ScanState, Sf0, TmsSeq, Rx, Tx, Server, World}
use jtag.Server.Scan.{bytes_of_bits, process_bits, read_bit, bit_pos}
use jtag.Server.Scan.Engine.{
  IsAt, bits_from, level, shift_list, clock_bits, clock_bits-Rounds, Shifted, scan_shifts_all,
}
use jtag.Server.Scan.Buffers.{AreBytes}
use jtag.Server.Work.{queue_scan_response}
use jtag.Server.Work.Transmit.{taking}
use jtag.Server.Poll.{poll}
use jtag.Server.Poll.Clients.{polls}
use jtag.Server.State.{Signals}
use jtag.Server.Signals.{Pins}
use jtag.Server.Poll.Between.{Ready, Between, Delivered-Between}
use jtag.Server.Poll.Replies.{Replying, Delivered, polls-Delivered}
use jtag.Server.Poll.Shifting.{
  Shifting, Shifting-Framed, Framed, Framed-trans, AllShifted, all_shifted, simulated_all,
  poll-queues, process_bits-Framed, process_bits-signals,
}

-- A scan of `n` bits that is to start, in a server that has cleared its receive buffer.
pub record Begun (n : ℕ) (s : Server) : Type 0 where
  pub shifting : Shifting s
  pub at : IsAt 0 n s
  pub legacy : s.scan.is_legacy ≡ false
  pub bytes : AreBytes s.scan.tdo_buf
  pub tdo_size : length s.scan.tdo_buf ≡ buffer_size
  pub count : s.scan.num_bytes ≡ bytes_of_bits n
  pub full : s.vpi_minimal_mode ≡ false
  pub empty : s.rx.vpi_rx_bytes ≡ 0
  pub sized : IsSized s.tx.vpi_cmd_tx
  pub lsb : s.msb_first ≡ false
  pub rx_size : length s.rx.vpi_cmd_rx ≡ vpi_pkt_size
  pub tms_size : length s.scan.tms_buf ≡ buffer_size
  pub tdi_size : length s.scan.tdi_buf ≡ buffer_size
  pub seq_size : length s.tms_seq.buf ≡ buffer_size

pub bits_from-agree :
    (m : Bool) (xs ys : Bytes) (k n : ℕ)
    → ((j : ℕ) → j < k + n → get_or xs (j / 8) 0 ≡ get_or ys (j / 8) 0)
    → bits_from m xs k n ≡ bits_from m ys k n
unfolding read_bit
bits_from-agree m xs ys k zero h = refl
bits_from-agree m xs ys k (suc n) h =
    ap₂ ◌∷◌ (ap (λ x. bit_at x (bit_pos m k)) (h k (omega arith)))
      (bits_from-agree m xs ys (k + 1) n (λ j l. h j (omega arith)))

module _ (t : ℕ) (ts ks : List ℕ) (w : World) (b : Begun (length (t ∷ ts)) w.server)
    (fits : length (t ∷ ts) ≤ 4096) (silent : w.inbox ≡ []) (calls : length ks ≡ vpi_pkt_size) where
  abbrev n : ℕ
  n = length (t ∷ ts)

  -- The server behind the last answer of the simulation, and behind the poll that takes it in.
  abbrev clocked : Server
  clocked = (clock_bits (t ∷ ts) w.server).1

  abbrev last : Server
  last = process_bits clocked

  abbrev queued : World
  queued = record w { server = queue_scan_response last; sends = taking ks }

  clocked-IsAt : IsAt n n clocked
  clocked-IsAt = (clock_bits-Rounds (t ∷ ts) 0 n w.server (omega arith) fits b.at).at

  clocked-legacy : clocked.scan.is_legacy ≡ false
  clocked-legacy =
      (clock_bits-Rounds (t ∷ ts) 0 n w.server (omega arith) fits b.at).kept.legacy ∙ b.legacy

  shifted : AllShifted (t ∷ ts) w
  shifted = all_shifted (t ∷ ts) 0 n w b.shifting (omega arith) fits b.at

  last-Framed :
      Framed w.server (record last { scan = record last.scan { state = clocked.scan.state } })
  last-Framed =
      Framed-trans shifted.framed (process_bits-Framed n clocked (omega arith) fits clocked-IsAt)

  last-Shifted : Shifted (t ∷ ts) w.server
  last-Shifted = scan_shifts_all t ts w.server b.at fits b.bytes b.tdo_size

  poll-queued : poll (record w { server = clocked; sends = taking ks }) ≡ queued
  poll-queued =
      poll-queues n (record w { server = clocked; sends = taking ks })
        (Shifting-Framed shifted.framed b.shifting) (omega arith) fits clocked-IsAt clocked-legacy

  queued-Replying : Replying queued
  unfolding queue_scan_response
  queued-Replying = record {
    connected = last-Framed.connected ∙ b.shifting.connected;
    protocol = last-Framed.protocol ∙ b.shifting.protocol;
    full = last-Framed.minimal ∙ b.full;
    resting = ap (λ (x : Sf0). x.state) last-Framed.sf0 ∙ b.shifting.resting;
    no_sequence = ap (λ (x : TmsSeq). x.active) last-Framed.tms_seq ∙ b.shifting.no_sequence;
    no_scan =
        last-Shifted.state ∙ ap (λ x. if x then ScanState.sending_tdo else ScanState.idle) b.legacy;
    empty = ap (λ (x : Rx). x.vpi_rx_bytes) last-Framed.rx ∙ b.empty;
    silent = silent;
  }

  -- The response: the header that the scan has left, and the answers of the simulation.
  abbrev pub response : OcdVpiCmd
  response = record w.server.tx.vpi_cmd_tx {
    buffer_in = blit w.server.tx.vpi_cmd_tx.buffer_in 0 (take (bytes_of_bits n) last.scan.tdo_buf);
  }

  queued-response : (queue_scan_response last).tx.vpi_cmd_tx ≡ response
  unfolding queue_scan_response
  queued-response =
      ap₂
        (λ (x : Tx) (m : ℕ). record x.vpi_cmd_tx {
          buffer_in = blit x.vpi_cmd_tx.buffer_in 0 (take m last.scan.tdo_buf);
        })
        last-Framed.tx (last-Framed.num_bytes ∙ b.count)

  response-IsSized : IsSized response
  response-IsSized = record {
    cmd_size = b.sized.cmd_size;
    out_size = b.sized.out_size;
    in_size =
        length-blit w.server.tx.vpi_cmd_tx.buffer_in 0 (take (bytes_of_bits n) last.scan.tdo_buf)
        ∙ b.sized.in_size;
    length_size = b.sized.length_size;
    nb_bits_size = b.sized.nb_bits_size;
  }

  response-byte :
      (k : ℕ) → k < n → get_or response.buffer_in (k / 8) 0 ≡ get_or last.scan.tdo_buf (k / 8) 0
  response-byte k h =
      get_or-blit-take w.server.tx.vpi_cmd_tx.buffer_in last.scan.tdo_buf (bytes_of_bits n) (k / 8)
        0 (omega arith) (omega (arith, b.sized.in_size))
        (omega (arith, last-Framed.tdo_size, b.tdo_size))

  pub response-bits : bits_from false response.buffer_in 0 n ≡ map level (t ∷ ts)
  response-bits =
      bits_from-agree false response.buffer_in last.scan.tdo_buf 0 n
        (λ j l. response-byte j (omega arith))
      ∙ ap (λ m. bits_from m last.scan.tdo_buf 0 n) (sym b.lsb)
      ∙ last-Shifted.answers

  queued-Ready : Ready (queue_scan_response last)
  unfolding queue_scan_response
  queued-Ready =
      let signals = process_bits-signals n clocked clocked-IsAt in
      record {
        no_bytes = ap (λ (x : Rx). x.vpi_rx_bytes) last-Framed.rx ∙ b.empty;
        rx_size = ap (λ (x : Rx). length x.vpi_cmd_rx) last-Framed.rx ∙ b.rx_size;
        lsb = last-Framed.msb ∙ b.lsb;
        tms_size = ap length last-Framed.tms_buf ∙ b.tms_size;
        tdi_size = ap length last-Framed.tdi_buf ∙ b.tdi_size;
        seq_size = ap (λ (x : TmsSeq). length x.buf) last-Framed.tms_seq ∙ b.seq_size;
        no_pulse = last-Shifted.quiet;
        no_reset = ap (λ (x : Signals). x.reset_pulses_remaining) signals ∙ clocked-IsAt.no_reset;
        no_toggle = ap (λ (x : Signals). x.pending_tckc_toggle) signals ∙ clocked-IsAt.no_toggle;
        no_fault = ground (arith, last-Shifted.safe, last-Framed.num_bytes, b.count);
      }

  queued-mode :
      (queue_scan_response last).signals.pending_mode_select ≡ w.server.signals.pending_mode_select
  unfolding queue_scan_response
  queued-mode =
      ap (λ (x : Signals). x.pending_mode_select) (process_bits-signals n clocked clocked-IsAt)
      ∙ (clock_bits-Rounds (t ∷ ts) 0 n w.server (omega arith) fits b.at).kept.mode

  delivered : Delivered (length ks) queued
  delivered =
      polls-Delivered ks queued queued-Replying (unfold queue_scan_response in refl)
        (unfold queue_scan_response in refl) (rw (queued-response) response-IsSized) refl
        (omega (arith, calls))

  -- The world behind the response.
  abbrev pub served : World
  served = polls (suc (length ks)) (record (simulated_all (t ∷ ts) w).1 { sends = taking ks })

  served-polls : served ≡ polls (length ks) queued
  unfolding polls
  served-polls =
      ap (λ r. polls (length ks) (poll (record r.1 { sends = taking ks }))) shifted.rounds
      ∙ ap (polls (length ks)) poll-queued

  polls-Between : Between (polls (length ks) queued)
  polls-Between = Delivered-Between (length ks) queued queued-Replying queued-Ready delivered

  pub served-Between : Between served
  served-Between = rw (served-polls) polls-Between

  pub served-wire : served.wire ≡ w.wire ++ image response
  served-wire =
      ap (λ (x : World). x.wire) served-polls
      ∙ delivered.wire
      ∙ ap (λ (x : OcdVpiCmd). w.wire ++ image x) queued-response

  pub served-mode : served.server.signals.pending_mode_select ≡ w.server.signals.pending_mode_select
  served-mode =
      ap (λ (x : World). x.server.signals.pending_mode_select) served-polls
      ∙ ap (λ (s : Server). s.signals.pending_mode_select) delivered.replied.server
      ∙ queued-mode

  pub served-pins : (simulated_all (t ∷ ts) w).0 ≡ shift_list w.server 0 (t ∷ ts)
  served-pins = ap (λ (r : List (Option Pins) × World). r.0) shifted.rounds ∙ last-Shifted.pins
