-- ===== src/Server/Poll/Buffered.antt =====
-- One scan of a client of the 8-byte protocol: a command, a response of four bytes, the TMS bytes,
-- the TDI bytes, the pulses, and the TDO bytes.
use jtag.Prelude.{
  if◌then◌else◌, ℕ, ◌+◌, ◌/◌, ◌<◌, ◌≤◌, ◌≡◌, refl, sym, ap, ap₂, ◌∙◌, Bool, true, false, List, [],
  ◌∷◌, Option, some, length, map, take, blit, get_or, get_or-take, get_or-blit, arith, bit_at,
}
use jtag.Wire.{Bytes, buffer_size, zeros}
use jtag.Socket.{Outcome}
use jtag.Server.State.{Signals, idle, processing, sending_tdo, Server, World, on_server}
use jtag.Server.Signals.{Pins}
use jtag.Server.Packet.FullScan.{get_or-zeros, length-zeros}
use jtag.Server.Scan.{bytes_of_bits, read_bit, bit_pos, process_bits, capture, finish_bits}
use jtag.Server.Scan.Buffers.{AreBytes}
use jtag.Server.Scan.Engine.{
  IsAt, clock_bits, clock_bits-Rounds, Rounds, Shifted, shift_list, shift_pins, bits_from, level,
  last_or, scan_shifts_all,
}
use jtag.Server.Poll.Shifting.{
  AllShifted, Framed, Framed-trans, process_bits-Framed, process_bits-signals,
}
use jtag.Server.Poll.Responses.{bits_from-agree}
use jtag.Server.Poll.Loading.{Loaded, Quiet}

-- The pins of bit `k` of the buffers.
abbrev pub buffer_pins : Bool → Bytes → Bytes → ℕ → ℕ → Pins
buffer_pins msb_first tms tdi mode k = record {
  tms = read_bit msb_first tms k;
  tdi = read_bit msb_first tdi k;
  mode_sel = mode;
  tck_pulse = true;
  tckc_toggle = false;
}

abbrev pub buffer_list : Bool → Bytes → Bytes → ℕ → ℕ → List ℕ → List (Option Pins)
buffer_list msb_first tms tdi mode k [] = []
buffer_list msb_first tms tdi mode k (t ∷ ts) =
    some (buffer_pins msb_first tms tdi mode k) ∷ buffer_list msb_first tms tdi mode (k + 1) ts

read_bit-blit :
    (m : Bool) (bs xs : Bytes) (k : ℕ)
    → k / 8 < length xs
    → length xs ≤ length bs
    → read_bit m (blit bs 0 xs) k ≡ read_bit m xs k
unfolding read_bit
read_bit-blit m bs xs k a b = ap (λ x. bit_at x (bit_pos m k)) (get_or-blit bs xs (k / 8) 0 a b)

-- What the scan shifts are the bits that have come.
shift_list-buffers :
    (tms tdi : Bytes) (k n : ℕ) (ts : List ℕ) (s : Server)
    → s.scan.tms_buf ≡ blit (zeros buffer_size) 0 tms
    → s.scan.tdi_buf ≡ blit (zeros buffer_size) 0 tdi
    → length tms ≡ bytes_of_bits n
    → length tdi ≡ bytes_of_bits n
    → k + length ts ≡ n
    → n ≤ 4096
    → shift_list s k ts ≡ buffer_list s.msb_first tms tdi s.signals.pending_mode_select k ts
shift_list-buffers tms tdi k n [] s a b x y e h = refl
shift_list-buffers tms tdi k n (t ∷ ts) s a b x y e h =
    let m = s.msb_first in
    let size = length-zeros buffer_size in
    let one : shift_pins s k ≡ buffer_pins m tms tdi s.signals.pending_mode_select k =
      ap₂
        (λ (u v : ℕ). record {
          tms = u;
          tdi = v;
          mode_sel = s.signals.pending_mode_select;
          tck_pulse = true;
          tckc_toggle = false;
        })
        (ap (λ q. read_bit m q k) a
          ∙ read_bit-blit m (zeros buffer_size) tms k (omega (arith, x)) (omega (arith, x, size)))
        (ap (λ q. read_bit m q k) b
          ∙ read_bit-blit m (zeros buffer_size) tdi k (omega (arith, y))
              (omega (arith, y, size))) in
    ap₂ ◌∷◌ (ap some one) (shift_list-buffers tms tdi (k + 1) n ts s a b x y (omega arith) h)

finish-none_sent :
    (n : ℕ) (s : Server)
    → IsAt n n s
    → s.scan.is_legacy ≡ true
    → (process_bits s).scan.bytes_sent ≡ 0
unfolding process_bits capture finish_bits
finish-none_sent n s a l = ground arith

-- A scan whose buffers have come.
module _ (t n : ℕ) (ts : List ℕ) (tms tdi : Bytes) (os : List Outcome) (response : Bytes)
    (v w : World)
    (a : Loaded n
      (bytes_of_bits n)
      processing
      (blit (zeros buffer_size) 0 tms)
      (blit (zeros buffer_size) 0 tdi)
      os
      response
      v
      w)
    (q : Quiet v) (bits : length (t ∷ ts) ≡ n) (fits : n ≤ 4096) where
  pub loaded-IsAt : IsAt 0 (length (t ∷ ts)) w.server
  loaded-IsAt = record {
    index = a.index;
    total = a.total ∙ sym bits;
    no_pulse = ap (λ (g : Signals). g.pending_tck_pulse) a.signals ∙ q.no_pulse;
    no_reset = ap (λ (g : Signals). g.reset_pulses_remaining) a.signals ∙ q.no_reset;
    no_toggle = ap (λ (g : Signals). g.pending_tckc_toggle) a.signals ∙ q.no_toggle;
    no_fault = a.no_fault;
  }

  zero_bytes : AreBytes w.server.scan.tdo_buf
  zero_bytes i = omega (arith, ap (λ b. get_or b i 0) a.tdo_buf, get_or-zeros buffer_size i)

  tdo_size : length w.server.scan.tdo_buf ≡ buffer_size
  tdo_size = ap length a.tdo_buf ∙ length-zeros buffer_size

  -- The worlds behind the last answer, and behind the poll that takes it in.
  abbrev pub clocked : World
  clocked = record w { server = (clock_bits (t ∷ ts) w.server).1 }

  abbrev pub finished : World
  finished = on_server process_bits clocked

  rounds : Rounds (t ∷ ts) 0 (length (t ∷ ts)) w.server (clock_bits (t ∷ ts) w.server)
  rounds =
      clock_bits-Rounds (t ∷ ts) 0 (length (t ∷ ts)) w.server (omega arith) (omega (arith, bits))
        loaded-IsAt

  pub clocked-IsAt : IsAt (length (t ∷ ts)) (length (t ∷ ts)) clocked.server
  clocked-IsAt = rounds.at

  pub clocked-legacy : clocked.server.scan.is_legacy ≡ true
  clocked-legacy = rounds.kept.legacy ∙ a.legacy

  scanned : Shifted (t ∷ ts) w.server
  scanned = scan_shifts_all t ts w.server loaded-IsAt (omega (arith, bits)) zero_bytes tdo_size

  pub clocked-pins :
      length tms ≡ bytes_of_bits n
      → length tdi ≡ bytes_of_bits n
      → (clock_bits (t ∷ ts) w.server).0
        ≡ buffer_list v.server.msb_first tms tdi v.server.signals.pending_mode_select 0 (t ∷ ts)
  clocked-pins tms_size tdi_size =
      rounds.pins
      ∙ shift_list-buffers tms tdi 0 n (t ∷ ts) w.server a.tms_buf a.tdi_buf tms_size tdi_size
          (omega (arith, bits)) fits
      ∙ ap₂ (λ m (g : Signals). buffer_list m tms tdi g.pending_mode_select 0 (t ∷ ts)) a.msb
          a.signals

  -- The TDO bytes, ready to be sent.
  pub record ReadyTdo : Type 0 where
    pub framed : Framed w.server (record finished.server {
      scan = record finished.server.scan { state = clocked.server.scan.state };
    })
    pub state : finished.server.scan.state ≡ sending_tdo
    pub none_sent : finished.server.scan.bytes_sent ≡ 0
    pub count : finished.server.scan.num_bytes ≡ bytes_of_bits n
    pub quiet : finished.server.signals ≡ clocked.server.signals
    pub no_pulse : finished.server.signals.pending_tck_pulse ≡ false
    pub mode : finished.server.signals.pending_mode_select ≡ v.server.signals.pending_mode_select
    pub seen : finished.server.signals.current_tdo ≡ last_or v.server.signals.current_tdo (t ∷ ts)
    pub safe : finished.server.fault ≡ false
    pub size : length finished.server.scan.tdo_buf ≡ buffer_size
    pub answers :
        bits_from v.server.msb_first
          (take (bytes_of_bits n) finished.server.scan.tdo_buf)
          0
          (length (t ∷ ts))
        ≡ map level (t ∷ ts)

  pub shifted-ReadyTdo : AllShifted (t ∷ ts) w → ReadyTdo
  shifted-ReadyTdo shifted =
      let n' = length (t ∷ ts) in
      let framed =
        Framed-trans shifted.framed (
          process_bits-Framed n' clocked.server (omega arith) (omega (arith, bits)) clocked-IsAt) in
      let out = finished.server.scan.tdo_buf in
      let same = process_bits-signals n' clocked.server clocked-IsAt in
      record {
        framed = framed;
        state = scanned.state ∙ ap (λ b. if b then sending_tdo else idle) a.legacy;
        none_sent = finish-none_sent n' clocked.server clocked-IsAt clocked-legacy;
        count = framed.num_bytes ∙ a.count;
        quiet = same;
        no_pulse = scanned.quiet;
        mode =
            ap (λ (g : Signals). g.pending_mode_select) same
            ∙ rounds.kept.mode
            ∙ ap (λ (g : Signals). g.pending_mode_select) a.signals;
        seen =
            ap (λ (g : Signals). g.current_tdo) same
            ∙ rounds.seen
            ∙ ap (λ (g : Signals). last_or g.current_tdo (t ∷ ts)) a.signals;
        safe = scanned.safe;
        size = framed.tdo_size ∙ tdo_size;
        answers =
            bits_from-agree v.server.msb_first (take (bytes_of_bits n) out) out 0 n'
              (λ i l. get_or-take (bytes_of_bits n) out (i / 8) 0 (omega (arith, bits)))
            ∙ ap (λ m. bits_from m out 0 n') (sym a.msb)
            ∙ scanned.answers;
      }
