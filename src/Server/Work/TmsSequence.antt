-- ===== src/Server/Work/TmsSequence.antt =====
-- CMD_TMS_SEQ: the pulses of a TMS sequence.
use jtag.Prelude.{
  ℕ, zero, suc, ◌+◌, ◌*◌, ◌/◌, ◌%◌, ◌<◌, ◌≤◌, ◌≡◌, refl, ap, ap₂, ◌∙◌, true, false, List, [], ◌∷◌,
  Option, some, length, get_or, blit, take, min, bit_at, arith, get_or-blit-take,
}
use jtag.Wire.{Bytes, of_image, buffer_size}
use jtag.Server.State.{Sf0State, World, on_server}
use jtag.Server.Signals.{Pins, get_pending_signals, request_pulse}
use jtag.Server.Packet.{start_tms_seq, queue_empty_response}
use jtag.Server.Scan.{bytes_of_bits}
use jtag.Server.Work.{continue_vpi_work, flush_tx, sf0_work, tms_work, tms_seq_bit}
use jtag.Server.Work.Oscan1.{offered, taken}

-- The server works, and the simulation takes what is pending.
abbrev pub tms_round : World → Option Pins × World
tms_round w = (offered (continue_vpi_work w), taken (continue_vpi_work w))

unfoldable pub tms_rounds : ℕ → World → List (Option Pins) × World
tms_rounds zero w = ([], w)
tms_rounds (suc n) w = let (p, w₁) = tms_round w in let (ps, w₂) = tms_rounds n w₁ in (p ∷ ps, w₂)

-- `k` of the `n` bits in `buf` are out.
pub record IsAt (k n : ℕ) (buf : Bytes) (mode : ℕ) (w : World) : Type 0 where
  pub no_response : w.server.tx.vpi_tx_pending ≡ false
  pub resting : w.server.sf0.state ≡ Sf0State.resting
  pub active : w.server.tms_seq.active ≡ true
  pub index : w.server.tms_seq.bit_index ≡ k
  pub total : w.server.tms_seq.num_bits ≡ n
  pub bits : w.server.tms_seq.buf ≡ buf
  pub no_pulse : w.server.signals.pending_tck_pulse ≡ false
  pub no_reset : w.server.signals.reset_pulses_remaining ≡ 0
  pub no_toggle : w.server.signals.pending_tckc_toggle ≡ false
  pub mode_set : w.server.signals.pending_mode_select ≡ mode
  pub safe : w.server.fault ≡ false

-- Bit `k` of a buffer, least significant first.
abbrev pub bit_of : Bytes → ℕ → ℕ
bit_of buf k = bit_at (get_or buf (k / 8) 0) (k % 8)

abbrev pub tms_pins : ℕ → ℕ → Pins
tms_pins mode tms = record {
  tms = tms;
  tdi = 0;
  mode_sel = mode;
  tck_pulse = true;
  tckc_toggle = false;
}

record Bit (k n : ℕ) (buf : Bytes) (mode : ℕ) (r : Option Pins × World) : Type 0 where
  pins : r.0 ≡ some (tms_pins mode (bit_of buf k))
  next : IsAt (k + 1) n buf mode r.1

tms_round-Bit :
    (k n : ℕ) (buf : Bytes) (mode : ℕ) (w : World)
    → k < n
    → n ≤ 4096
    → IsAt k n buf mode w
    → Bit k n buf mode (tms_round w)
unfolding continue_vpi_work flush_tx sf0_work tms_work tms_seq_bit get_pending_signals request_pulse
tms_round-Bit k n buf mode w h b a = ground arith

-- The pins of `m` bits from bit `k` on.
abbrev pub tms_list : ℕ → Bytes → ℕ → ℕ → List (Option Pins)
tms_list mode buf k zero = []
tms_list mode buf k (suc m) = some (tms_pins mode (bit_of buf k)) ∷ tms_list mode buf (k + 1) m

record Run (k n m : ℕ) (buf : Bytes) (mode : ℕ) (r : List (Option Pins) × World) : Type 0 where
  pins : r.0 ≡ tms_list mode buf k m
  end : IsAt n n buf mode r.1

tms_rounds-Run :
    (m k n : ℕ) (buf : Bytes) (mode : ℕ) (w : World)
    → k + m ≡ n
    → n ≤ 4096
    → IsAt k n buf mode w
    → Run k n m buf mode (tms_rounds m w)
unfolding tms_rounds
tms_rounds-Run zero k n buf mode w h b a = record { pins = refl; end = ground arith }
tms_rounds-Run (suc m) k n buf mode w h b a =
    let one = tms_round-Bit k n buf mode w (omega arith) b a in
    let rest = tms_rounds-Run m (k + 1) n buf mode (tms_round w).1 (omega arith) b one.next in
    record { pins = ap₂ ◌∷◌ one.pins rest.pins; end = rest.end }

record Ended (w : World) : Type 0 where
  inactive : w.server.tms_seq.active ≡ false
  quiet : w.server.signals.pending_tck_pulse ≡ false

tms_end :
    (n : ℕ) (buf : Bytes) (mode : ℕ) (w : World) → IsAt n n buf mode w → Ended (continue_vpi_work w)
unfolding continue_vpi_work flush_tx sf0_work tms_work tms_seq_bit
tms_end n buf mode w a = ground arith

pub tms_list-blit :
    (mode : ℕ) (old out : Bytes) (c m k : ℕ)
    → k + m ≤ 8 * c
    → c ≤ length old
    → c ≤ length out
    → tms_list mode (blit old 0 (take c out)) k m ≡ tms_list mode out k m
tms_list-blit mode old out c zero k a b h = refl
tms_list-blit mode old out c (suc m) k a b h =
    ap₂ ◌∷◌
      (ap (λ x. some (tms_pins mode (bit_at x (k % 8))))
        (get_or-blit-take old out c (k / 8) 0 (omega arith) (omega arith) (omega arith)))
      (tms_list-blit mode old out c m (k + 1) (omega arith) b h)

-- The world after CMD_TMS_SEQ, once its response is out.
abbrev pub started : ℕ → World → World
started n w =
    on_server (λ s. record s { tx = record s.tx { vpi_tx_pending = false } })
      (on_server (start_tms_seq n) w)

start-IsAt :
    (n : ℕ) (w : World)
    → w.server.sf0.state ≡ Sf0State.resting
    → w.server.signals.pending_tck_pulse ≡ false
    → w.server.signals.reset_pulses_remaining ≡ 0
    → w.server.signals.pending_tckc_toggle ≡ false
    → w.server.fault ≡ false
    → IsAt 0 n
        (blit w.server.tms_seq.buf 0
          (take (min (bytes_of_bits n) buffer_size) (of_image w.server.rx.vpi_cmd_rx).buffer_out))
        w.server.signals.pending_mode_select
        (started n w)
unfolding start_tms_seq queue_empty_response
start-IsAt n w r p q t f = ground arith

-- CMD_TMS_SEQ of up to 4096 bits, with nothing pending and its response out: the simulation gets
-- one pulse for each bit, with TDI low and TMS the bits of the packet's `buffer_out`, each byte
-- from its lowest bit; after the last the sequence is over with no pulse pending.
pub tms_seq_pulses :
    (n : ℕ) (w : World)
    → n ≤ 4096
    → w.server.sf0.state ≡ Sf0State.resting
    → w.server.signals.pending_tck_pulse ≡ false
    → w.server.signals.reset_pulses_remaining ≡ 0
    → w.server.signals.pending_tckc_toggle ≡ false
    → w.server.fault ≡ false
    → length w.server.tms_seq.buf ≡ buffer_size
    → length (of_image w.server.rx.vpi_cmd_rx).buffer_out ≡ buffer_size
    → let (pins, w') = tms_rounds n (started n w) in
      (pins
        ≡ tms_list w.server.signals.pending_mode_select
            (of_image w.server.rx.vpi_cmd_rx).buffer_out
            0
            n)
      × ((continue_vpi_work w').server.tms_seq.active ≡ false)
      × ((continue_vpi_work w').server.signals.pending_tck_pulse ≡ false)
tms_seq_pulses n w h r p q t f l o =
    let mode = w.server.signals.pending_mode_select in
    let out = (of_image w.server.rx.vpi_cmd_rx).buffer_out in
    let c = min (bytes_of_bits n) buffer_size in
    let buf = blit w.server.tms_seq.buf 0 (take c out) in
    let run =
      tms_rounds-Run n 0 n buf mode (started n w) (omega arith) h (start-IsAt n w r p q t f) in
    let e = tms_end n buf mode (tms_rounds n (started n w)).1 run.end in
    (
      run.pins
          ∙ tms_list-blit mode w.server.tms_seq.buf out c n 0 (omega arith) (omega arith)
              (omega arith),
      e.inactive,
      e.quiet,
    )
