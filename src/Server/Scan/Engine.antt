-- ===== src/Server/Scan/Engine.antt =====
-- A whole scan of `continue_scan`: the pulses that it asks for, and the TDO bits that it keeps.
use jtag.Prelude.{
  ℕ, zero, suc, ◌+◌, ◌-◌, ◌<◌, ◌≤◌, ◌≡◌, refl, ap, ap₂, ◌∙◌, Bool, true, false, List, [], ◌∷◌,
  Option, some, length, get_or, ◌==◌, if◌then◌else◌, arith, map,
}
use jtag.Wire.{Bytes}
use jtag.Server.State.{sending_tdo, idle, Server}
use jtag.Server.Signals.{Pins, get_pending_signals, update_signals, request_pulse}
use jtag.Server.Scan.{read_bit, write_bit, capture, request_bit, finish_bits, process_bits}
use jtag.Server.Scan.Buffers.{
  AreBytes, write_bits, read_bit-write_bit, read_bit-write_bits, write_bits-AreBytes,
  length-write_bits,
}

-- One round of the scan and of the simulation: the engine asks for a pulse, the simulation takes
-- it, and reports TDO.
unfoldable pub clock_bit : ℕ → Server → Option Pins × Server
clock_bit tdo s =
    let asked = process_bits s in
    let (pins, signals) = get_pending_signals asked.signals in
    (
      pins,
      record asked {
        signals =
            update_signals tdo signals.current_tdo_en signals.current_idcode signals.current_mode
              signals;
      },
    )

-- The rounds that answer with these TDO values.
unfoldable pub clock_bits : List ℕ → Server → List (Option Pins) × Server
clock_bits [] s = ([], s)
clock_bits (t ∷ ts) s =
    let (pins, s₁) = clock_bit t s in let (later, s₂) = clock_bits ts s₁ in (pins ∷ later, s₂)

-- A scan under way: `k` of its bits have been asked for, and the pulses are done.
pub record IsAt (k n : ℕ) (s : Server) : Type 0 where
  pub index : s.scan.bit_index ≡ k
  pub total : s.scan.num_bits ≡ n
  pub no_pulse : s.signals.pending_tck_pulse ≡ false
  pub no_reset : s.signals.reset_pulses_remaining ≡ 0
  pub no_toggle : s.signals.pending_tckc_toggle ≡ false
  pub no_fault : s.fault ≡ false

-- The TDO buffer once the last answer is taken in.
abbrev pub captured : Server → Bytes
captured s = (capture s).scan.tdo_buf

-- The pins of bit `k`.
abbrev pub shift_pins : Server → ℕ → Pins
shift_pins s k = record {
  tms = read_bit s.msb_first s.scan.tms_buf k;
  tdi = read_bit s.msb_first s.scan.tdi_buf k;
  mode_sel = s.signals.pending_mode_select;
  tck_pulse = true;
  tckc_toggle = false;
}

-- What a round leaves alone.
pub record Kept (s s' : Server) : Type 0 where
  pub msb : s'.msb_first ≡ s.msb_first
  pub tms : s'.scan.tms_buf ≡ s.scan.tms_buf
  pub tdi : s'.scan.tdi_buf ≡ s.scan.tdi_buf
  pub legacy : s'.scan.is_legacy ≡ s.scan.is_legacy
  pub mode : s'.signals.pending_mode_select ≡ s.signals.pending_mode_select

pub record Round (t k n : ℕ) (s : Server) (r : Option Pins × Server) : Type 0 where
  pub pins : r.0 ≡ some (shift_pins s k)
  pub at : IsAt (k + 1) n r.1
  pub kept : Kept s r.1
  pub tdo : captured r.1 ≡ write_bit s.msb_first t k (captured s)
  pub seen : r.1.signals.current_tdo ≡ t

pub clock_bit-Round :
    (t k n : ℕ) (s : Server) → k < n → n ≤ 4096 → IsAt k n s → Round t k n s (clock_bit t s)
unfolding clock_bit process_bits capture request_bit get_pending_signals update_signals
    request_pulse
clock_bit-Round t k n s h b a = ground arith

-- The pins of the bits from `k` on, one for each answer.
abbrev pub shift_list : Server → ℕ → List ℕ → List (Option Pins)
shift_list s k [] = []
shift_list s k (t ∷ ts) = some (shift_pins s k) ∷ shift_list s (k + 1) ts

unfoldable pub last_or : ℕ → List ℕ → ℕ
last_or d [] = d
last_or d (t ∷ ts) = last_or t ts

last_or-get_or : (t : ℕ) (ts : List ℕ) → last_or t ts ≡ get_or (t ∷ ts) (length ts) 0
unfolding last_or
last_or-get_or t [] = refl
last_or-get_or t (u ∷ ts) = last_or-get_or u ts

pub record Rounds (ts : List ℕ) (k n : ℕ) (s : Server) (r : List (Option Pins) × Server)
    : Type 0 where
  pub pins : r.0 ≡ shift_list s k ts
  pub at : IsAt n n r.1
  pub kept : Kept s r.1
  pub tdo : captured r.1 ≡ write_bits s.msb_first k ts (captured s)
  pub seen : r.1.signals.current_tdo ≡ last_or s.signals.current_tdo ts

Kept-trans : {s t u : Server} → Kept s t → Kept t u → Kept s u
Kept-trans a b = record {
  msb = b.msb ∙ a.msb;
  tms = b.tms ∙ a.tms;
  tdi = b.tdi ∙ a.tdi;
  legacy = b.legacy ∙ a.legacy;
  mode = b.mode ∙ a.mode;
}

shift_pins-Kept : {s t : Server} → Kept s t → (k : ℕ) → shift_pins t k ≡ shift_pins s k
shift_pins-Kept a k = λ i. record {
  tms = read_bit (a.msb i) (a.tms i) k;
  tdi = read_bit (a.msb i) (a.tdi i) k;
  mode_sel = a.mode i;
  tck_pulse = true;
  tckc_toggle = false;
}

pub shift_list-Kept :
    {s t : Server} → Kept s t → (k : ℕ) (ts : List ℕ) → shift_list t k ts ≡ shift_list s k ts
shift_list-Kept a k [] = refl
shift_list-Kept a k (x ∷ ts) =
    ap₂ ◌∷◌ (ap some (shift_pins-Kept a k)) (shift_list-Kept a (k + 1) ts)

pub clock_bits-Rounds :
    (ts : List ℕ) (k n : ℕ) (s : Server)
    → k + length ts ≡ n
    → n ≤ 4096
    → IsAt k n s
    → Rounds ts k n s (clock_bits ts s)
unfolding clock_bits write_bits last_or
clock_bits-Rounds [] k n s h b a = record {
  pins = refl;
  at = ground arith;
  kept = record { msb = refl; tms = refl; tdi = refl; legacy = refl; mode = refl };
  tdo = refl;
  seen = refl;
}
clock_bits-Rounds (t ∷ ts) k n s h b a =
    let one = clock_bit-Round t k n s (omega arith) b a in
    let s₁ : Server = (clock_bit t s).1 in
    let rest = clock_bits-Rounds ts (k + 1) n s₁ (omega arith) b one.at in
    record {
      pins = ap₂ ◌∷◌ one.pins (rest.pins ∙ shift_list-Kept one.kept (k + 1) ts);
      at = rest.at;
      kept = Kept-trans one.kept rest.kept;
      tdo = rest.tdo ∙ ap₂ (λ m buf. write_bits m (k + 1) ts buf) one.kept.msb one.tdo;
      seen = rest.seen ∙ ap (λ d. last_or d ts) one.seen;
    }

-- What the last call of `continue_scan` leaves.
pub record Finished (n : ℕ) (s s' : Server) : Type 0 where
  pub state : s'.scan.state ≡ (if s.scan.is_legacy then sending_tdo else idle)
  pub quiet : s'.signals.pending_tck_pulse ≡ false
  pub safe : s'.fault ≡ false
  tdo : s'.scan.tdo_buf ≡ write_bit s.msb_first s.signals.current_tdo (n - 1) (captured s)
  same : captured s ≡ write_bit s.msb_first s.signals.current_tdo (n - 1) s.scan.tdo_buf

pub process_bits-Finished :
    (n : ℕ) (s : Server) → 0 < n → n ≤ 4096 → IsAt n n s → Finished n s (process_bits s)
unfolding process_bits capture finish_bits
process_bits-Finished n s h b a = ground arith

captured-fresh : (s : Server) → s.scan.bit_index ≡ 0 → captured s ≡ s.scan.tdo_buf
unfolding capture
captured-fresh s h = ground arith

last_answer :
    (xs : List ℕ) (j m seen r : ℕ)
    → seen ≡ get_or xs m 0
    → r ≡ (if get_or xs j 0 == 0 then 0 else 1)
    → (if m == j then (if seen == 0 then 0 else 1) else r) ≡ (if get_or xs j 0 == 0 then 0 else 1)
last_answer xs j m seen r h e = ground (arith, ap (λ i. get_or xs i 0) {x = m} {y = j})

-- The bit that stands for a TDO value.
abbrev pub level : ℕ → ℕ
level t = if t == 0 then 0 else 1

-- `n` bits of a buffer, from bit `k` on.
abbrev pub bits_from : Bool → Bytes → ℕ → ℕ → List ℕ
bits_from m buf k zero = []
bits_from m buf k (suc n) = read_bit m buf k ∷ bits_from m buf (k + 1) n

bits_from-level :
    (m : Bool) (buf : Bytes) (k : ℕ) (ts : List ℕ)
    → ((j : ℕ) → j < length ts → read_bit m buf (k + j) ≡ level (get_or ts j 0))
    → bits_from m buf k (length ts) ≡ map level ts
bits_from-level m buf k [] h = refl
bits_from-level m buf k (t ∷ ts) h =
    ap₂ ◌∷◌ (ap (read_bit m buf) (omega arith) ∙ h 0 (omega arith)) (
      bits_from-level m buf (k + 1) ts
        (λ j lt. ap (read_bit m buf) (omega arith) ∙ h (suc j) (omega arith)))

-- A scan whose buffers are ready: every bit is shifted once and in order, with the TMS and TDI of
-- the buffers; then the TDO buffer holds the answers, bit by bit, and the engine goes on to send
-- them (8-byte protocols) or rests.
pub record Shifted (ts : List ℕ) (s : Server) : Type 0 where
  pub pins : (clock_bits ts s).0 ≡ shift_list s 0 ts
  pub state :
      (process_bits (clock_bits ts s).1).scan.state
      ≡ (if s.scan.is_legacy then sending_tdo else idle)
  pub quiet : (process_bits (clock_bits ts s).1).signals.pending_tck_pulse ≡ false
  pub safe : (process_bits (clock_bits ts s).1).fault ≡ false
  pub answers :
      bits_from s.msb_first (process_bits (clock_bits ts s).1).scan.tdo_buf 0 (length ts)
      ≡ map level ts

-- A scan of 1 to 4096 bits, started with no pulse pending, asks for exactly its bits in order, one
-- pulse each, with the TMS and TDI bits of the buffers in the bit order that is set; when the
-- pulses are done, the bits of the TDO buffer are the TDO values that came back, in order, no pulse
-- is pending, no array was left, and the engine sends the bytes (legacy) or rests.
pub scan_shifts_all :
    (t : ℕ) (ts : List ℕ) (s : Server)
    → IsAt 0 (length (t ∷ ts)) s
    → length (t ∷ ts) ≤ 4096
    → AreBytes s.scan.tdo_buf
    → length s.scan.tdo_buf ≡ 512
    → Shifted (t ∷ ts) s
scan_shifts_all t ts s a h b l =
    let n = length (t ∷ ts) in
    let r = clock_bits-Rounds (t ∷ ts) 0 n s (omega arith) h a in
    let e = clock_bits (t ∷ ts) s in
    let f = process_bits-Finished n e.1 (omega arith) h r.at in
    let start : captured s ≡ s.scan.tdo_buf = captured-fresh s a.index in
    let buf = write_bits s.msb_first 0 (t ∷ ts) s.scan.tdo_buf in
    let kept : captured e.1 ≡ buf = r.tdo ∙ ap (write_bits s.msb_first 0 (t ∷ ts)) start in
    let seen_last : last_or s.signals.current_tdo (t ∷ ts) ≡ get_or (t ∷ ts) (length ts) 0 =
      unfold last_or in last_or-get_or t ts in
    let final : (process_bits e.1).scan.tdo_buf
        ≡ write_bit s.msb_first e.1.signals.current_tdo (n - 1) buf =
      f.tdo ∙ ap₂ (λ m x. write_bit m e.1.signals.current_tdo (n - 1) x) r.kept.msb kept in
    record {
      pins = r.pins;
      state = f.state ∙ ap (λ x. if x then sending_tdo else idle) r.kept.legacy;
      quiet = f.quiet;
      safe = f.safe;
      answers = bits_from-level s.msb_first (process_bits e.1).scan.tdo_buf 0 (t ∷ ts) λ j lt.
          ap (read_bit s.msb_first (process_bits e.1).scan.tdo_buf) {x = 0 + j} {y = j}
            (omega arith)
          ∙ ap (λ x. read_bit s.msb_first x j) final
          ∙ read_bit-write_bit s.msb_first e.1.signals.current_tdo (n - 1) buf
              (write_bits-AreBytes s.msb_first 0 (t ∷ ts) s.scan.tdo_buf b (omega arith))
              (omega (arith, length-write_bits s.msb_first 0 (t ∷ ts) s.scan.tdo_buf)) j
          ∙ last_answer (t ∷ ts) j (n - 1) e.1.signals.current_tdo _
              (r.seen ∙ seen_last ∙ ap (λ i. get_or (t ∷ ts) i 0) (omega arith))
              (read_bit-write_bits s.msb_first 0 (t ∷ ts) s.scan.tdo_buf j b (omega arith)
                ∙ ground (arith, ap (λ i. get_or (t ∷ ts) i 0) {x = j - 0} {y = j} (omega arith)));
    }
