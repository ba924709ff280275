-- ===== src/Client/Shift.antt =====
-- What the client of vpi/jtag_vpi_advanced.cpp sends, on a connection that records it.
use jtag.Prelude.{
  false, ◌||◌, ap₂, length-set, u8, ℕ, zero, suc, ◌+◌, ◌*◌, ◌/◌, ◌%◌, ◌^◌, ◌<◌, ◌≤◌, ◌≡◌, refl, ap,
  sym, ◌∙◌, Bool, true, List, [], ◌∷◌, ◌++◌, Option, some, none, get_or, bit_at, replicate, length,
  append_assoc, append-nil, arith, ◌==◌, if◌then◌else◌,
}
use jtag.Wire.{Bytes}
use Prim.Native.Nat.{bit_or}
use jtag.Client.{
  read_outside, store_outside, display_idcode, jtag_cmd, send_tco, shift_bits, shift_data, stored,
  is_some, hold_tms, reset_tap,
}

-- The commands that have gone out and the answers to come; with none left a call fails.
pub record Line : Type 0 where
  pub sent : List Bytes
  pub answers : List Bytes

unfoldable pub exchange : Bytes → Line → Option Bytes × Line
exchange c l = reply l.answers
  where
    reply : List Bytes → Option Bytes × Line
    reply [] = (none, record { sent = l.sent ++ c ∷ []; answers = [] })
    reply (a ∷ rest) = (some a, record { sent = l.sent ++ c ∷ []; answers = rest })

-- The commands of bits `i` to `i + n - 1`.
abbrev pub bit_cmds : Bytes → ℕ → ℕ → List Bytes
bit_cmds bytes i zero = []
bit_cmds bytes i (suc n) =
    (1 ∷ (if n == 0 then 1 else 0) ∷ bit_at (get_or bytes (i / 8) 0) (i % 8) ∷ 0 ∷ [])
    ∷ bit_cmds bytes (i + 1) n

cmd_bits :
    (b : Bool) (x p : ℕ)
    → jtag_cmd 1 ((if b then 1 else 0) % 2) (bit_at x p % 2) 0
      ≡ 1 ∷ (if b then 1 else 0) ∷ bit_at x p ∷ 0 ∷ []
unfolding jtag_cmd bit_at
cmd_bits b x p = ground arith

-- The buffer of the caller, where there is one, has a place for this many bits.
abbrev pub Holds : ℕ → Option Bytes → Type 0
Holds n none = Unit {0}
Holds n (some buf) = n ≤ 8 * length buf

-- A place for a bit.
stored-Holds :
    (n i t : ℕ) (result : Option Bytes)
    → Holds n result
    → i < n
    → Holds n (stored i t result) × (store_outside result i ≡ false)
unfolding stored
stored-Holds n i t none h l = (h, refl)
stored-Holds n i t (some buf) h l = (
  omega (arith, h, length-set buf (i / 8) (bit_or (get_or buf (i / 8) 0) (u8 (t * 2 ^ (i % 8))))),
  ground arith,
)

shift_bits-sent :
    (bytes : Bytes) (i n size : ℕ) (result : Option Bytes) (sent rest : List Bytes)
    → length rest ≡ n
    → i + n ≤ 8 * length bytes
    → i + n ≤ size
    → Holds size result
    → let (r, fault, l) =
        shift_bits exchange bytes i n result (record { sent = sent; answers = rest }) in
      (l.sent ≡ sent ++ bit_cmds bytes i n) × (is_some r ≡ true) × (fault ≡ false)
unfolding shift_bits exchange send_tco
shift_bits-sent bytes i zero size result sent [] h g k b = (sym (append-nil sent), refl, refl)
shift_bits-sent bytes i zero size result sent (a ∷ rest) h g k b = absurd (omega arith)
shift_bits-sent bytes i (suc n) size result sent [] h g k b = absurd (omega arith)
shift_bits-sent bytes i (suc n) size result sent (a ∷ rest) h g k b =
    let c =
      jtag_cmd 1 ((if n == 0 then 1 else 0) % 2) (bit_at (get_or bytes (i / 8) 0) (i % 8) % 2) 0 in
    let (next, inside) = stored-Holds size i (get_or a 1 0) result b (omega arith) in
    let r =
      shift_bits-sent bytes (i + 1) n size (stored i (get_or a 1 0) result) (sent ++ c ∷ []) rest
        (omega arith) (omega arith) (omega arith) next in
    let read : read_outside bytes i ≡ false = ground arith in
    (
      r.0
          ∙ append_assoc sent (c ∷ []) (bit_cmds bytes (i + 1) n)
          ∙ ap (λ x. sent ++ x ∷ bit_cmds bytes (i + 1) n)
              (cmd_bits (n == 0) (get_or bytes (i / 8) 0) (i % 8)),
      r.1,
      ap₂ ◌||◌ (ap₂ ◌||◌ read inside) r.2,
    )

-- `shift_data` of as many bits as there are answers, which the data and the caller's buffer hold
-- (where it passes one), sends one command for each bit, with TDI the bits of the bytes in order,
-- each byte from its lowest bit, and TMS high in the last only; it succeeds, and no read or store has
-- left an array.
pub shift_data-sent :
    (bytes : Bytes) (result : Option Bytes) (l : Line)
    → length l.answers ≤ 8 * length bytes
    → Holds (length l.answers) result
    → let (r, fault, l') = shift_data exchange bytes (length l.answers) result l in
      (l'.sent ≡ l.sent ++ bit_cmds bytes 0 (length l.answers))
      × (is_some r ≡ true)
      × (fault ≡ false)
unfolding shift_data
shift_data-sent bytes result l given room =
    shift_bits-sent bytes 0 (length l.answers) (length l.answers) result l.sent l.answers refl
      (omega (arith, given)) (omega arith) room

reset_tap-sent :
    (sent rest : List Bytes)
    → 6 ≤ length rest
    → let (ok, l) = reset_tap exchange (record { sent = sent; answers = rest }) in
      (ok ≡ true)
      × (l.sent ≡ sent ++ (replicate 5 (1 ∷ 1 ∷ 0 ∷ 0 ∷ []) ++ (1 ∷ 0 ∷ 0 ∷ 0 ∷ []) ∷ []))
unfolding reset_tap hold_tms exchange send_tco jtag_cmd
reset_tap-sent sent (a₁ ∷ a₂ ∷ a₃ ∷ a₄ ∷ a₅ ∷ a₆ ∷ rest) h = (refl, simp append_assoc)
reset_tap-sent sent _ h = absurd (omega arith)

-- `reset_tap` with six answers or more to come sends five commands with TMS high and then one with
-- TMS low, so that the TAP is reset and then idle; and it succeeds.
pub reset_tap_lem :
    (l : Line)
    → 6 ≤ length l.answers
    → let (ok, l') = reset_tap exchange l in
      (ok ≡ true)
      × (l'.sent ≡ l.sent ++ (replicate 5 (1 ∷ 1 ∷ 0 ∷ 0 ∷ []) ++ (1 ∷ 0 ∷ 0 ∷ 0 ∷ []) ∷ []))
reset_tap_lem l h = reset_tap-sent l.sent l.answers h

-- The four fields that `display_idcode` prints make up the whole IDCODE, each in its range.
pub display_idcode_lem :
    (v : ℕ)
    → v < 2 ^ 32
    → let d = display_idcode v in
      (d.version * 2 ^ 28 + d.partnum * 2 ^ 12 + d.mfg_id * 2 + d.fixed ≡ v)
      × (d.version < 2 ^ 4)
      × (d.partnum < 2 ^ 16)
      × (d.mfg_id < 2 ^ 11)
      × (d.fixed < 2)
unfolding display_idcode
display_idcode_lem v h = (omega arith, omega arith, omega arith, omega arith, omega arith)
