-- ===== src/Client/Collect.antt =====
-- What `shift_data` of vpi/jtag_vpi_advanced.cpp collects in the caller's buffer.
use Prim.Native.Nat.{bit_or}
use jtag.Prelude.{
  ℕ, zero, suc, ◌+◌, ◌-◌, ◌*◌, ◌/◌, ◌%◌, ◌^◌, ◌<◌, ◌≤◌, ◌≡◌, ◌≢◌, refl, ap, ap₂, ◌∙◌, true, List,
  [], ◌∷◌, get_or, set, length, length-set, get_or-set_self, get_or-set_ne, bit_at, raise_bit,
  raise_bit_lem, u8, ◌==◌, if◌then◌else◌, leb, ltb, ◌&&◌, Bool-cases, inl, inr, arith, passes,
  passes_sound,
}
use jtag.Wire.{Bytes}
use jtag.Server.Scan.Buffers.{AreBytes, get_or-cons, get_or-head}

or_zero : passes (λ b. bit_or b 0 == b) 256 ≡ true
unfolding passes
or_zero = refl

-- The byte that a TDO bit leaves.
abbrev pub joined_bit : ℕ → ℕ → ℕ → ℕ
joined_bit t p byte = bit_or byte (u8 (t * 2 ^ p))

shifted_one : passes (λ p. u8 (1 * 2 ^ p) == 2 ^ p) 8 ≡ true
unfolding passes
shifted_one = refl

joined_bit_lem :
    (t p q byte : ℕ)
    → t < 2
    → p < 8
    → q < 8
    → byte < 256
    → (joined_bit t p byte < 256)
      × (bit_at (joined_bit t p byte) q
          ≡ (if p == q then (if t == 0 then bit_at byte q else 1) else bit_at byte q))
unfolding raise_bit
joined_bit_lem zero p q byte ht hp hq hb =
    ground (arith, passes_sound (λ b. bit_or b 0 == b) 256 byte hb or_zero)
joined_bit_lem (suc zero) p q byte ht hp hq hb = ground (
  arith,
  raise_bit_lem p q byte hp hq hb,
  passes_sound (λ p. u8 (1 * 2 ^ p) == 2 ^ p) 8 p hp shifted_one,
)
joined_bit_lem (suc (suc t)) p q byte ht hp hq hb = absurd (omega arith)

abbrev pub bit_of : Bytes → ℕ → ℕ
bit_of buf j = bit_at (get_or buf (j / 8) 0) (j % 8)

abbrev pub put : ℕ → ℕ → Bytes → Bytes
put i t buf = set buf (i / 8) (joined_bit t (i % 8) (get_or buf (i / 8) 0))

module _ (t i : ℕ) (buf : Bytes) (bytes : AreBytes buf) (bit : t < 2)
    (inside : i / 8 < length buf) where
  put-AreBytes : AreBytes (put i t buf)
  put-AreBytes k = elim (Bool-cases (i / 8 == k)) [
    | inl e ↦ ground (
      arith,
      get_or-set_self buf (i / 8) (joined_bit t (i % 8) (get_or buf (i / 8) 0)) 0 inside,
      joined_bit_lem t (i % 8) 0 (get_or buf (i / 8) 0) bit (omega arith) (omega arith)
          (bytes (i / 8)),
    )
    | inr e ↦ ground (
      arith,
      get_or-set_ne buf (i / 8) k (joined_bit t (i % 8) (get_or buf (i / 8) 0)) 0,
      bytes k,
    )
  ]

  put-bit :
      (j : ℕ)
      → bit_of (put i t buf) j
        ≡ (if i == j then (if t == 0 then bit_of buf j else 1) else bit_of buf j)
  put-bit j = elim (Bool-cases (i / 8 == j / 8)) [
    | inl e ↦
        let same : i / 8 ≡ j / 8 = ground arith in
        ground (
          arith,
          same,
          get_or-set_self buf (i / 8) (joined_bit t (i % 8) (get_or buf (i / 8) 0)) 0 inside,
          joined_bit_lem t (i % 8) (j % 8) (get_or buf (i / 8) 0) bit (omega arith) (omega arith)
              (bytes (i / 8)),
        )
    | inr e ↦
        ground
          (arith, get_or-set_ne buf (i / 8) (j / 8) (joined_bit t (i % 8) (get_or buf (i / 8) 0)) 0)
  ]

-- The bits of a list of answers.
abbrev pub answer : ℕ → Bytes
answer t = 0 ∷ t ∷ 0 ∷ 0 ∷ []

-- What `shift_bits` leaves in a buffer of the caller.
abbrev pub collected : ℕ → List ℕ → Bytes → Bytes
collected i [] buf = buf
collected i (t ∷ ts) buf = collected (i + 1) ts (put i t buf)

-- Each answer is a bit.
abbrev pub AreBits : List ℕ → Type 0
AreBits ts = (i : ℕ) → get_or ts i 0 < 2

collected-bit :
    (i : ℕ) (ts : List ℕ) (buf : Bytes) (j : ℕ)
    → AreBytes buf
    → AreBits ts
    → i + length ts ≤ 8 * length buf
    → bit_of (collected i ts buf) j ≡ (
        if leb i j && ltb j (i + length ts)
        then (if get_or ts (j - i) 0 == 0 then bit_of buf j else 1)
        else bit_of buf j)
collected-bit i [] buf j b s h = ground arith
collected-bit i (t ∷ ts) buf j b s h =
    let rest =
      collected-bit (i + 1) ts (put i t buf) j (put-AreBytes t i buf b (s 0) (omega arith))
        (λ k. s (suc k))
        (omega (arith, length-set buf (i / 8) (joined_bit t (i % 8) (get_or buf (i / 8) 0)))) in
    let write = put-bit t i buf b (s 0) (omega arith) j in
    elim (Bool-cases (i == j)) [
      | inl e ↦
          let at : j - i ≡ 0 = ground arith in
          ground (arith, rest, write, get_or-head t ts (j - i) at)
      | inr e ↦ elim (Bool-cases (ltb i j)) [
        | inl l ↦
            let past : j - i ≢ 0 = λ z. absurd (ground arith) in
            ground (
              arith,
              rest,
              write,
              get_or-cons t ts (j - i) past,
              ap (λ k. get_or ts k 0) {x = j - i - 1} {y = j - (i + 1)} (omega arith),
            )
        | inr l ↦ ground (arith, rest, write)
      ]
    ]

-- `n` bits of a buffer, from bit `i` on.
abbrev pub bits_of : Bytes → ℕ → ℕ → List ℕ
bits_of buf i zero = []
bits_of buf i (suc n) = bit_of buf i ∷ bits_of buf (i + 1) n

bits_of-ext :
    (buf : Bytes) (i : ℕ) (ts : List ℕ)
    → ((j : ℕ) → j < length ts → bit_of buf (i + j) ≡ get_or ts j 0)
    → bits_of buf i (length ts) ≡ ts
bits_of-ext buf i [] h = refl
bits_of-ext buf i (t ∷ ts) h =
    ap₂ ◌∷◌ (ap (bit_of buf) (omega arith) ∙ h 0 (omega arith))
      (bits_of-ext buf (i + 1) ts (λ j lt. ap (bit_of buf) (omega arith) ∙ h (suc j) (omega arith)))

no_bits : passes (λ p. bit_at 0 p == 0) 8 ≡ true
unfolding passes bit_at
no_bits = refl

zero_bit : (buf : Bytes) (j : ℕ) → get_or buf (j / 8) 0 ≡ 0 → bit_of buf j ≡ 0
zero_bit buf j z =
    ap (λ b. bit_at b (j % 8)) z
    ∙ ground (arith, passes_sound (λ p. bit_at 0 p == 0) 8 (j % 8) (omega arith) no_bits)

-- A cleared buffer that is long enough then holds the answers.
pub bits_of-collected :
    (ts : List ℕ) (buf : Bytes)
    → AreBits ts
    → ((i : ℕ) → get_or buf i 0 ≡ 0)
    → length ts ≤ 8 * length buf
    → bits_of (collected 0 ts buf) 0 (length ts) ≡ ts
bits_of-collected ts buf s z h = bits_of-ext (collected 0 ts buf) 0 ts λ j l.
    ap (bit_of (collected 0 ts buf)) {x = 0 + j} {y = j} (omega arith)
    ∙ ground (
      arith,
      collected-bit 0 ts buf j (λ i. omega (arith, z i)) s (omega arith),
      s j,
      zero_bit buf j (z (j / 8)),
    )
