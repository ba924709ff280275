-- ===== src/Server/Scan/Buffers.antt =====
-- The bits of the scan buffers: what `continue_scan` reads and writes in them.
use jtag.Prelude.{
  ℕ, zero, suc, ◌+◌, ◌-◌, ◌*◌, ◌/◌, ◌%◌, ◌<◌, ◌≤◌, ◌≡◌, ◌≢◌, refl, ap, ◌∙◌, Bool, inl, inr, List,
  [], ◌∷◌, length, get_or, length-set, get_or-set_self, get_or-set_ne, raise_bit, lower_bit,
  raise_bit_lem, lower_bit_lem, bit_at, ltb, ◌==◌, if◌then◌else◌, Bool-cases, arith,
}
use jtag.Wire.{Bytes}
use jtag.Server.Scan.{bit_pos, read_bit, write_bit}

-- Every cell holds a byte.
abbrev pub AreBytes : Bytes → Type 0
AreBytes buf = (i : ℕ) → get_or buf i 0 < 256

pub bit_pos-lt : (m : Bool) (i : ℕ) → bit_pos m i < 8
unfolding bit_pos
bit_pos-lt m i = ground arith

pub bit_pos-injective : (m : Bool) (i j : ℕ) → bit_pos m i ≡ bit_pos m j → i % 8 ≡ j % 8
unfolding bit_pos
bit_pos-injective m i j h = ground arith

pub length-write_bit :
    (m : Bool) (t i : ℕ) (buf : Bytes) → length (write_bit m t i buf) ≡ length buf
unfolding write_bit
length-write_bit m t i buf = length-set buf (i / 8) _

-- The byte that a write leaves at its place.
abbrev written : Bool → ℕ → ℕ → ℕ → ℕ
written m t i byte = if t == 0 then lower_bit byte (bit_pos m i) else raise_bit byte (bit_pos m i)

written-bit :
    (m : Bool) (t i j byte : ℕ)
    → byte < 256
    → (written m t i byte < 256)
      × (bit_at (written m t i byte) (bit_pos m j) ≡ (
          if bit_pos m i == bit_pos m j
          then (if t == 0 then 0 else 1)
          else bit_at byte (bit_pos m j)))
written-bit m t i j byte h = ground (
  arith,
  lower_bit_lem (bit_pos m i) (bit_pos m j) byte (bit_pos-lt m i) (bit_pos-lt m j) h,
  raise_bit_lem (bit_pos m i) (bit_pos m j) byte (bit_pos-lt m i) (bit_pos-lt m j) h,
)

module _ (m : Bool) (t i : ℕ) (buf : Bytes) (bytes : AreBytes buf)
    (inside : i / 8 < length buf) where
  at_place : get_or (write_bit m t i buf) (i / 8) 0 ≡ written m t i (get_or buf (i / 8) 0)
  unfolding write_bit
  at_place = get_or-set_self buf (i / 8) _ 0 inside

  elsewhere : (k : ℕ) → i / 8 ≢ k → get_or (write_bit m t i buf) k 0 ≡ get_or buf k 0
  unfolding write_bit
  elsewhere k h = get_or-set_ne buf (i / 8) k _ 0 h

  pub write_bit-AreBytes : AreBytes (write_bit m t i buf)
  write_bit-AreBytes k = elim (Bool-cases (i / 8 == k)) [
    | inl e ↦ ground (arith, at_place, written-bit m t i i (get_or buf (i / 8) 0) (bytes (i / 8)))
    | inr e ↦ ground (arith, elsewhere k, bytes k)
  ]

  -- A write changes the bit that it names, and no other.
  pub read_bit-write_bit :
      (j : ℕ)
      → read_bit m (write_bit m t i buf) j
        ≡ (if i == j then (if t == 0 then 0 else 1) else read_bit m buf j)
  unfolding read_bit
  read_bit-write_bit j = elim (Bool-cases (i / 8 == j / 8)) [
    | inl e ↦
        let same : i / 8 ≡ j / 8 = ground arith in
        ground (
          arith,
          same,
          at_place,
          written-bit m t i j (get_or buf (i / 8) 0) (bytes (i / 8)),
          bit_pos-injective m i j,
        )
    | inr e ↦ ground (arith, elsewhere (j / 8))
  ]

-- The writes of a whole scan: the answers in order, from bit `k` on.
unfoldable pub write_bits : Bool → ℕ → List ℕ → Bytes → Bytes
write_bits m k [] buf = buf
write_bits m k (t ∷ ts) buf = write_bits m (k + 1) ts (write_bit m t k buf)

pub length-write_bits :
    (m : Bool) (k : ℕ) (ts : List ℕ) (buf : Bytes) → length (write_bits m k ts buf) ≡ length buf
unfolding write_bits
length-write_bits m k [] buf = refl
length-write_bits m k (t ∷ ts) buf =
    length-write_bits m (k + 1) ts (write_bit m t k buf) ∙ length-write_bit m t k buf

pub write_bits-AreBytes :
    (m : Bool) (k : ℕ) (ts : List ℕ) (buf : Bytes)
    → AreBytes buf
    → k + length ts ≤ 8 * length buf
    → AreBytes (write_bits m k ts buf)
unfolding write_bits
write_bits-AreBytes m k [] buf b h = b
write_bits-AreBytes m k (t ∷ ts) buf b h =
    write_bits-AreBytes m (k + 1) ts (write_bit m t k buf)
      (write_bit-AreBytes m t k buf b (omega arith)) (omega (arith, length-write_bit m t k buf))

pub get_or-cons : (t : ℕ) (ts : List ℕ) (d : ℕ) → d ≢ 0 → get_or (t ∷ ts) d 0 ≡ get_or ts (d - 1) 0
get_or-cons t ts zero h = absurd (h refl)
get_or-cons t ts (suc d) h = ap (λ k. get_or ts k 0) (omega arith)

pub get_or-head : (t : ℕ) (ts : List ℕ) (d : ℕ) → d ≡ 0 → get_or (t ∷ ts) d 0 ≡ t
get_or-head t ts zero h = refl
get_or-head t ts (suc d) h = absurd (omega arith)

-- Bits outside the range that is written stay; those inside are the answers.
pub read_bit-write_bits :
    (m : Bool) (k : ℕ) (ts : List ℕ) (buf : Bytes) (j : ℕ)
    → AreBytes buf
    → k + length ts ≤ 8 * length buf
    → read_bit m (write_bits m k ts buf) j ≡ (
        if ltb j k
        then read_bit m buf j
        else if ltb j (k + length ts)
        then (if get_or ts (j - k) 0 == 0 then 0 else 1)
        else read_bit m buf j)
unfolding write_bits
read_bit-write_bits m k [] buf j b h = ground arith
read_bit-write_bits m k (t ∷ ts) buf j b h =
    read_bit-write_bits m (k + 1) ts (write_bit m t k buf) j
      (write_bit-AreBytes m t k buf b (omega arith)) (omega (arith, length-write_bit m t k buf))
    ∙ ground (
      arith,
      read_bit-write_bit m t k buf b (omega arith) j,
      get_or-head t ts (j - k),
      get_or-cons t ts (j - k),
      ap (λ d. get_or ts d 0) {x = j - (k + 1)} {y = j - k - 1} (omega arith),
    )
