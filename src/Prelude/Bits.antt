-- ===== src/Prelude/Bits.antt =====
-- Machine integers: wrap-around, and the bits of a byte.
use Prim.Native.Nat.{ℕ, zero, suc, ◌+◌, ◌-◌, ◌/◌, ◌%◌, ◌^◌, ◌<◌, bit_and, bit_or}
use mathlib.Core.Path.{◌≡◌, refl}
use mathlib.Core.Bool.{Bool, true, ◌&&◌}
use native.Mathlib.Omega.{arith}
use jtag.Prelude.Tests.{◌==◌, if◌then◌else◌, ltb}

abbrev pub u8 : ℕ → ℕ
u8 n = n % 256

abbrev pub u32 : ℕ → ℕ
u32 n = n % 4294967296

-- `a - b` on `uint32_t`
abbrev pub sub32 : ℕ → ℕ → ℕ
sub32 a b = (a + 4294967296 - b) % 4294967296

-- `(b >> p) & 1`
unfoldable pub bit_at : ℕ → ℕ → ℕ
bit_at b p = b / 2 ^ p % 2

-- `b |= 1 << p` and `b &= ~(1 << p)`, on a byte
unfoldable pub raise_bit : ℕ → ℕ → ℕ
raise_bit b p = bit_or b (2 ^ p)

unfoldable pub lower_bit : ℕ → ℕ → ℕ
lower_bit b p = bit_and b (255 - 2 ^ p)

-- Whether each number smaller than the bound passes.
unfoldable pub passes : (ℕ → Bool) → ℕ → Bool
passes test zero = true
passes test (suc k) = passes test k && test k

pub passes_sound : (test : ℕ → Bool) (k i : ℕ) → i < k → passes test k ≡ true → test i ≡ true
unfolding passes
passes_sound test zero i small e = absurd (omega arith)
passes_sound test (suc k) i small e = ground (arith, passes_sound test k i)

-- What a write of bit `p` does to bit `q`, for each byte.
raise_ok : ℕ → ℕ → ℕ → Bool
raise_ok p q b =
    ltb (raise_bit b p) 256 && bit_at (raise_bit b p) q == (if p == q then 1 else bit_at b q)

lower_ok : ℕ → ℕ → ℕ → Bool
lower_ok p q b =
    ltb (lower_bit b p) 256 && bit_at (lower_bit b p) q == (if p == q then 0 else bit_at b q)

raise_table : passes (λ p. passes (λ q. passes (raise_ok p q) 256) 8) 8 ≡ true
unfolding passes raise_ok raise_bit bit_at
raise_table = refl

lower_table : passes (λ p. passes (λ q. passes (lower_ok p q) 256) 8) 8 ≡ true
unfolding passes lower_ok lower_bit bit_at
lower_table = refl

module _ (p q b : ℕ) (hp : p < 8) (hq : q < 8) (hb : b < 256) where
  pub raise_bit_lem :
      (raise_bit b p < 256) × (bit_at (raise_bit b p) q ≡ (if p == q then 1 else bit_at b q))
  unfolding raise_ok
  raise_bit_lem = ground (
    arith,
    passes_sound (raise_ok p q) 256 b hb (
        passes_sound (λ r. passes (raise_ok p r) 256) 8 q hq
          (passes_sound (λ r. passes (λ s. passes (raise_ok r s) 256) 8) 8 p hp raise_table)),
  )

  pub lower_bit_lem :
      (lower_bit b p < 256) × (bit_at (lower_bit b p) q ≡ (if p == q then 0 else bit_at b q))
  unfolding lower_ok
  lower_bit_lem = ground (
    arith,
    passes_sound (lower_ok p q) 256 b hb (
        passes_sound (λ r. passes (lower_ok p r) 256) 8 q hq
          (passes_sound (λ r. passes (λ s. passes (lower_ok r s) 256) 8) 8 p hp lower_table)),
  )
