-- ===== src/Prelude/Codes.antt =====
-- Text as the codes of its characters, and C++'s reading of decimal numbers.
use Prim.Native.Nat.{ℕ, zero, suc, ◌+◌, ◌-◌, ◌*◌, ◌^◌, ◌%◌}
use Prim.Native.Char.{code}
use Prim.Native.String.{String}
use mathlib.Core.Bool.{Bool, true, false, ◌&&◌, ◌||◌}
use mathlib.Core.List.{List, [], ◌∷◌}
use mathlib.Core.Option.{Option, none, some}
use jtag.Prelude.Tests.{◌==◌, if◌then◌else◌, ltb, leb}

abbrev pub Text : Type 0
Text = List ℕ

abbrev pub codes : String → Text
codes String.[] = []
codes (String.◌∷◌ c s) = code c ∷ codes s

-- `s == t`
abbrev pub text_eq : Text → Text → Bool
text_eq [] [] = true
text_eq [] (y ∷ t) = false
text_eq (x ∷ s) [] = false
text_eq (x ∷ s) (y ∷ t) = x == y && text_eq s t

-- `t.substr(n)` where `t` starts with `p`, which has `n` characters; `none` where it does not.
abbrev pub after_prefix : Text → Text → Option Text
after_prefix [] t = some t
after_prefix (x ∷ p) [] = none
after_prefix (x ∷ p) (y ∷ t) = if x == y then after_prefix p t else none

-- `negsuc n` is -(n + 1).
pub data ℤ : Type 0 where
  pos : ℕ → ℤ
  negsuc : ℕ → ℤ

abbrev pub neg : ℕ → ℤ
neg zero = pos 0
neg (suc n) = negsuc n

abbrev is_space : ℕ → Bool
is_space c = c == 32 || (leb 9 c && leb c 13)

abbrev is_digit : ℕ → Bool
is_digit c = leb b'0' c && leb c b'9'

-- The digits at the front of a text, after `n`.
unfoldable pub read_digits : ℕ → Text → ℕ
read_digits n [] = n
read_digits n (c ∷ s) =
    let rest = read_digits (10 * n + (c - b'0')) s in if is_digit c then rest else n

abbrev starts_with_digit : Text → Bool
starts_with_digit [] = false
starts_with_digit (c ∷ s) = is_digit c

-- A number, or `none` for `std::invalid_argument`.
abbrev read_unsigned : Text → Option ℕ
read_unsigned s = if starts_with_digit s then some (read_digits 0 s) else none

abbrev signed : Bool → Option ℕ → Option (Bool × ℕ)
signed minus none = none
signed minus (some n) = some (minus, n)

abbrev read_sign : Text → Option (Bool × ℕ)
read_sign [] = none
read_sign (c ∷ s) =
    if c == b'-'
    then signed true (read_unsigned s)
    else if c == b'+'
    then signed false (read_unsigned s)
    else signed false (read_unsigned (c ∷ s))

abbrev skip_spaces : Text → Text
skip_spaces [] = []
skip_spaces (c ∷ s) = if is_space c then skip_spaces s else c ∷ s

-- `std::stoull`: `none` for an exception. A minus sign negates modulo 2 ^ 64.
unfoldable pub stoull : Text → Option ℕ
unfolding read_digits
stoull s = in_range (read_sign (skip_spaces s))
  where
    in_range : Option (Bool × ℕ) → Option ℕ
    in_range none = none
    in_range (some (minus, n)) =
        if leb (2 ^ 64) n then none else some (if minus then (2 ^ 64 - n) % 2 ^ 64 else n)

-- `std::stoi`, to 32 bits
unfoldable pub stoi : Text → Option ℤ
unfolding read_digits
stoi s = in_range (read_sign (skip_spaces s))
  where
    in_range : Option (Bool × ℕ) → Option ℤ
    in_range none = none
    in_range (some (true, n)) = if ltb (2 ^ 31) n then none else some (neg n)
    in_range (some (false, n)) = if leb (2 ^ 31) n then none else some (pos n)
