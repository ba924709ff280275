-- ===== src/Prelude/Lists.antt =====
-- Lists measured and indexed by native numbers, under the library's names, and the byte copies
-- of C (`memcpy`, `memset`, an array cell).
use Prim.Native.Nat.{ℕ, zero, suc, ◌+◌, ◌-◌, ◌≤◌, ◌<◌, min}
use mathlib.Core.Path.{◌≡◌, refl, sym, ap, ◌∙◌}
use mathlib.Core.Logic.{◌≢◌}
use mathlib.Core.List.{List, [], ◌∷◌, ◌++◌}
use native.Mathlib.Omega.{arith}

module _ {ℓ} {A : Type ℓ} where
  abbrev pub length : List A → ℕ
  length [] = 0
  length (x ∷ xs) = suc (length xs)

  abbrev pub get_or : List A → ℕ → A → A
  get_or [] i d = d
  get_or (x ∷ xs) zero d = x
  get_or (x ∷ xs) (suc i) d = get_or xs i d

  -- A write out of bounds changes nothing.
  abbrev pub set : List A → ℕ → A → List A
  set [] i v = []
  set (x ∷ xs) zero v = v ∷ xs
  set (x ∷ xs) (suc i) v = x ∷ set xs i v

  abbrev pub take : ℕ → List A → List A
  take zero xs = []
  take (suc n) [] = []
  take (suc n) (x ∷ xs) = x ∷ take n xs

  abbrev pub drop : ℕ → List A → List A
  drop zero xs = xs
  drop (suc n) [] = []
  drop (suc n) (x ∷ xs) = drop n xs

  abbrev pub replicate : ℕ → A → List A
  replicate zero a = []
  replicate (suc n) a = a ∷ replicate n a

  -- `memcpy (buf + i, xs, length xs)`, cut off at the end of the buffer.
  abbrev pub blit : List A → ℕ → List A → List A
  blit [] i xs = []
  blit (b ∷ bs) (suc i) xs = b ∷ blit bs i xs
  blit (b ∷ bs) zero [] = b ∷ bs
  blit (b ∷ bs) zero (x ∷ xs) = x ∷ blit bs zero xs

  pub length-set : (xs : List A) (i : ℕ) (v : A) → length (set xs i v) ≡ length xs
  length-set [] i v = refl
  length-set (x ∷ xs) zero v = refl
  length-set (x ∷ xs) (suc i) v = ap suc (length-set xs i v)

  pub get_or-set_self :
      (xs : List A) (i : ℕ) (v d : A) → i < length xs → get_or (set xs i v) i d ≡ v
  get_or-set_self [] i v d h = absurd (omega arith)
  get_or-set_self (x ∷ xs) zero v d h = refl
  get_or-set_self (x ∷ xs) (suc i) v d h = get_or-set_self xs i v d (omega arith)

  pub get_or-set_ne :
      (xs : List A) (i j : ℕ) (v d : A) → i ≢ j → get_or (set xs i v) j d ≡ get_or xs j d
  get_or-set_ne [] i j v d h = refl
  get_or-set_ne (x ∷ xs) zero zero v d h = absurd (h refl)
  get_or-set_ne (x ∷ xs) zero (suc j) v d h = refl
  get_or-set_ne (x ∷ xs) (suc i) zero v d h = refl
  get_or-set_ne (x ∷ xs) (suc i) (suc j) v d h = get_or-set_ne xs i j v d (λ e. h (ap suc e))

  pub length-append : (xs ys : List A) → length (xs ++ ys) ≡ length xs + length ys
  length-append [] ys = omega arith
  length-append (x ∷ xs) ys = omega (arith, length-append xs ys)

  pub length-take : (n : ℕ) (xs : List A) → length (take n xs) ≡ min n (length xs)
  length-take zero xs = omega arith
  length-take (suc n) [] = omega arith
  length-take (suc n) (x ∷ xs) = omega (arith, length-take n xs)

  pub length-drop : (n : ℕ) (xs : List A) → length (drop n xs) ≡ length xs - n
  length-drop zero xs = omega arith
  length-drop (suc n) [] = omega arith
  length-drop (suc n) (x ∷ xs) = omega (arith, length-drop n xs)

  pub length-replicate : (n : ℕ) (a : A) → length (replicate n a) ≡ n
  length-replicate zero a = refl
  length-replicate (suc n) a = ap suc (length-replicate n a)

  pub length-blit : (bs : List A) (i : ℕ) (xs : List A) → length (blit bs i xs) ≡ length bs
  length-blit [] i xs = refl
  length-blit (b ∷ bs) (suc i) xs = ap suc (length-blit bs i xs)
  length-blit (b ∷ bs) zero [] = refl
  length-blit (b ∷ bs) zero (x ∷ xs) = ap suc (length-blit bs zero xs)

  pub take-append-drop : (n : ℕ) (xs : List A) → take n xs ++ drop n xs ≡ xs
  take-append-drop zero xs = refl
  take-append-drop (suc n) [] = refl
  take-append-drop (suc n) (x ∷ xs) = ap (◌∷◌ x) (take-append-drop n xs)

  pub drop-nil : (n : ℕ) → drop n [] ≡ []
  drop-nil zero = refl
  drop-nil (suc n) = refl

  pub drop-drop : (m n : ℕ) (xs : List A) → drop (m + n) xs ≡ drop n (drop m xs)
  drop-drop zero n xs = ap (λ k. drop k xs) (omega arith)
  drop-drop (suc m) n [] = drop-nil (suc m + n) ∙ sym (drop-nil n)
  drop-drop (suc m) n (x ∷ xs) =
      ap (λ k. drop k (x ∷ xs)) {x = suc m + n} {y = suc (m + n)} (omega arith) ∙ drop-drop m n xs

  pub take-drop_split : (m n : ℕ) (xs : List A) → take n (drop m xs) ++ drop (m + n) xs ≡ drop m xs
  take-drop_split m n xs =
      ap (λ ys. take n (drop m xs) ++ ys) (drop-drop m n xs) ∙ take-append-drop n (drop m xs)

  pub drop_all : (n : ℕ) (xs : List A) → length xs ≤ n → drop n xs ≡ []
  drop_all zero [] h = refl
  drop_all zero (x ∷ xs) h = absurd (omega arith)
  drop_all (suc n) [] h = refl
  drop_all (suc n) (x ∷ xs) h = drop_all n xs (omega arith)

  pub take_all : (n : ℕ) (xs : List A) → length xs ≤ n → take n xs ≡ xs
  take_all zero [] h = refl
  take_all zero (x ∷ xs) h = absurd (omega arith)
  take_all (suc n) [] h = refl
  take_all (suc n) (x ∷ xs) h = ap (◌∷◌ x) (take_all n xs (omega arith))

  -- Two copies, one behind the other, are one copy.
  pub blit-blit :
      (bs : List A) (i : ℕ) (xs ys : List A)
      → blit (blit bs i xs) (i + length xs) ys ≡ blit bs i (xs ++ ys)
  blit-blit [] i xs ys = refl
  blit-blit (b ∷ bs) (suc i) xs ys =
      ap (λ k. blit (b ∷ blit bs i xs) k ys) {x = suc i + length xs} {y = suc (i + length xs)}
        (omega arith)
      ∙ ap (◌∷◌ b) (blit-blit bs i xs ys)
  blit-blit (b ∷ bs) zero [] ys = refl
  blit-blit (b ∷ bs) zero (x ∷ xs) ys =
      ap (λ k. blit (x ∷ blit bs zero xs) k ys) {x = zero + suc (length xs)}
        {y = suc (zero + length xs)} (omega arith)
      ∙ ap (◌∷◌ x) (blit-blit bs zero xs ys)

  -- What a copy of the first `m` cells to the start of a buffer leaves there.
  pub get_or-blit-take :
      (bs xs : List A) (m i : ℕ) (d : A)
      → i < m
      → i < length bs
      → m ≤ length xs
      → get_or (blit bs zero (take m xs)) i d ≡ get_or xs i d
  get_or-blit-take [] xs m i d a b c = absurd (omega arith)
  get_or-blit-take (y ∷ bs) xs zero i d a b c = absurd (omega arith)
  get_or-blit-take (y ∷ bs) [] (suc m) i d a b c = absurd (omega arith)
  get_or-blit-take (y ∷ bs) (x ∷ xs) (suc m) zero d a b c = refl
  get_or-blit-take (y ∷ bs) (x ∷ xs) (suc m) (suc i) d a b c =
      get_or-blit-take bs xs m i d (omega arith) (omega arith) (omega arith)

  pub get_or-take :
      (m : ℕ) (xs : List A) (i : ℕ) (d : A) → i < m → get_or (take m xs) i d ≡ get_or xs i d
  get_or-take zero xs i d h = absurd (omega arith)
  get_or-take (suc m) [] i d h = refl
  get_or-take (suc m) (x ∷ xs) zero d h = refl
  get_or-take (suc m) (x ∷ xs) (suc i) d h = get_or-take m xs i d (omega arith)

  -- What a copy to the start of a buffer leaves there.
  pub get_or-blit :
      (bs xs : List A) (i : ℕ) (d : A)
      → i < length xs
      → length xs ≤ length bs
      → get_or (blit bs zero xs) i d ≡ get_or xs i d
  get_or-blit bs xs i d a b =
      ap (λ ys. get_or (blit bs zero ys) i d) (sym (take_all (length xs) xs (omega arith)))
      ∙ get_or-blit-take bs xs (length xs) i d a (omega arith) (omega arith)

  -- A copy over the whole buffer replaces it.
  pub blit_whole : (bs xs : List A) → length xs ≡ length bs → blit bs zero xs ≡ xs
  blit_whole [] [] h = refl
  blit_whole [] (x ∷ xs) h = absurd (omega arith)
  blit_whole (b ∷ bs) [] h = absurd (omega arith)
  blit_whole (b ∷ bs) (x ∷ xs) h = ap (◌∷◌ x) (blit_whole bs xs (omega arith))

  pub ruleset lengths =
      (length-set, length-append, length-take, length-drop, length-replicate, length-blit)
