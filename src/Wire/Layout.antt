-- ===== src/Wire/Layout.antt =====
-- The image of a packet in memory.
use jtag.Prelude.{
  ℕ, ◌+◌, ◌≡◌, refl, ◌∙◌, ap, List, [], ◌∷◌, ◌++◌, arith, length, take, drop, length-append,
  length-replicate, suc, zero, take_all,
}
use jtag.Wire.{
  Bytes, OcdVpiCmd, image, of_image, header, host_to_le32, zeros, vpi_pkt_size, buffer_size,
}

-- Every field has the size that the struct gives it.
pub record IsSized (p : OcdVpiCmd) : Type 0 where
  pub cmd_size : length p.cmd_buf ≡ 4
  pub out_size : length p.buffer_out ≡ buffer_size
  pub in_size : length p.buffer_in ≡ buffer_size
  pub length_size : length p.length_buf ≡ 4
  pub nb_bits_size : length p.nb_bits_buf ≡ 4

pub length-image : (p : OcdVpiCmd) → IsSized p → length (image p) ≡ vpi_pkt_size
unfolding image
length-image p s = omega (arith, length-append {0})

module _ {ℓ} {A : Type ℓ} where
  take-append : (n : ℕ) (xs ys : List A) → length xs ≡ n → take n (xs ++ ys) ≡ xs
  take-append zero [] ys h = refl
  take-append zero (x ∷ xs) ys h = absurd (omega arith)
  take-append (suc n) [] ys h = absurd (omega arith)
  take-append (suc n) (x ∷ xs) ys h = ap (◌∷◌ x) (take-append n xs ys (omega arith))

  drop-append : (n k : ℕ) (xs ys : List A) → n ≡ length xs + k → drop n (xs ++ ys) ≡ drop k ys
  drop-append n k [] ys h = ap (λ m. drop m ys) (omega (arith, h))
  drop-append zero k (x ∷ xs) ys h = absurd (omega arith)
  drop-append (suc n) k (x ∷ xs) ys h = drop-append n k xs ys (omega arith)

pub header-IsSized : (c l n : ℕ) → IsSized (header c l n)
unfolding header host_to_le32 zeros
header-IsSized c l n = record {
  cmd_size = refl;
  out_size = length-replicate {A = ℕ} 512 0;
  in_size = length-replicate {A = ℕ} 512 0;
  length_size = refl;
  nb_bits_size = refl;
}

module _ (p : OcdVpiCmd) (s : IsSized p) where
  open p use {cmd_buf, buffer_out, buffer_in, length_buf, nb_bits_buf}

  tail₂ : Bytes
  tail₂ = buffer_in ++ (length_buf ++ nb_bits_buf)

  tail₃ : Bytes
  tail₃ = length_buf ++ nb_bits_buf

  drop_out : (k : ℕ) → drop (4 + k) (image p) ≡ drop k (buffer_out ++ tail₂)
  unfolding image tail₂
  drop_out k = drop-append (4 + k) k cmd_buf (buffer_out ++ tail₂) (omega arith)

  drop_in : (k : ℕ) → drop (516 + k) (image p) ≡ drop k tail₂
  unfolding tail₂
  drop_in k =
      ap (λ m. drop m (image p)) {x = 516 + k} {y = 4 + (512 + k)} (omega arith)
      ∙ drop_out (512 + k)
      ∙ drop-append (512 + k) k buffer_out tail₂ (omega arith)

  drop_length : (k : ℕ) → drop (1028 + k) (image p) ≡ drop k tail₃
  unfolding tail₂ tail₃
  drop_length k =
      ap (λ m. drop m (image p)) {x = 1028 + k} {y = 516 + (512 + k)} (omega arith)
      ∙ drop_in (512 + k)
      ∙ drop-append (512 + k) k buffer_in tail₃ (omega arith)

  drop_nb_bits : drop 1032 (image p) ≡ nb_bits_buf
  unfolding tail₃
  drop_nb_bits = drop_length 4 ∙ drop-append 4 0 length_buf nb_bits_buf (omega arith)

-- The fields of a packet are found again at their places in its 1036 bytes.
pub of_image-image : (p : OcdVpiCmd) → IsSized p → of_image (image p) ≡ p
unfolding of_image image tail₂ tail₃
of_image-image p s = λ i. record {
  cmd_buf = take-append 4 p.cmd_buf (p.buffer_out ++ tail₂ p s) s.cmd_size i;
  buffer_out =
      (ap (take 512) (drop_out p s 0) ∙ take-append 512 p.buffer_out (tail₂ p s) s.out_size) i;
  buffer_in = (ap (take 512) (drop_in p s 0) ∙ take-append 512 p.buffer_in (tail₃ p s) s.in_size) i;
  length_buf =
      (ap (take 4) (drop_length p s 0) ∙ take-append 4 p.length_buf p.nb_bits_buf s.length_size) i;
  nb_bits_buf =
      (ap (take 4) (drop_nb_bits p s) ∙ take_all 4 p.nb_bits_buf (omega (arith, s.nb_bits_size))) i;
}
