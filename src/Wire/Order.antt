-- ===== src/Wire/Order.antt =====
-- Byte orders: what is encoded is decoded.
use jtag.Prelude.{ℕ, ◌/◌, ◌^◌, ◌≤◌, ◌<◌, ◌≡◌, [], ◌∷◌, arith, u8}
use jtag.Wire.{Bytes, le32_to_host, be32_to_host, host_to_le32, minimal_length}

-- Four bytes, the most significant first (`htonl`).
abbrev pub big_endian : ℕ → Bytes
big_endian v = u8 (v / 2 ^ 24) ∷ u8 (v / 2 ^ 16) ∷ u8 (v / 2 ^ 8) ∷ u8 v ∷ []

-- `le32_to_host` undoes `host_to_le32` on every `uint32_t`, and `be32_to_host` reads the four
-- bytes in the other order.
pub le32-host_to_le32 :
    (v : ℕ) → v < 2 ^ 32 → (le32_to_host (host_to_le32 v) ≡ v) × (be32_to_host (big_endian v) ≡ v)
unfolding le32_to_host host_to_le32 be32_to_host
le32-host_to_le32 v h = (omega arith, omega arith)

-- A length of at most 4096 bits behind the command byte and the padding is read as it was meant,
-- whether the client sent it in network order or least significant byte first.
pub minimal_length_either_order :
    (c x y z n : ℕ)
    → n ≤ 4096
    → (minimal_length (c ∷ x ∷ y ∷ z ∷ big_endian n) ≡ n)
      × (minimal_length (c ∷ x ∷ y ∷ z ∷ host_to_le32 n) ≡ n)
unfolding minimal_length host_to_le32
minimal_length_either_order c x y z n h = (ground arith, ground arith)
