-- ===== src/Wire.antt =====
-- The byte layouts of sim/jtag_vpi_server.h (`OcdVpiCmd`, `MinimalVpiCmd`, `MinimalVpiResp`), of
-- `vpi_cmd` and `vpi_resp`, and the byte-order helpers of sim/jtag_vpi_server.cpp. A byte is a
-- number below 256.
pub mod Order
pub mod Layout
use jtag.Prelude.{
  ℕ, ◌+◌, ◌*◌, ◌/◌, ◌%◌, ◌^◌, List, [], ◌∷◌, ◌++◌, get_or, take, drop, replicate, u8, if◌then◌else◌,
  leb,
}

abbrev pub Bytes : Type 0
Bytes = List ℕ

-- `b[0] | b[1] << 8 | b[2] << 16 | b[3] << 24`: the summands share no bit.
unfoldable pub le32_to_host : Bytes → ℕ
le32_to_host b = get_or b 0 0 + get_or b 1 0 * 2 ^ 8 + get_or b 2 0 * 2 ^ 16 + get_or b 3 0 * 2 ^ 24

unfoldable pub be32_to_host : Bytes → ℕ
be32_to_host b = get_or b 0 0 * 2 ^ 24 + get_or b 1 0 * 2 ^ 16 + get_or b 2 0 * 2 ^ 8 + get_or b 3 0

unfoldable pub host_to_le32 : ℕ → Bytes
host_to_le32 v = u8 v ∷ u8 (v / 2 ^ 8) ∷ u8 (v / 2 ^ 16) ∷ u8 (v / 2 ^ 24) ∷ []

-- The 1036 bytes of a full packet, by field; `image` is their order in memory.
pub record OcdVpiCmd : Type 0 where
  pub cmd_buf : Bytes
  pub buffer_out : Bytes
  pub buffer_in : Bytes
  pub length_buf : Bytes
  pub nb_bits_buf : Bytes

abbrev pub buffer_size : ℕ
buffer_size = 512

-- `VPI_PKT_SIZE`
abbrev pub vpi_pkt_size : ℕ
vpi_pkt_size = 1036

-- `sizeof (MinimalVpiCmd)`, and of `vpi_cmd`
abbrev pub minimal_size : ℕ
minimal_size = 8

unfoldable pub image : OcdVpiCmd → Bytes
image p = p.cmd_buf ++ (p.buffer_out ++ (p.buffer_in ++ (p.length_buf ++ p.nb_bits_buf)))

unfoldable pub of_image : Bytes → OcdVpiCmd
of_image b = record {
  cmd_buf = take 4 b;
  buffer_out = take buffer_size (drop 4 b);
  buffer_in = take buffer_size (drop 516 b);
  length_buf = take 4 (drop 1028 b);
  nb_bits_buf = take 4 (drop 1032 b);
}

-- a buffer after `memset (p, 0, n)`
unfoldable pub zeros : ℕ → Bytes
zeros n = replicate n 0

-- `memset (&vpi_cmd_tx, 0, sizeof)` and the three header fields
unfoldable pub header : ℕ → ℕ → ℕ → OcdVpiCmd
unfolding host_to_le32 zeros
header cmd length nb_bits = record {
  cmd_buf = host_to_le32 cmd;
  buffer_out = zeros buffer_size;
  buffer_in = zeros buffer_size;
  length_buf = host_to_le32 length;
  nb_bits_buf = host_to_le32 nb_bits;
}

-- `MinimalVpiCmd`: the command byte, and the length in whichever byte order gives a number of
-- bits that fits.
unfoldable pub minimal_cmd : Bytes → ℕ
minimal_cmd b = get_or b 0 0

unfoldable pub minimal_length : Bytes → ℕ
unfolding le32_to_host be32_to_host
minimal_length b =
    let field = drop 4 b in
    if leb (be32_to_host field) 4096 then be32_to_host field else le32_to_host field

-- `MinimalVpiResp` and `vpi_resp`, as they are sent
unfoldable pub response_bytes : ℕ → ℕ → ℕ → ℕ → Bytes
response_bytes response tdo_val mode status = response ∷ tdo_val ∷ mode ∷ status ∷ []
