-- ===== src/Server/Connection/Reassembly.antt =====
-- Packets that come in parts: how TCP cuts the stream does not matter.
use jtag.Prelude.{
  ℕ, zero, suc, ◌+◌, ◌≤◌, ◌≡◌, refl, sym, ap, ap₂, ◌∙◌, List, [], ◌∷◌, ◌++◌, length, length-append,
  blit, blit-blit, blit_whole, arith,
}
use jtag.Wire.{Bytes, OcdVpiCmd, image, of_image, vpi_pkt_size}
use jtag.Wire.Layout.{IsSized, length-image, of_image-image}
use jtag.Server.State.{Server}
use jtag.Server.Connection.{store_packet}

-- The parts of a packet, stored as they come.
unfoldable pub store_all : List Bytes → Server → Server
store_all [] s = s
store_all (c ∷ cs) s = store_all cs (store_packet c s)

abbrev pub joined : List Bytes → Bytes
joined [] = []
joined (c ∷ cs) = c ++ joined cs

record Stored (xs : Bytes) (s s' : Server) : Type 0 where
  buffer : s'.rx.vpi_cmd_rx ≡ blit s.rx.vpi_cmd_rx s.rx.vpi_rx_bytes xs
  count : s'.rx.vpi_rx_bytes ≡ s.rx.vpi_rx_bytes + length xs
  safe : s'.fault ≡ s.fault
  mode : s'.vpi_minimal_mode ≡ s.vpi_minimal_mode

store_packet-Stored :
    (xs : Bytes) (s : Server)
    → s.rx.vpi_rx_bytes + length xs ≤ vpi_pkt_size
    → Stored xs s (store_packet xs s)
unfolding store_packet
store_packet-Stored xs s h = ground arith

blit-nil : (bs : Bytes) (i : ℕ) → blit bs i [] ≡ bs
blit-nil [] i = refl
blit-nil (b ∷ bs) zero = refl
blit-nil (b ∷ bs) (suc i) = ap (◌∷◌ b) (blit-nil bs i)

store_all-Stored :
    (cs : List Bytes) (s : Server)
    → s.rx.vpi_rx_bytes + length (joined cs) ≤ vpi_pkt_size
    → Stored (joined cs) s (store_all cs s)
unfolding store_all
store_all-Stored [] s h = record {
  buffer = sym (blit-nil s.rx.vpi_cmd_rx s.rx.vpi_rx_bytes);
  count = omega arith;
  safe = refl;
  mode = refl;
}
store_all-Stored (c ∷ cs) s h =
    let one = store_packet-Stored c s (omega (arith, length-append c (joined cs))) in
    let s₁ : Server = store_packet c s in
    let rest = store_all-Stored cs s₁ (omega (arith, length-append c (joined cs), one.count)) in
    record {
      buffer =
          rest.buffer
          ∙ ap₂ (λ b n. blit b n (joined cs)) one.buffer one.count
          ∙ blit-blit s.rx.vpi_cmd_rx s.rx.vpi_rx_bytes c (joined cs);
      count = omega (arith, rest.count, one.count, length-append c (joined cs));
      safe = rest.safe ∙ one.safe;
      mode = rest.mode ∙ one.mode;
    }

-- However the 1036 bytes of a packet are cut into parts, once they are stored in an empty buffer of
-- 1036 bytes, the buffer holds the fields of the packet at their places, the packet is complete, and
-- no store left the buffer.
pub packet_reassembled :
    (p : OcdVpiCmd) (cs : List Bytes) (s : Server)
    → IsSized p
    → joined cs ≡ image p
    → s.rx.vpi_rx_bytes ≡ 0
    → length s.rx.vpi_cmd_rx ≡ vpi_pkt_size
    → (of_image (store_all cs s).rx.vpi_cmd_rx ≡ p)
      × ((store_all cs s).rx.vpi_rx_bytes ≡ vpi_pkt_size)
      × ((store_all cs s).fault ≡ s.fault)
packet_reassembled p cs s z e b l =
    let size : length (joined cs) ≡ vpi_pkt_size = ap length e ∙ length-image p z in
    let r = store_all-Stored cs s (omega arith) in
    (
      ap of_image (
            r.buffer
            ∙ ap (λ n. blit s.rx.vpi_cmd_rx n (joined cs)) b
            ∙ blit_whole s.rx.vpi_cmd_rx (joined cs) (omega arith)
            ∙ e)
          ∙ of_image-image p z,
      omega (arith, r.count),
      r.safe,
    )
