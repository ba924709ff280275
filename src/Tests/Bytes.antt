-- ===== src/Tests/Bytes.antt =====
-- The wire formats, the reassembly of packets and the responses, at concrete inputs.
use jtag.Prelude.{
  ℕ, ◌≡◌, refl, List, [], ◌∷◌, ◌++◌, arith, length-replicate, replicate, length, true, false,
}
use jtag.Wire.{Bytes, host_to_le32, minimal_length, image, header, response_bytes}
use jtag.Wire.Order.{big_endian, minimal_length_either_order}
use jtag.Wire.Layout.{header-IsSized}
use jtag.Socket.{takes}
use jtag.Server.State.{World, new_server}
use jtag.Server.Response.{send_minimal_response}
use jtag.Server.Response.OnTheWire.{blocked, response_is_prefix, response_delivered}
use jtag.Server.Work.Transmit.{flush_times, taking, response_packet_sent}

idcode_bytes : host_to_le32 0x1dead3ff ≡ 0xff ∷ 0xd3 ∷ 0xea ∷ 0x1d ∷ []
unfolding host_to_le32
idcode_bytes = refl

minimal_length_either_order_example :
    (minimal_length (2 ∷ 0 ∷ 0 ∷ 0 ∷ big_endian 37) ≡ 37)
    × (minimal_length (2 ∷ 0 ∷ 0 ∷ 0 ∷ host_to_le32 37) ≡ 37)
minimal_length_either_order_example = minimal_length_either_order 2 0 0 0 37 (omega arith)

-- A socket that takes the response at its third call.
slow : World
slow = record {
  server = new_server;
  inbox = [];
  accepts = [];
  sends = blocked 2 (takes 9 ∷ []);
  wire = 7 ∷ [];
}

response_is_prefix_example :
    (rest : Bytes) × ((send_minimal_response 0 1 0 0 slow).wire ++ rest ≡ 7 ∷ 0 ∷ 1 ∷ 0 ∷ 0 ∷ [])
unfolding slow response_bytes
response_is_prefix_example = response_is_prefix 0 1 0 0 slow

response_delivered_example : send_minimal_response 0 1 0 0 slow ≡ record slow {
  server = record slow.server { vpi_minimal_mode = true };
  sends = [];
  wire = slow.wire ++ response_bytes 0 1 0 0;
}
response_delivered_example =
    response_delivered 0 1 0 0 2 5 [] slow (unfold slow in refl) (omega arith)

-- A queued response on a socket that takes at least one byte at a time.
sizes : List ℕ
sizes = replicate 1036 3

length-sizes : length sizes ≡ 1036
unfolding sizes
length-sizes = length-replicate {A = ℕ} 1036 3

queued : World
queued = record {
  server = record new_server {
    connected = true;
    tx = record { vpi_cmd_tx = header 2 4 32; vpi_tx_bytes = 0; vpi_tx_pending = true };
  };
  inbox = [];
  accepts = [];
  sends = taking sizes;
  wire = [];
}

response_packet_sent_example :
    ((flush_times (length sizes) queued).wire ≡ queued.wire ++ image queued.server.tx.vpi_cmd_tx)
    × ((flush_times (length sizes) queued).server.tx.vpi_tx_pending ≡ false)
response_packet_sent_example =
    response_packet_sent sizes queued (unfold queued in refl) (unfold queued in refl)
      (unfold queued in refl) (unfold queued in header-IsSized 2 4 32) (unfold queued in refl)
      (omega (arith, length-sizes))
