-- ===== src/Tests/ShortScan.antt =====
-- A scan of the 8-byte protocol, at concrete inputs.
use jtag.Prelude.{ℕ, ◌≡◌, refl, List, [], ◌∷◌, ◌++◌, length, length-replicate, map, arith, true}
use jtag.Wire.{
  Bytes, minimal_cmd, minimal_length, response_bytes, zeros, le32_to_host, be32_to_host,
}
use jtag.Socket.{takes}
use jtag.Server.State.{World, openocd_vpi, new_server}
use jtag.Server.Scan.Engine.{bits_from, level}
use jtag.Server.Poll.Loading.{Waiting}
use jtag.Server.Poll.Buffered.{buffer_list}
use jtag.Server.Poll.MinimalScan.{serve_minimal_scan, minimal_scan_served}

-- A client of the 8-byte protocol, on a socket that takes all that it is given.
short_client : World
short_client = record {
  server = record new_server {
    connected = true;
    protocol_mode = openocd_vpi;
    vpi_minimal_mode = true;
  };
  inbox = [];
  accepts = [];
  sends = takes 4 ∷ takes 2 ∷ [];
  wire = [];
}

short_client-Waiting : Waiting short_client
unfolding short_client new_server zeros
short_client-Waiting = record {
  connected = refl;
  protocol = refl;
  minimal = refl;
  no_response = refl;
  resting = refl;
  no_sequence = refl;
  no_scan = refl;
  legacy = refl;
  no_bytes = refl;
  sized = length-replicate {A = ℕ} 8 0;
  no_pulse = refl;
  no_reset = refl;
  no_toggle = refl;
  no_fault = refl;
}

-- A scan of ten bits, with the length as a big-endian number.
command : Bytes
command = 2 ∷ 0 ∷ 0 ∷ 0 ∷ 0 ∷ 0 ∷ 0 ∷ 10 ∷ []

answers : List ℕ
answers = 0 ∷ 0 ∷ 1 ∷ 0 ∷ 1 ∷ 1 ∷ 1 ∷ 0 ∷ 1 ∷ []

minimal_scan_served_example :
    let (pins, w') =
      serve_minimal_scan command (0 ∷ 2 ∷ []) (90 ∷ 1 ∷ []) (1 ∷ answers) short_client in
    let g = short_client.server.signals in
    (pins
      ≡ buffer_list short_client.server.msb_first
          (0 ∷ 2 ∷ [])
          (90 ∷ 1 ∷ [])
          g.pending_mode_select
          0
          (1 ∷ answers))
    × ((tdo : Bytes) × (length tdo ≡ 2)
        × (bits_from short_client.server.msb_first tdo 0 10 ≡ map level (1 ∷ answers))
        × (w'.wire ≡ short_client.wire ++ response_bytes 0 g.current_tdo g.current_mode 0 ++ tdo))
    × (w'.server.tx.vpi_tx_pending ≡ true)
unfolding answers
minimal_scan_served_example =
    minimal_scan_served 1 0 0 answers command (0 ∷ 2 ∷ []) (90 ∷ 1 ∷ []) [] short_client
      short_client-Waiting (unfold command in refl) (unfold command minimal_cmd in refl)
      (unfold command minimal_length le32_to_host be32_to_host in refl) (omega arith) refl refl
      (unfold short_client in refl)
