-- ===== src/Tests/Clients.antt =====
-- Clients that hang up, and the end of a short scan, at concrete inputs.
use jtag.Prelude.{◌≡◌, refl, true, [], ◌∷◌, some, arith}
use jtag.Wire.{minimal_cmd}
use jtag.Socket.{arrived, shut}
use jtag.Server.State.{ProtocolMode, ScanState, World, new_server}
use jtag.Server.Connection.{store_minimal}
use jtag.Server.Poll.Clients.{
  polls, InScan, hang_up_unnoticed, InDetection, partial_command_survives,
}

-- A legacy client that announced a scan and left.
left : World
left = record {
  server = record new_server {
    protocol_mode = ProtocolMode.legacy_8byte;
    connected = true;
    scan = record new_server.scan { state = ScanState.receiving_tms; num_bits = 5; num_bytes = 1 };
  };
  inbox = shut ∷ [];
  accepts = some [] ∷ [];
  sends = [];
  wire = [];
}

left-InScan : InScan left
unfolding left new_server
left-InScan = record {
  connected = refl;
  waiting = refl;
  no_response = refl;
  resting = refl;
  no_sequence = refl;
}

hang_up_unnoticed_example : polls 1000 left ≡ left
hang_up_unnoticed_example = hang_up_unnoticed 1000 [] left left-InScan (unfold left in refl)

-- A client that left after three bytes, and another behind it.
cut_off : World
cut_off = record {
  server = record new_server {
    connected = true;
    rx = record new_server.rx {
      minimal_cmd_rx = 2 ∷ 0 ∷ 0 ∷ 0 ∷ 0 ∷ 0 ∷ 0 ∷ 0 ∷ [];
      minimal_rx_bytes = 3;
    };
  };
  inbox = shut ∷ [];
  accepts = some (arrived 0 (0 ∷ 0 ∷ 0 ∷ 0 ∷ 0 ∷ 0 ∷ 0 ∷ []) ∷ []) ∷ [];
  sends = [];
  wire = [];
}

cut_off-InDetection : InDetection 3 cut_off
unfolding cut_off new_server
cut_off-InDetection = record {
  connected = refl;
  mode = refl;
  scan_idle = refl;
  partial = refl;
  some_bytes = omega arith;
  too_few = omega arith;
}

partial_command_survives_example :
    let w' = polls 2 cut_off in
    (w'.server.connected ≡ true)
    × (w'.server.rx.minimal_rx_bytes ≡ 3)
    × (minimal_cmd (store_minimal (0 ∷ 0 ∷ []) w'.server).rx.minimal_cmd_rx
        ≡ minimal_cmd cut_off.server.rx.minimal_cmd_rx)
partial_command_survives_example =
    partial_command_survives 3 [] (arrived 0 (0 ∷ 0 ∷ 0 ∷ 0 ∷ 0 ∷ 0 ∷ 0 ∷ []) ∷ []) [] (0 ∷ 0 ∷ [])
      cut_off cut_off-InDetection (unfold cut_off in refl) (unfold cut_off in refl)
