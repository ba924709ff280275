-- ===== src/Tests/Packets.antt =====
-- Packets of the full protocol, over polls, at concrete inputs.
use jtag.Prelude.{
  ℕ, suc, ap, ◌≤◌, length, replicate, inl, inr, ◌≡◌, refl, true, List, [], ◌∷◌, ◌++◌, map, arith,
  take, drop, length-replicate,
}
use jtag.Wire.{vpi_pkt_size, Bytes, OcdVpiCmd, image, of_image, header, zeros, host_to_le32}
use jtag.Wire.Order.{le32-host_to_le32}
use jtag.Wire.Layout.{IsSized, header-IsSized}
use jtag.Socket.{Event, arrived}
use jtag.Server.State.{Rx, World, on_server, new_server, openocd_vpi}
use jtag.Server.Packet.{process_vpi_packet}
use jtag.Server.Work.{empty_packet}
use jtag.Server.Poll.Clients.{polls}
use jtag.Server.Poll.Parts.{Receiving}
use jtag.Server.Poll.Requests.{AsksScan}
use jtag.Server.Poll.Between.{Between, Ready}
use jtag.Server.Poll.Opening.{Fresh}
use jtag.Server.Poll.Session.{
  Call, scan, reset, oscan1, sequence, session, first, all_pins, AllCalls, no_calls, call_then,
  AllAnswered, images, session_served,
}
use jtag.Server.Poll.Packets.{Arrival, pause, part, event, brought, packet_processed}

-- A client of the full protocol that the server has accepted.
quiet : World
quiet = record {
  server = record new_server { connected = true; protocol_mode = openocd_vpi };
  inbox = [];
  accepts = [];
  sends = [];
  wire = [];
}

quiet-Receiving : Receiving quiet
unfolding quiet new_server
quiet-Receiving = record {
  connected = refl;
  protocol = refl;
  full = refl;
  no_response = refl;
  resting = refl;
  no_sequence = refl;
  no_scan = refl;
}

-- A scan of 32 bits: twelve bytes, a pause, and the rest.
opening : Bytes
opening = take 11 (drop 1 (image (header 2 4 32)))

remainder : List Arrival
remainder = pause ∷ part 0 (drop 13 (image (header 2 4 32))) ∷ []

whole_packet : (2 ∷ opening) ++ brought remainder ≡ image (header 2 4 32)
unfolding opening remainder image header zeros host_to_le32
whole_packet = refl

packet_processed_example :
    (k : ℕ) × (k ≤ length remainder)
    × (rest : List Event) × (rx : Rx) × (polls
          (suc k)
          (record quiet { inbox = arrived 2 opening ∷ map event remainder })
        ≡ on_server empty_packet (
            process_vpi_packet
              (record quiet { inbox = rest; server = record quiet.server { rx = rx } })))
    × (of_image rx.vpi_cmd_rx ≡ header 2 4 32)
packet_processed_example =
    packet_processed (header 2 4 32) 2 opening remainder quiet (header-IsSized 2 4 32) whole_packet
      (unfold opening image header zeros host_to_le32 in omega arith) quiet-Receiving
      (unfold quiet new_server in refl)
      (unfold quiet new_server zeros in length-replicate {A = ℕ} 1036 0)

-- A client that has just been accepted by a new server.
pub newcomer : World
newcomer = record {
  server = record new_server { connected = true };
  inbox = [];
  accepts = [];
  sends = [];
  wire = [];
}

pub newcomer-Fresh : Fresh newcomer
unfolding newcomer new_server zeros
newcomer-Fresh = record {
  connected = refl;
  protocol = refl;
  no_response = refl;
  resting = refl;
  no_sequence = refl;
  no_scan = refl;
  silent = refl;
  no_bytes = refl;
  minimal_sized = refl;
}

pub newcomer-Ready : Ready newcomer.server
unfolding newcomer new_server zeros
newcomer-Ready = record {
  no_bytes = refl;
  rx_size = length-replicate {A = ℕ} 1036 0;
  lsb = refl;
  tms_size = length-replicate {A = ℕ} 512 0;
  tdi_size = length-replicate {A = ℕ} 512 0;
  seq_size = length-replicate {A = ℕ} 512 0;
  no_pulse = refl;
  no_reset = refl;
  no_toggle = refl;
  no_fault = refl;
}

-- A scan of ten bits and one of three that ends with TMS high.
unfoldable pub ten_bits : OcdVpiCmd
ten_bits = record (header 2 2 10) { buffer_out = 0x5b ∷ 1 ∷ zeros 510 }

three_bits : OcdVpiCmd
three_bits = record (header 3 1 3) { buffer_out = 5 ∷ zeros 511 }

pub ten_bits-AsksScan : AsksScan 2 10 ten_bits
unfolding ten_bits header host_to_le32 zeros
ten_bits-AsksScan = record {
  sized = record {
    cmd_size = refl;
    out_size = ap (λ n. suc (suc n)) (length-replicate {A = ℕ} 510 0);
    in_size = length-replicate {A = ℕ} 512 0;
    length_size = refl;
    nb_bits_size = refl;
  };
  command = (le32-host_to_le32 2 (omega arith)).0;
  scans = inl refl;
  total = (le32-host_to_le32 10 (omega arith)).0;
  some_bits = omega arith;
  fits = omega arith;
}

three_bits-AsksScan : AsksScan 3 3 three_bits
unfolding three_bits header host_to_le32 zeros
three_bits-AsksScan = record {
  sized = record {
    cmd_size = refl;
    out_size = ap suc (length-replicate {A = ℕ} 511 0);
    in_size = length-replicate {A = ℕ} 512 0;
    length_size = refl;
    nb_bits_size = refl;
  };
  command = (le32-host_to_le32 3 (omega arith)).0;
  scans = inr refl;
  total = (le32-host_to_le32 3 (omega arith)).0;
  some_bits = omega arith;
  fits = omega arith;
}

-- A TMS sequence of nine bits.
unfoldable pub nine_bits : OcdVpiCmd
nine_bits = record (header 1 2 9) { buffer_out = 0x1f ∷ 1 ∷ zeros 510 }

pub nine_bits-IsSized : IsSized nine_bits
unfolding nine_bits header host_to_le32 zeros
nine_bits-IsSized = record {
  cmd_size = refl;
  out_size = ap (λ n. suc (suc n)) (length-replicate {A = ℕ} 510 0);
  in_size = length-replicate {A = ℕ} 512 0;
  length_size = refl;
  nb_bits_size = refl;
}

-- The socket takes three bytes at a time.
unfoldable pub three_each : List ℕ
three_each = replicate 1036 2

commands : List Call
commands =
    reset (header 0 0 0) three_each
    ∷ scan (record {
      command = 2;
      packet = ten_bits;
      tdo = 1;
      tdos = 0 ∷ 0 ∷ 1 ∷ 0 ∷ 1 ∷ 1 ∷ 1 ∷ 0 ∷ 1 ∷ [];
      calls = three_each;
    })
    ∷ scan (record {
      command = 3;
      packet = three_bits;
      tdo = 0;
      tdos = 1 ∷ 1 ∷ [];
      calls = three_each;
    })
    ∷ sequence nine_bits (replicate 9 0) three_each
    ∷ oscan1 (header 5 1 2) 1 three_each
    ∷ []

commands-AllCalls : AllCalls commands
unfolding commands
commands-AllCalls =
    let n : length three_each ≡ vpi_pkt_size =
      unfold three_each in length-replicate {A = ℕ} 1036 2 in
    call_then (header-IsSized 0 0 0, unfold header in (le32-host_to_le32 0 (omega arith)).0, n)
      (call_then (ten_bits-AsksScan, n)
        (call_then (three_bits-AsksScan, n)
          (call_then
            (
              nine_bits-IsSized,
              unfold nine_bits header in (le32-host_to_le32 1 (omega arith)).0,
              unfold nine_bits header in (le32-host_to_le32 9 (omega arith)).0,
              omega arith,
              n,
            )
            (call_then
              (header-IsSized 5 1 2, unfold header in (le32-host_to_le32 5 (omega arith)).0, n)
              no_calls))))

session_served_example :
    let (pins, w') = session commands newcomer in
    (pins ≡ all_pins newcomer.server.signals.pending_mode_select commands)
    × ((answers : List OcdVpiCmd) × AllAnswered commands answers
        × (w'.wire ≡ newcomer.wire ++ images answers))
    × Between w'
session_served_example =
    session_served commands newcomer commands-AllCalls
      (unfold commands in first newcomer-Fresh newcomer-Ready)
