-- ===== src/Tests/Commands.antt =====
-- Commands and the invariant at concrete inputs.
use jtag.Prelude.{
  bit_at, get_or, ◌++◌, ◌≡◌, refl, true, false, [], ◌∷◌, none, some, arith, replicate,
}
use jtag.Wire.{of_image, minimal_cmd, minimal_length, le32_to_host, be32_to_host}
use jtag.Socket.{arrived, takes}
use jtag.Server.State.{World, new_server}
use jtag.Server.Signals.{get_pending_signals, request_pulse}
use jtag.Server.Packet.{
  parse_packet, do_reset, start_reset, start_oscan1, queue_empty_response, start_full_scan,
  process_vpi_packet,
}
use jtag.Server.Packet.Reset.{
  take_pins, reset_pins, reset_pulses, minimal_reset_no_pulse, early_edge_merged, merged_pins,
}
use jtag.Server.Poll.{poll}
use jtag.Server.Valid.{IsValid}
use jtag.Server.Valid.Operations.{new_server-IsValid}
use jtag.Server.Valid.Commands.{is_overlong, process_vpi_packet-IsValid, full_scan_overruns}
use jtag.Server.Valid.Flows.{Good}
use jtag.Server.Valid.Polls.{poll-Good}

-- A new server that is asked for a scan, on a socket that takes its answer.
asked : World
asked = record {
  server = new_server;
  inbox = [];
  accepts = some (arrived 2 (0 ∷ 0 ∷ 0 ∷ 0 ∷ 0 ∷ 0 ∷ 5 ∷ []) ∷ []) ∷ [];
  sends = takes 4 ∷ [];
  wire = [];
}

poll-Good_example : Good (poll asked)
poll-Good_example = poll-Good asked (unfold asked in new_server-IsValid)

-- The same server, with a command of its own in the buffer of the 8-byte protocol.
held : World
held = record asked {
  server = record new_server {
    vpi_minimal_mode = true;
    rx = record new_server.rx {
      minimal_cmd_rx = 2 ∷ 0 ∷ 0 ∷ 0 ∷ 0 ∷ 0 ∷ 0 ∷ 5 ∷ [];
      minimal_rx_bytes = 8;
    };
  };
}

held-IsValid : IsValid held.server
unfolding held new_server
held-IsValid =
    let v = new_server-IsValid in
    record {
      scan_valid = v.scan_valid;
      tms_valid = v.tms_valid;
      rx_valid = record {
        cmd_size = v.rx_valid.cmd_size;
        cmd_count = v.rx_valid.cmd_count;
        packet_size = v.rx_valid.packet_size;
        packet_count = v.rx_valid.packet_count;
        minimal_buf_size = refl;
        minimal_count = omega arith;
      };
      tx_valid = v.tx_valid;
      safe = refl;
    }

held_fits : is_overlong held.server.vpi_minimal_mode (parse_packet held.server) ≡ false
unfolding held parse_packet minimal_cmd minimal_length le32_to_host be32_to_host
held_fits = refl

process_vpi_packet-IsValid_example : IsValid (process_vpi_packet held).server
process_vpi_packet-IsValid_example = process_vpi_packet-IsValid held held_fits held-IsValid

full_scan_overruns_example : (start_full_scan 2 8192 new_server).fault ≡ true
full_scan_overruns_example = full_scan_overruns 2 8192 new_server (omega arith) (omega arith)

reset_pulses_example :
    let (pins, g) = take_pins 7 (do_reset asked).server.signals in
    (pins ≡ replicate 7 (some (reset_pins asked.server.signals.pending_mode_select)))
    × (g.reset_pulses_remaining ≡ 0)
    × (g.pending_tck_pulse ≡ false)
reset_pulses_example =
    reset_pulses asked (unfold asked new_server in refl) (unfold asked new_server in refl)

early_edge_merged_example :
    let s = (do_reset asked).server in
    (take_pins 7 (start_oscan1 s).signals).0
    ≡ replicate 6 (some (reset_pins 1))
      ++ some (merged_pins (bit_at (get_or (of_image s.rx.vpi_cmd_rx).buffer_out 0 0) 1)) ∷ []
unfolding do_reset start_reset queue_empty_response request_pulse asked new_server
early_edge_merged_example = early_edge_merged 6 (do_reset asked).server refl refl

minimal_reset_no_pulse_example : (get_pending_signals (do_reset held).server.signals).0 ≡ none
minimal_reset_no_pulse_example =
    minimal_reset_no_pulse held (unfold held in refl) (unfold held new_server in refl)
      (unfold held new_server in refl)
