-- ===== src/Server/Packet.antt =====
-- `process_vpi_packet` of sim/jtag_vpi_server.cpp: what each command does, in the 8-byte protocol
-- and in the full one.
pub mod Reset
pub mod FullScan
use jtag.Prelude.{
  ℕ, ◌-◌, ◌/◌, ◌%◌, true, false, ◌&&◌, ◌||◌, get_or, set, take, blit, min, bit_at, raise_bit, ltb,
  leb, ◌==◌, if◌then◌else◌,
}
use jtag.Wire.{
  Bytes, of_image, header, zeros, le32_to_host, minimal_cmd, minimal_length, buffer_size,
  minimal_size,
}
use jtag.Server.State.{Sf0State, ScanState, Server, World, on_server}
use jtag.Server.Signals.{request_pulse}
use jtag.Server.Connection.{close_connection}
use jtag.Server.Response.{send_minimal_response}
use jtag.Server.Scan.{bytes_of_bits, fresh_scan}

-- The command and its number of bits.
pub record Request : Type 0 where
  pub cmd : ℕ
  pub nb_bits : ℕ

unfoldable pub parse_packet : Server → Request
unfolding minimal_cmd minimal_length of_image le32_to_host
parse_packet s =
    let packet = of_image s.rx.vpi_cmd_rx in
    let min_cmd =
      if leb minimal_size s.rx.minimal_rx_bytes
      then s.rx.minimal_cmd_rx
      else take minimal_size s.rx.vpi_cmd_rx in
    if s.vpi_minimal_mode
    then record { cmd = minimal_cmd min_cmd; nb_bits = minimal_length min_cmd }
    else record { cmd = le32_to_host packet.cmd_buf; nb_bits = le32_to_host packet.nb_bits_buf }

-- A response with a header and nothing else goes out from its first byte.
unfoldable pub queue_empty_response : ℕ → Server → Server
queue_empty_response cmd s = record s {
  tx = record { vpi_cmd_tx = header cmd 0 0; vpi_tx_bytes = 0; vpi_tx_pending = true };
}

-- CMD_RESET
unfoldable pub start_reset : Server → Server
unfolding request_pulse
start_reset s = record s {
  signals = record (request_pulse 1 0 s.signals) { reset_pulses_remaining = 6 };
}

-- "Clear any pending operations so next command can proceed cleanly"
unfoldable pub clear_reset : Server → Server
clear_reset s = record s {
  signals = record s.signals { reset_pulses_remaining = 0; pending_tck_pulse = false };
}

unfoldable pub do_reset : World → World
do_reset w =
    let started = on_server start_reset w in
    if w.server.vpi_minimal_mode
    then on_server clear_reset
        (send_minimal_response 0 0 started.server.signals.current_mode 0 started)
    else on_server (queue_empty_response 0) started

-- CMD_TMS_SEQ
unfoldable pub start_tms_seq : ℕ → Server → Server
start_tms_seq nb_bits s =
    let copied =
      take (min (bytes_of_bits nb_bits) buffer_size) (of_image s.rx.vpi_cmd_rx).buffer_out in
    let started : Server = record s {
      tms_seq = record {
        active = true;
        num_bits = nb_bits;
        bit_index = 0;
        buf = blit s.tms_seq.buf 0 copied;
      };
    } in
    if s.vpi_minimal_mode then started else queue_empty_response 1 started

-- CMD_SCAN_CHAIN in the 8-byte protocol: a response, then the buffers come over the socket.
unfoldable pub start_minimal_scan : ℕ → World → World
start_minimal_scan nb_bits w =
    let answered =
      send_minimal_response 0 w.server.signals.current_tdo w.server.signals.current_mode 0 w in
    if nb_bits == 0 || ltb 4096 nb_bits
    then answered
    else on_server (λ s. record s { scan = fresh_scan nb_bits s.scan }) answered

-- TMS is low but for the last bit of CMD_SCAN_CHAIN_FLIP_TMS.
unfoldable pub flip_tms : ℕ → ℕ → Bytes → Bytes
unfolding raise_bit
flip_tms cmd nb_bits buf =
    let last = nb_bits - 1 in
    if cmd == 3 && ltb 0 nb_bits
    then set buf (last / 8) (raise_bit (get_or buf (last / 8) 0) (last % 8))
    else buf

-- CMD_SCAN_CHAIN and CMD_SCAN_CHAIN_FLIP_TMS of the full protocol. The copies are as long as the
-- client says: past 512 bytes they leave their arrays.
unfoldable pub start_full_scan : ℕ → ℕ → Server → Server
start_full_scan cmd nb_bits s =
    let num_bytes = bytes_of_bits nb_bits in
    let cleared = blit s.scan.tms_buf 0 (zeros (min num_bytes buffer_size)) in
    let copied = take num_bytes (of_image s.rx.vpi_cmd_rx).buffer_out in
    record s {
      scan = record {
        state = ScanState.processing;
        is_legacy = false;
        num_bits = nb_bits;
        num_bytes = num_bytes;
        bit_index = 0;
        tms_buf = flip_tms cmd nb_bits cleared;
        tdi_buf = blit s.scan.tdi_buf 0 copied;
        tdo_buf = zeros buffer_size;
        bytes_received = num_bytes;
        bytes_sent = 0;
      };
      tx = record {
        vpi_cmd_tx = header cmd num_bytes nb_bits;
        vpi_tx_bytes = 0;
        vpi_tx_pending = false;
      };
      fault =
          s.fault
          || ltb buffer_size num_bytes
          || (cmd == 3 && ltb 0 nb_bits && leb buffer_size ((nb_bits - 1) / 8));
    }

-- CMD_OSCAN1: the first edge carries TMS.
unfoldable pub start_oscan1 : Server → Server
start_oscan1 s =
    let control = get_or (of_image s.rx.vpi_cmd_rx).buffer_out 0 0 in
    let tdi = bit_at control 0 in
    let tms = bit_at control 1 in
    record s {
      signals = record s.signals {
        pending_mode_select = 1;
        pending_tms = tms;
        pending_tdi = 0;
        pending_tckc_toggle = true;
      };
      sf0 = record { state = Sf0State.send_tms; tms = tms; tdi = tdi; tdo = 0 };
      tx = record { vpi_cmd_tx = header 5 1 2; vpi_tx_bytes = 0; vpi_tx_pending = false };
    }

-- Commands 2 and 3; in the 8-byte protocol 3 asks for the mode.
unfoldable pub do_scan : ℕ → ℕ → World → World
do_scan cmd nb_bits w =
    if w.server.vpi_minimal_mode && cmd == 3
    then send_minimal_response 0 w.server.signals.current_tdo w.server.signals.current_mode 0 w
    else if w.server.vpi_minimal_mode
    then start_minimal_scan nb_bits w
    else on_server (start_full_scan cmd nb_bits) w

-- the `switch`; a command that is not known is ignored
unfoldable pub perform : Request → World → World
perform r w =
    if r.cmd == 0
    then do_reset w
    else if r.cmd == 1
    then on_server (start_tms_seq r.nb_bits) w
    else if r.cmd == 2 || r.cmd == 3
    then do_scan r.cmd r.nb_bits w
    else if r.cmd == 4
    then close_connection w
    else if r.cmd == 5
    then on_server start_oscan1 w
    else w

unfoldable pub process_vpi_packet : World → World
process_vpi_packet w = perform (parse_packet w.server) w
