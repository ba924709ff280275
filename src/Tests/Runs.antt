-- ===== src/Tests/Runs.antt =====
-- Runs of sim/jtag_vpi_server.cpp with concrete clients.
use jtag.Prelude.{ℕ, ◌≡◌, refl, false, List, [], ◌∷◌, some, bit_at, raise_bit, lower_bit}
use jtag.Wire.{
  image, of_image, header, host_to_le32, zeros, le32_to_host, be32_to_host, minimal_cmd,
  minimal_length, response_bytes,
}
use jtag.Socket.{Event, arrived, failed, Errno, Outcome, takes, fails, recv, peek, send}
use jtag.Server.State.{World, new_server, on_server, blank_packet}
use jtag.Server.Signals.{get_pending_signals, request_pulse, update_signals}
use jtag.Server.Connection.{
  close_connection, reset_connection, fetch, fetched, store_minimal, store_packet, store_command,
  next_outcome,
}
use jtag.Server.Response.{send_minimal_response, send_loop, turn, conclude}
use jtag.Server.Scan.{
  fresh_scan, process_scan, bit_pos, read_bit, write_bit, capture, request_bit, finish_bits,
  process_bits, tms_arrived, tdi_arrived, tdo_sent, continue_scan, continue_scan_in,
}
use jtag.Server.Packet.{
  parse_packet, queue_empty_response, start_reset, clear_reset, do_reset, start_tms_seq,
  start_minimal_scan, flip_tms, start_full_scan, start_oscan1, do_scan, perform, process_vpi_packet,
}
use jtag.Server.Work.{
  tx_sent, flush_tx, falling_edge, answer_oscan1, sf0_work, tms_seq_bit, tms_work,
  queue_scan_response, after_scan, scan_work, empty_minimal, empty_packet, minimal_work,
  switch_to_minimal, peeked, detect_follow_on, packet_work, receive_work, continue_vpi_work,
}
use jtag.Server.Legacy.{reply_to, response_sent, send_response, process_command}
use jtag.Server.Poll.{
  accepted, choose_protocol, detect_protocol, first_minimal, first_packet, legacy_work, serve,
  poll_idle, poll,
}

-- A poll, then the simulation takes what is pending and reports TDO.
cycle : ℕ → World → World
unfolding get_pending_signals update_signals poll accepted choose_protocol detect_protocol
    first_minimal first_packet legacy_work serve poll_idle reply_to response_sent send_response
    process_command tx_sent flush_tx falling_edge answer_oscan1 sf0_work tms_seq_bit tms_work
    queue_scan_response after_scan scan_work empty_minimal empty_packet minimal_work
    switch_to_minimal peeked detect_follow_on packet_work receive_work continue_vpi_work
    parse_packet queue_empty_response start_reset clear_reset do_reset start_tms_seq
    start_minimal_scan flip_tms start_full_scan start_oscan1 do_scan perform process_vpi_packet
    fresh_scan process_scan bit_pos read_bit write_bit capture request_bit finish_bits process_bits
    tms_arrived tdi_arrived tdo_sent continue_scan continue_scan_in send_minimal_response send_loop
    turn conclude close_connection reset_connection fetch fetched store_minimal store_packet
    store_command next_outcome request_pulse recv peek send image of_image header host_to_le32 zeros
    le32_to_host be32_to_host minimal_cmd minimal_length response_bytes bit_at raise_bit lower_bit
    new_server blank_packet
cycle tdo w =
    on_server
      (λ s. record s {
        signals =
            let g = (get_pending_signals s.signals).1 in
            update_signals tdo g.current_tdo_en g.current_idcode g.pending_mode_select g;
      })
      (poll w)

-- One cycle for each TDO value.
cycles : List ℕ → World → World
unfolding cycle
cycles [] w = w
cycles (t ∷ ts) w = cycles ts (cycle t w)

-- A new server, one client that will send these events, and a socket with these outcomes.
client : List Outcome → List Event → World
client os es = record {
  server = new_server;
  inbox = [];
  accepts = some es ∷ [];
  sends = os;
  wire = [];
}

-- CMD_SCAN of 5 bits in the 8-byte protocol: the command, a pause, then a byte of TMS and one of
-- TDI. The TDO values of the pulses are 1 0 1 1 0: the client gets its response and their byte.
scan_client : List Event
scan_client =
    arrived 2 (0 ∷ 0 ∷ 0 ∷ 0 ∷ 0 ∷ 0 ∷ 5 ∷ [])
    ∷ failed Errno.eagain
    ∷ arrived 0x10 []
    ∷ arrived 0x0b []
    ∷ []

short_scan :
    (cycles
      (0 ∷ 0 ∷ 0 ∷ 0 ∷ 1 ∷ 0 ∷ 1 ∷ 1 ∷ 0 ∷ 0 ∷ 0 ∷ [])
      (client (takes 4 ∷ takes 4 ∷ []) scan_client)).wire
    ≡ 0 ∷ 0 ∷ 0 ∷ 0 ∷ 0x0d ∷ []
unfolding cycles client scan_client
short_scan = refl

-- A client of the 8-byte protocol that asks for the mode, byte by byte.
mode_client : List Event
mode_client =
    arrived 3 (0 ∷ 0 ∷ []) ∷ arrived 0 (0 ∷ 0 ∷ 0 ∷ []) ∷ arrived 0 [] ∷ failed Errno.eagain ∷ []

mode_answered :
    (cycles
      (1 ∷ 1 ∷ 1 ∷ 1 ∷ [])
      (client (fails Errno.eagain ∷ takes 3 ∷ takes 4 ∷ []) mode_client)).wire
    ≡ 0 ∷ 1 ∷ 0 ∷ 0 ∷ []
unfolding cycles client mode_client
mode_answered = refl

-- A reset of a socket ends the connection.
reset_closes :
    (cycles (0 ∷ 0 ∷ []) (client [] (failed Errno.econnreset ∷ []))).server.connected ≡ false
unfolding cycles client
reset_closes = refl
