-- ===== src/Server/Poll.antt =====
-- `poll` of sim/jtag_vpi_server.cpp: a connection, the protocol of its client, and its commands.
pub mod Clients
pub mod Parts
pub mod Shifting
pub mod Replies
pub mod Between
pub mod Requests
pub mod Responses
pub mod Opening
pub mod Scanning
pub mod Resetting
pub mod Edges
pub mod Overlay
pub mod Sequence
pub mod Sequencing
pub mod Pulled
pub mod Session
pub mod Device
pub mod Asks
pub mod Attached
pub mod Packets
pub mod Loading
pub mod Buffered
pub mod MinimalScan
pub mod LegacyLoading
pub mod LegacyScan
pub mod LegacyServed
pub mod LegacyCalls
pub mod LegacyReplies
pub mod LegacySession
use jtag.Prelude.{
  ◌-◌, Bool, true, false, not, List, [], ◌∷◌, Option, none, some, blit, ltb, if◌then◌else◌,
}
use jtag.Wire.{zeros, minimal_size, vpi_pkt_size}
use jtag.Socket.{Event, Recv, received, peek}
use jtag.Server.State.{ProtocolMode, unknown, openocd_vpi, legacy_8byte, Server, World, on_server}
use jtag.Server.Connection.{
  Flow, stop, go, ◌>>=◌, landed, strict, fetch, store_minimal, store_packet, store_command,
}
use jtag.Server.Scan.{continue_scan}
use jtag.Server.Packet.{process_vpi_packet}
use jtag.Server.Work.{
  continue_vpi_work, is_idle, when_minimal_full, when_header_full, when_packet_full, empty_minimal,
  empty_packet,
}
use jtag.Server.Legacy.{process_command}

-- What `accept` returned. The bytes on the wire are those of the new connection.
unfoldable pub accepted : List (Option (List Event)) → World → World
accepted [] w = w
accepted (none ∷ later) w = record w { accepts = later }
accepted (some es ∷ later) w = record w {
  server = record w.server { connected = true };
  inbox = es;
  accepts = later;
  wire = [];
}

abbrev pub more_available : Recv → Bool
more_available (received (x ∷ xs)) = true
more_available _ = false

-- With bytes behind the first eight they are the head of a full packet, else a short command.
unfoldable pub choose_protocol : Recv → Server → Server
unfolding zeros
choose_protocol r s =
    if more_available r
    then record s {
      protocol_mode = openocd_vpi;
      rx = record s.rx {
        vpi_cmd_rx = blit s.rx.vpi_cmd_rx 0 s.rx.minimal_cmd_rx;
        vpi_rx_bytes = minimal_size;
        minimal_rx_bytes = 0;
        minimal_cmd_rx = zeros minimal_size;
      };
      vpi_minimal_mode = false;
    }
    else record s { protocol_mode = openocd_vpi; vpi_minimal_mode = true }

-- "Auto-detect protocol if unknown"
unfoldable pub detect_protocol : World → Flow
detect_protocol w = do
  w₁ ←
      if ltb w.server.rx.minimal_rx_bytes minimal_size
      then fetch strict (minimal_size - w.server.rx.minimal_rx_bytes) store_minimal w
      else go w
  w₂ ← when_minimal_full w₁
  let (r, inbox) = peek 16 w₂.inbox
  go (on_server (choose_protocol r) (record w₂ { inbox = inbox }))

-- "Minimal path: process immediately when flagged"
unfoldable pub first_minimal : World → Flow
first_minimal w = do
  w₁ ←
      if ltb w.server.rx.minimal_rx_bytes minimal_size
      then fetch strict (minimal_size - w.server.rx.minimal_rx_bytes) store_minimal w
      else go w
  w₂ ← when_minimal_full w₁
  stop (on_server empty_minimal (process_vpi_packet w₂))

-- The first full packet, after its detection.
unfoldable pub first_packet : World → Flow
first_packet w = do
  w₁ ←
      if ltb w.server.rx.vpi_rx_bytes 8
      then fetch strict (8 - w.server.rx.vpi_rx_bytes) store_packet w
      else go w
  w₂ ← when_header_full w₁
  w₃ ←
      if ltb w₂.server.rx.vpi_rx_bytes vpi_pkt_size
      then fetch strict (vpi_pkt_size - w₂.server.rx.vpi_rx_bytes) store_packet w₂
      else go w₂
  w₄ ← when_packet_full w₃
  stop (on_server empty_packet (process_vpi_packet w₄))

-- "Legacy protocol": a header of 8 bytes, which may come in parts.
unfoldable pub legacy_work : World → Flow
legacy_work w = do
  w₁ ←
      if ltb w.server.rx.cmd_bytes_received minimal_size
      then fetch strict (minimal_size - w.server.rx.cmd_bytes_received) store_command w
      else go w
  w₂ ← if ltb w₁.server.rx.cmd_bytes_received minimal_size then stop w₁ else go w₁
  let command = w₂.server.rx.cmd_buf
  stop (
      process_command command
        (on_server (λ s. record s { rx = record s.rx { cmd_bytes_received = 0 } }) w₂))

-- What `poll` does once the protocol is known.
unfoldable pub serve : ProtocolMode → World → Flow
serve openocd_vpi w = if w.server.vpi_minimal_mode then first_minimal w else first_packet w
serve unknown w = legacy_work w
serve legacy_8byte w = legacy_work w

-- A connected client whose scan is idle, by protocol.
unfoldable pub poll_idle : ProtocolMode → World → World
poll_idle unknown w = landed (detect_protocol w >>= λ w'. serve w'.server.protocol_mode w')
poll_idle m w = landed (serve m w)

abbrev pub is_openocd : ProtocolMode → Bool
is_openocd openocd_vpi = true
is_openocd _ = false

unfoldable pub poll : World → World
poll w =
    if not w.server.connected
    then accepted w.accepts w
    else if is_openocd w.server.protocol_mode
    then continue_vpi_work w
    else if not (is_idle w.server.scan.state)
    then continue_scan w
    else poll_idle w.server.protocol_mode w
