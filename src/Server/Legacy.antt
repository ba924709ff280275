-- ===== src/Server/Legacy.antt =====
-- `process_command` of sim/jtag_vpi_server.cpp: the 8-byte commands of the legacy mode.
use jtag.Prelude.{
  ℕ, Bool, false, not, ◌&&◌, ◌||◌, ◌++◌, take, drop, get_or, ltb, ◌==◌, if◌then◌else◌,
}
use jtag.Wire.{Bytes, be32_to_host, response_bytes}
use jtag.Socket.{would_block, Sent, sent, send_error, send}
use jtag.Server.State.{Server, World}
use jtag.Server.Connection.{close_connection, next_outcome}
use jtag.Server.Scan.{process_scan}
use jtag.Server.Packet.{start_reset}

-- The effect of a command and the two response bytes that it sets; the rest of the response is 0.
pub record Reply : Type 0 where
  pub response : ℕ
  pub tdo_val : ℕ
  pub server : Server

unfoldable pub reply_to : ℕ → ℕ → Server → Reply
reply_to cmd length s =
    if cmd == 0
    then record { response = 0; tdo_val = s.signals.current_tdo; server = start_reset s }
    else if cmd == 2
    then record { response = 0; tdo_val = s.signals.current_tdo; server = process_scan length s }
    else if cmd == 3
    then record { response = 0; tdo_val = 0; server = s }
    else if cmd == 5
    then record { response = 0; tdo_val = s.signals.current_tdo; server = s }
    else record { response = 1; tdo_val = 0; server = s }

-- What a `send` of the response returned: bytes that it did not take are not sent again.
unfoldable pub response_sent : Bytes → Sent → World → World
unfolding close_connection
response_sent bytes (sent k) w = record w { wire = w.wire ++ take k bytes }
response_sent bytes (send_error e) w = close_connection w

abbrev pub full_buffer : Sent → Bool
full_buffer (send_error e) = would_block e
full_buffer _ = false

-- EAGAIN is tried again once.
unfoldable pub send_response : Bytes → World → World
send_response bytes w =
    let (o, w₁) = next_outcome w in
    let (o', w₂) = next_outcome w₁ in
    if full_buffer (send 4 o)
    then response_sent bytes (send 4 o') w₂
    else response_sent bytes (send 4 o) w₁

-- A command out of range, or a length out of range, is taken for garbage and gets no response.
unfoldable pub process_command : Bytes → World → World
process_command command w =
    let cmd = get_or command 0 0 in
    let length = be32_to_host (drop 4 command) in
    let r = reply_to cmd length w.server in
    if ltb 15 cmd || (ltb 4096 length && not (cmd == 2))
    then w
    else if r.server.connected
    then send_response (response_bytes r.response r.tdo_val 0 0) (record w { server = r.server })
    else record w { server = r.server }
