-- ===== src/Server/Valid/Polls.antt =====
-- A whole `poll` keeps the invariant, or it has processed a command with too many bits.
use jtag.Prelude.{
  ℕ, ◌+◌, ◌-◌, ◌≤◌, ◌≡◌, inl, refl, Bool, true, false, not, List, [], ◌∷◌, length-blit, take, drop,
  Option, none, some, get_or, ◌%◌, arith, ltb, leb, ◌==◌, ◌&&◌, if◌then◌else◌, u32, sub32,
}
use jtag.Wire.{Bytes, vpi_pkt_size, minimal_size, be32_to_host, response_bytes}
use jtag.Socket.{Event, would_block, Recv, peek, Outcome, Sent, sent, send_error, send}
use jtag.Server.State.{ProtocolMode, unknown, openocd_vpi, legacy_8byte, Sf0State, Server, World}
use jtag.Server.Connection.{close_connection, store_command, next_outcome, strict}
use jtag.Server.Scan.{continue_scan}
use jtag.Server.Work.{
  tx_sent, flush_tx, falling_edge, answer_oscan1, sf0_work, tms_seq_bit, tms_work,
  queue_scan_response, after_scan, scan_work, continue_vpi_work, is_idle, is_processing,
}
use jtag.Server.Legacy.{reply_to, response_sent, send_response, process_command}
use jtag.Server.Poll.{
  accepted, choose_protocol, detect_protocol, legacy_work, serve, poll_idle, poll, is_openocd,
}
use jtag.Server.Valid.{IsValid}
use jtag.Server.Valid.Operations.{
  length-zeros, reset_connection-IsValid, store_command-IsValid, continue_scan-IsValid,
  process_scan-IsValid,
}
use jtag.Server.Valid.Commands.{start_reset-IsValid}
use jtag.Server.Valid.Flows.{
  Good, Runs, stops, goes, bind-Runs, landed-Runs, fetch-Runs, if-Runs, when-Runs, top_up_minimal,
  first_minimal-Runs, first_packet-Runs, receive_work-Runs,
}

tx_sent-Runs :
    (r : Sent) (w : World)
    → IsValid w.server
    → ((k : ℕ) → r ≡ sent k → k ≤ vpi_pkt_size)
    → Runs (tx_sent r w)
unfolding tx_sent close_connection
tx_sent-Runs (sent k) w v h = goes (kept (h k refl))
  where
    kept :
        k ≤ vpi_pkt_size
        → IsValid (record w.server {
          tx =
              if k == 0
              then w.server.tx
              else if leb vpi_pkt_size (u32 (w.server.tx.vpi_tx_bytes + k))
              then record w.server.tx { vpi_tx_pending = false; vpi_tx_bytes = 0 }
              else record w.server.tx { vpi_tx_bytes = u32 (w.server.tx.vpi_tx_bytes + k) };
        })
    kept l = ground arith
tx_sent-Runs (send_error e) w v h =
    if-Runs (would_block e) (λ _. goes v) (λ _. stops (inl (reset_connection-IsValid w.server v)))

sent-le : (n : ℕ) (o : Outcome) (k : ℕ) → send n o ≡ sent k → k ≤ n
unfolding send
sent-le n o k e = ground arith

flush_tx-Runs : (w : World) → IsValid w.server → Runs (flush_tx w)
unfolding flush_tx next_outcome
flush_tx-Runs w v =
    let o = next_outcome w in
    let n = sub32 vpi_pkt_size w.server.tx.vpi_tx_bytes in
    if-Runs (w.server.tx.vpi_tx_pending && w.server.connected)
      (λ _. tx_sent-Runs (send n o.0) o.1 v (λ k e. within v (sent-le n o.0 k e))) (λ _. goes v)
  where
    within :
        {k : ℕ}
        → IsValid w.server
        → k ≤ sub32 vpi_pkt_size w.server.tx.vpi_tx_bytes
        → k ≤ vpi_pkt_size
    within u l = omega arith

falling_edge-IsValid : (s : Server) → IsValid s → IsValid (falling_edge s)
unfolding falling_edge
falling_edge-IsValid s v = ground arith

answer_oscan1-IsValid : (s : Server) → IsValid s → IsValid (answer_oscan1 s)
unfolding answer_oscan1
answer_oscan1-IsValid s v =
    ground (arith, length-blit s.tx.vpi_cmd_tx.buffer_in 0 (s.signals.current_tdo % 2 ∷ []))

sf0_work-Runs : (st : Sf0State) (w : World) → IsValid w.server → Runs (sf0_work st w)
unfolding sf0_work
sf0_work-Runs Sf0State.send_tms w v = stops (inl (ground (arith, falling_edge-IsValid w.server v)))
sf0_work-Runs Sf0State.send_tdi w v = stops (inl (ground (arith, answer_oscan1-IsValid w.server v)))
sf0_work-Runs Sf0State.resting w v = goes v
sf0_work-Runs Sf0State.capture_tdo w v = goes v

tms_seq_bit-IsValid : (s : Server) → IsValid s → IsValid (tms_seq_bit s)
unfolding tms_seq_bit
tms_seq_bit-IsValid s v = ground arith

tms_work-Runs : (w : World) → IsValid w.server → Runs (tms_work w)
unfolding tms_work
tms_work-Runs w v =
    if-Runs w.server.tms_seq.active
      (λ _. stops (inl (ground (arith, tms_seq_bit-IsValid w.server v)))) (λ _. goes v)

queue_scan_response-IsValid : (s : Server) → IsValid s → IsValid (queue_scan_response s)
unfolding queue_scan_response
queue_scan_response-IsValid s v =
    ground (arith, length-blit s.tx.vpi_cmd_tx.buffer_in 0 (take s.scan.num_bytes s.scan.tdo_buf))

after_scan-IsValid : (w : World) → IsValid w.server → IsValid (after_scan w).server
unfolding after_scan
after_scan-IsValid w v = ground (arith, queue_scan_response-IsValid w.server v)

scan_work-Runs : (w : World) → IsValid w.server → Runs (scan_work w)
unfolding scan_work
scan_work-Runs w v =
    if-Runs (is_idle w.server.scan.state) (λ _. goes v)
      λ _.
        if-Runs (is_processing w.server.scan.state && w.server.signals.pending_tck_pulse)
          (λ _. stops (inl v))
          (λ _. stops (inl (after_scan-IsValid (continue_scan w) (continue_scan-IsValid w v))))

continue_vpi_work-Good : (w : World) → IsValid w.server → Good (continue_vpi_work w)
unfolding continue_vpi_work
continue_vpi_work-Good w v = landed-Runs (
    bind-Runs _ (flush_tx-Runs w v) λ w₁ v₁.
      bind-Runs _ (sf0_work-Runs w₁.server.sf0.state w₁ v₁) λ w₂ v₂.
        bind-Runs _ (tms_work-Runs w₂ v₂)
          λ w₃ v₃. bind-Runs _ (scan_work-Runs w₃ v₃) λ w₄ v₄. receive_work-Runs w₄ v₄)

reply_to-IsValid : (c n : ℕ) (s : Server) → IsValid s → IsValid (reply_to c n s).server
unfolding reply_to
reply_to-IsValid c n s v = ground (arith, start_reset-IsValid s v, process_scan-IsValid n s v)

response_sent-IsValid :
    (bs : Bytes) (r : Sent) (w : World) → IsValid w.server → IsValid (response_sent bs r w).server
unfolding response_sent close_connection
response_sent-IsValid bs r w v = ground (arith, reset_connection-IsValid w.server v)

send_response-IsValid :
    (bs : Bytes) (w : World) → IsValid w.server → IsValid (send_response bs w).server
unfolding send_response next_outcome
send_response-IsValid bs w v =
    let o = next_outcome w in
    let o' = next_outcome o.1 in
    ground (
      arith,
      response_sent-IsValid bs (send 4 o'.0) o'.1 v,
      response_sent-IsValid bs (send 4 o.0) o.1 v,
    )

process_command-IsValid :
    (c : Bytes) (w : World) → IsValid w.server → IsValid (process_command c w).server
unfolding process_command
process_command-IsValid c w v =
    let r = reply_to (get_or c 0 0) (be32_to_host (drop 4 c)) w.server in
    let u = reply_to-IsValid (get_or c 0 0) (be32_to_host (drop 4 c)) w.server v in
    ground (
      arith,
      u,
      send_response-IsValid (response_bytes r.response r.tdo_val 0 0)
          (record w { server = r.server }) u,
    )

legacy_work-Runs : (w : World) → IsValid w.server → Runs (legacy_work w)
unfolding legacy_work
legacy_work-Runs w v =
    bind-Runs _
      (if-Runs (ltb w.server.rx.cmd_bytes_received minimal_size)
        (λ _.
          fetch-Runs strict (minimal_size - w.server.rx.cmd_bytes_received) store_command w
            (λ xs h. store_command-IsValid xs w.server (omega arith) v) v)
        (λ _. goes v))
      λ w₁ v₁.
        bind-Runs _ (when-Runs (ltb w₁.server.rx.cmd_bytes_received minimal_size) w₁ v₁)
          λ w₂ v₂. stops (inl (process_command-IsValid w₂.server.rx.cmd_buf _ (ground arith)))

serve-Runs : (m : ProtocolMode) (w : World) → IsValid w.server → Runs (serve m w)
unfolding serve
serve-Runs openocd_vpi w v =
    if-Runs w.server.vpi_minimal_mode (λ _. first_minimal-Runs w v) (λ _. first_packet-Runs w v)
serve-Runs unknown w v = legacy_work-Runs w v
serve-Runs legacy_8byte w v = legacy_work-Runs w v

choose_protocol-IsValid : (r : Recv) (s : Server) → IsValid s → IsValid (choose_protocol r s)
unfolding choose_protocol
choose_protocol-IsValid r s v =
    ground (arith, length-zeros 8, length-blit s.rx.vpi_cmd_rx 0 s.rx.minimal_cmd_rx)

detect_protocol-Runs : (w : World) → IsValid w.server → Runs (detect_protocol w)
unfolding detect_protocol
detect_protocol-Runs w v = bind-Runs _ (top_up_minimal strict w v) λ w₁ v₁.
    bind-Runs _ (when-Runs (ltb w₁.server.rx.minimal_rx_bytes minimal_size) w₁ v₁)
      λ w₂ v₂. goes (choose_protocol-IsValid (peek 16 w₂.inbox).0 w₂.server v₂)

poll_idle-Good : (m : ProtocolMode) (w : World) → IsValid w.server → Good (poll_idle m w)
unfolding poll_idle
poll_idle-Good unknown w v =
    landed-Runs
      (bind-Runs _ (detect_protocol-Runs w v) λ w₁ v₁. serve-Runs w₁.server.protocol_mode w₁ v₁)
poll_idle-Good openocd_vpi w v = landed-Runs (serve-Runs openocd_vpi w v)
poll_idle-Good legacy_8byte w v = landed-Runs (serve-Runs legacy_8byte w v)

accepted-IsValid :
    (later : List (Option (List Event))) (w : World)
    → IsValid w.server
    → IsValid (accepted later w).server
unfolding accepted
accepted-IsValid [] w v = v
accepted-IsValid (none ∷ later) w v = v
accepted-IsValid (some es ∷ later) w v = ground arith

if-Good : (b : Bool) {x y : World} → Good x → Good y → Good (if b then x else y)
if-Good true u v = u
if-Good false u v = v

-- One `poll`, whatever the sockets do: a valid server stays valid (no array is left, every index
-- and count within its array, so that no fault arises), unless the poll has processed, in a valid
-- state, a command with more than 4096 bits that the code does not check.
pub poll-Good : (w : World) → IsValid w.server → Good (poll w)
unfolding poll
poll-Good w v = if-Good (not w.server.connected) (inl (accepted-IsValid w.accepts w v)) (
    if-Good (is_openocd w.server.protocol_mode) (continue_vpi_work-Good w v) (
      if-Good (not (is_idle w.server.scan.state)) (inl (continue_scan-IsValid w v))
        (poll_idle-Good w.server.protocol_mode w v)))
