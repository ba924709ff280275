-- ===== src/Server/Work.antt =====
-- `continue_vpi_work` of sim/jtag_vpi_server.cpp, one definition for each of its numbered parts.
pub mod Oscan1
pub mod TmsSequence
pub mod Transmit
use jtag.Prelude.{
  ◌+◌, ◌-◌, ◌/◌, ◌%◌, Bool, true, false, not, ◌&&◌, ◌||◌, [], ◌∷◌, ◌++◌, get_or, take, drop, blit,
  u32, sub32, bit_at, ltb, leb, ◌==◌, if◌then◌else◌,
}
use jtag.Wire.{image, zeros, buffer_size, vpi_pkt_size, minimal_size}
use jtag.Socket.{would_block, Recv, received, recv_error, peek, Sent, sent, send_error, send}
use jtag.Server.State.{Sf0State, ScanState, idle, processing, Server, World, on_server}
use jtag.Server.Signals.{request_pulse}
use jtag.Server.Connection.{
  close_connection, Flow, stop, go, ◌>>=◌, landed, strict, tolerant, fetch, store_minimal,
  store_packet, next_outcome,
}
use jtag.Server.Scan.{continue_scan}
use jtag.Server.Packet.{process_vpi_packet}

-- What the `send` of a response packet returned.
unfoldable pub tx_sent : Sent → World → Flow
unfolding close_connection
tx_sent (sent k) w =
    let t = w.server.tx in
    let total = u32 (t.vpi_tx_bytes + k) in
    go (record w {
      server = record w.server {
        tx =
            if k == 0
            then t
            else if leb vpi_pkt_size total
            then record t { vpi_tx_pending = false; vpi_tx_bytes = 0 }
            else record t { vpi_tx_bytes = total };
      };
      wire = w.wire ++ take k (drop t.vpi_tx_bytes (image t.vpi_cmd_tx));
    })
tx_sent (send_error e) w = if would_block e then go w else stop (close_connection w)

-- 1) "If sending a response, try to flush it first"
unfoldable pub flush_tx : World → Flow
flush_tx w =
    let (o, w') = next_outcome w in
    if w.server.tx.vpi_tx_pending && w.server.connected
    then tx_sent (send (sub32 vpi_pkt_size w.server.tx.vpi_tx_bytes) o) w'
    else go w

-- Whether the edge that was asked for is still to come.
abbrev edge_outstanding : Server → Bool
edge_outstanding s = s.signals.pending_tckc_toggle || not s.signals.tckc_toggle_consumed

-- The rising edge is out: the falling edge carries TDI.
unfoldable pub falling_edge : Server → Server
falling_edge s = record s {
  signals = record s.signals {
    pending_tdi = s.sf0.tdi;
    pending_tms = 0;
    pending_tckc_toggle = true;
    tckc_toggle_consumed = false;
  };
  sf0 = record s.sf0 { state = Sf0State.send_tdi };
}

-- Both edges are out: TDO goes into the response, which is queued.
unfoldable pub answer_oscan1 : Server → Server
answer_oscan1 s =
    let tdo = s.signals.current_tdo % 2 in
    record s {
      sf0 = record s.sf0 { state = Sf0State.resting; tdo = tdo };
      tx = record {
        vpi_cmd_tx = record s.tx.vpi_cmd_tx {
          buffer_in = blit s.tx.vpi_cmd_tx.buffer_in 0 (tdo ∷ []);
        };
        vpi_tx_bytes = 0;
        vpi_tx_pending = true;
      };
    }

-- 2) "Process OScan1 SF0 state machine"
unfoldable pub sf0_work : Sf0State → World → Flow
sf0_work Sf0State.send_tms w =
    stop (if edge_outstanding w.server then w else on_server falling_edge w)
sf0_work Sf0State.send_tdi w =
    stop (if edge_outstanding w.server then w else on_server answer_oscan1 w)
sf0_work Sf0State.resting w = go w
sf0_work Sf0State.capture_tdo w = go w

-- The next bit of the sequence, or its end.
unfoldable pub tms_seq_bit : Server → Server
unfolding bit_at request_pulse
tms_seq_bit s =
    if ltb bit_index num_bits
    then record s {
      signals = request_pulse (bit_at (get_or buf (bit_index / 8) 0) (bit_index % 8)) 0 s.signals;
      tms_seq = record s.tms_seq { bit_index = u32 (bit_index + 1) };
      fault = s.fault || leb buffer_size (bit_index / 8);
    }
    else record s { tms_seq = record s.tms_seq { active = false } }
  where
    open s.tms_seq use {bit_index, num_bits, buf}

-- 3) "Process TMS sequence"
unfoldable pub tms_work : World → Flow
tms_work w =
    if w.server.tms_seq.active
    then stop (if w.server.signals.pending_tck_pulse then w else on_server tms_seq_bit w)
    else go w

-- "When legacy finishes sending TDO bytes, prepare and queue full response"
unfoldable pub queue_scan_response : Server → Server
queue_scan_response s = record s {
  tx = record {
    vpi_cmd_tx = record s.tx.vpi_cmd_tx {
      buffer_in = blit s.tx.vpi_cmd_tx.buffer_in 0 (take s.scan.num_bytes s.scan.tdo_buf);
    };
    vpi_tx_bytes = 0;
    vpi_tx_pending = true;
  };
  fault = s.fault || ltb buffer_size s.scan.num_bytes;
}

abbrev pub is_idle : ScanState → Bool
is_idle idle = true
is_idle _ = false

abbrev pub is_processing : ScanState → Bool
is_processing processing = true
is_processing _ = false

unfoldable pub after_scan : World → World
after_scan w =
    if is_idle w.server.scan.state && not w.server.tx.vpi_tx_pending && w.server.connected
    then on_server queue_scan_response w
    else w

-- 4) "If legacy scan state machine is active, let it progress"
unfoldable pub scan_work : World → Flow
scan_work w =
    if is_idle w.server.scan.state
    then go w
    else if is_processing w.server.scan.state && w.server.signals.pending_tck_pulse
    then stop w
    else stop (after_scan (continue_scan w))

-- The receive buffers after a command.
unfoldable pub empty_minimal : Server → Server
unfolding zeros
empty_minimal s = record s {
  rx = record s.rx { minimal_rx_bytes = 0; minimal_cmd_rx = zeros minimal_size };
}

unfoldable pub empty_packet : Server → Server
unfolding zeros
empty_packet s = record s { rx = record s.rx { vpi_rx_bytes = 0; vpi_cmd_rx = zeros vpi_pkt_size } }

-- The whole command is there, or the rest is waited for.
abbrev pub when_minimal_full : World → Flow
when_minimal_full w = if ltb w.server.rx.minimal_rx_bytes minimal_size then stop w else go w

abbrev pub when_header_full : World → Flow
when_header_full w = if ltb w.server.rx.vpi_rx_bytes 8 then stop w else go w

abbrev pub when_packet_full : World → Flow
when_packet_full w = if ltb w.server.rx.vpi_rx_bytes vpi_pkt_size then stop w else go w

-- The 8-byte path of the last part.
unfoldable pub minimal_work : World → Flow
minimal_work w = do
  w₁ ←
      if ltb w.server.rx.minimal_rx_bytes minimal_size
      then fetch tolerant (minimal_size - w.server.rx.minimal_rx_bytes) store_minimal w
      else go w
  w₂ ← when_minimal_full w₁
  stop (on_server empty_minimal (process_vpi_packet w₂))

-- The first 8 bytes of the packet buffer are a command of the 8-byte protocol.
unfoldable pub switch_to_minimal : Server → Server
unfolding zeros
switch_to_minimal s = record s {
  vpi_minimal_mode = true;
  rx = record s.rx {
    minimal_cmd_rx = take minimal_size s.rx.vpi_cmd_rx;
    minimal_rx_bytes = minimal_size;
    vpi_rx_bytes = 0;
    vpi_cmd_rx = zeros vpi_pkt_size;
  };
}

abbrev pub no_more : Recv → Bool
no_more (received []) = true
no_more (recv_error e) = would_block e
no_more _ = false

abbrev pub peek_failed : Recv → Bool
peek_failed (recv_error e) = not (would_block e)
peek_failed _ = false

-- What follows from a look at the socket behind a header.
unfoldable pub peeked : Recv → World → Flow
peeked r w =
    if w.server.rx.vpi_rx_bytes == 8 && no_more r
    then stop (on_server empty_minimal (process_vpi_packet (on_server switch_to_minimal w)))
    else if peek_failed r
    then stop (close_connection w)
    else go (on_server (λ s. record s { vpi_minimal_mode = false }) w)

unfoldable pub detect_follow_on : World → Flow
detect_follow_on w =
    let (r, inbox) = peek 16 w.inbox in
    if leb 8 w.server.rx.vpi_rx_bytes && ltb w.server.rx.vpi_rx_bytes vpi_pkt_size
    then peeked r (record w { inbox = inbox })
    else go w

-- The path of full packets.
unfoldable pub packet_work : World → Flow
packet_work w = do
  w₁ ←
      if ltb w.server.rx.vpi_rx_bytes 8
      then fetch strict (vpi_pkt_size - w.server.rx.vpi_rx_bytes) store_packet w
      else go w
  w₂ ← when_header_full w₁
  w₃ ← detect_follow_on w₂
  w₄ ←
      if not w₃.server.vpi_minimal_mode && ltb w₃.server.rx.vpi_rx_bytes vpi_pkt_size
      then (fetch tolerant (vpi_pkt_size - w₃.server.rx.vpi_rx_bytes) store_packet w₃ >>= λ w.
          when_packet_full w)
      else go w₃
  stop (on_server empty_packet (process_vpi_packet w₄))

-- "If idle and not sending, try to receive next command packet"
unfoldable pub receive_work : World → Flow
receive_work w =
    if not w.server.tx.vpi_tx_pending && w.server.connected
    then if w.server.vpi_minimal_mode then minimal_work w else packet_work w
    else stop w

unfoldable pub continue_vpi_work : World → World
continue_vpi_work w = landed (
    flush_tx w >>= λ w₁. sf0_work w₁.server.sf0.state w₁ >>= λ w₂.
    tms_work w₂ >>= λ w₃. scan_work w₃ >>= λ w₄. receive_work w₄)
