-- ===== src/Server/Valid/Operations.antt =====
-- The operations of the server keep the invariant.
use jtag.Prelude.{
  ℕ, ◌+◌, ◌-◌, ◌<◌, ◌≤◌, ◌≡◌, refl, List, [], ◌∷◌, length, length-replicate, length-blit,
  length-take, arith, sub32, min,
}
use jtag.Wire.{Bytes, zeros, vpi_pkt_size, minimal_size}
use jtag.Socket.{
  Outcome, takes, fails, Event, arrived, failed, shut, Recv, received, recv_error, sent, send_error,
  recv, send, Errno,
}
use jtag.Server.State.{
  ScanState, idle, receiving_tms, receiving_tdi, processing, sending_tdo, Scan, Server, World,
  new_server, blank_packet,
}
use jtag.Server.Connection.{
  next_outcome, reset_connection, store_minimal, store_packet, store_command,
}
use jtag.Server.Scan.{
  capture, request_bit, finish_bits, process_bits, tms_arrived, tdi_arrived, tdo_sent,
  continue_scan, continue_scan_in, fresh_scan, process_scan,
}
use jtag.Server.Scan.Buffers.{length-write_bit}
use jtag.Server.Valid.{ScanIsValid, IsValid}

pub length-zeros : (n : ℕ) → length (zeros n) ≡ n
unfolding zeros
length-zeros n = length-replicate n 0

pub new_server-IsValid : IsValid new_server
unfolding new_server blank_packet
new_server-IsValid =
    ground (arith, length-zeros 4, length-zeros 512, length-zeros 8, length-zeros 1036)

pub reset_connection-IsValid : (s : Server) → IsValid s → IsValid (reset_connection s)
unfolding reset_connection
reset_connection-IsValid s v = ground arith

pub store_minimal-IsValid :
    (xs : Bytes) (s : Server)
    → s.rx.minimal_rx_bytes + length xs ≤ minimal_size
    → IsValid s
    → IsValid (store_minimal xs s)
unfolding store_minimal
store_minimal-IsValid xs s h v =
    ground (arith, length-blit s.rx.minimal_cmd_rx s.rx.minimal_rx_bytes xs)

pub store_packet-IsValid :
    (xs : Bytes) (s : Server)
    → s.rx.vpi_rx_bytes + length xs ≤ vpi_pkt_size
    → IsValid s
    → IsValid (store_packet xs s)
unfolding store_packet
store_packet-IsValid xs s h v = ground (arith, length-blit s.rx.vpi_cmd_rx s.rx.vpi_rx_bytes xs)

pub store_command-IsValid :
    (xs : Bytes) (s : Server)
    → s.rx.cmd_bytes_received + length xs ≤ minimal_size
    → IsValid s
    → IsValid (store_command xs s)
unfolding store_command
store_command-IsValid xs s h v = ground (arith, length-blit s.rx.cmd_buf s.rx.cmd_bytes_received xs)

pub capture-IsValid : (s : Server) → IsValid s → IsValid (capture s)
unfolding capture
capture-IsValid s v = ground (
  arith,
  length-write_bit s.msb_first s.signals.current_tdo (s.scan.bit_index - 1) s.scan.tdo_buf,
)

request_bit-IsValid :
    (s : Server) → s.scan.bit_index < s.scan.num_bits → IsValid s → IsValid (request_bit s)
unfolding request_bit
request_bit-IsValid s h v = ground arith

finish_bits-IsValid : (s : Server) → s.scan.state ≡ processing → IsValid s → IsValid (finish_bits s)
unfolding finish_bits
finish_bits-IsValid s h v = ground arith

state-capture : (s : Server) → (capture s).scan.state ≡ s.scan.state
unfolding capture
state-capture s = ground arith

pub process_bits-IsValid :
    (s : Server) → s.scan.state ≡ processing → IsValid s → IsValid (process_bits s)
unfolding process_bits
process_bits-IsValid s h v = ground (
  arith,
  capture-IsValid s v,
  capture-IsValid (capture s),
  state-capture s,
  state-capture (capture s),
  request_bit-IsValid (capture s),
  finish_bits-IsValid (capture (capture s)),
)

pub length-recv :
    (n : ℕ) (es : List Event) {xs : Bytes} → (recv n es).0 ≡ received xs → length xs ≤ n
unfolding recv
length-recv n [] h = cc
length-recv n (arrived x xs ∷ es) h = ground (arith, length-take n (x ∷ xs))
length-recv n (failed e ∷ es) h = cc
length-recv n (shut ∷ es) h = ground arith

-- What a `recv` for the rest of a buffer brings fits in.
abbrev pub Fits : ℕ → Recv → Type 0
Fits n r = (xs : Bytes) → r ≡ received xs → length xs ≤ n

tms_arrived-IsValid :
    (r : Recv) (w : World)
    → w.server.scan.state ≡ receiving_tms
    → Fits (w.server.scan.num_bytes - w.server.scan.bytes_received) r
    → IsValid w.server
    → IsValid (tms_arrived r w).server
unfolding tms_arrived
tms_arrived-IsValid (received []) w h f v = v
tms_arrived-IsValid (received (x ∷ xs)) w h f v = ground (
  arith,
  f (x ∷ xs) refl,
  length-blit w.server.scan.tms_buf w.server.scan.bytes_received (x ∷ xs),
)
tms_arrived-IsValid (recv_error e) w h f v = ground (arith, reset_connection-IsValid w.server v)

tdi_arrived-IsValid :
    (r : Recv) (w : World)
    → w.server.scan.state ≡ receiving_tdi
    → Fits (w.server.scan.num_bytes - w.server.scan.bytes_received) r
    → IsValid w.server
    → IsValid (tdi_arrived r w).server
unfolding tdi_arrived
tdi_arrived-IsValid (received []) w h f v = v
tdi_arrived-IsValid (received (x ∷ xs)) w h f v = ground (
  arith,
  f (x ∷ xs) refl,
  length-blit w.server.scan.tdi_buf w.server.scan.bytes_received (x ∷ xs),
)
tdi_arrived-IsValid (recv_error e) w h f v = ground (arith, reset_connection-IsValid w.server v)

tdo_sent-IsValid :
    (k : ℕ) (w : World)
    → w.server.scan.state ≡ sending_tdo
    → k ≤ w.server.scan.num_bytes - w.server.scan.bytes_sent
    → IsValid w.server
    → IsValid (tdo_sent (sent k) w).server
unfolding tdo_sent
tdo_sent-IsValid k w h f v = ground arith

tdo_failed-IsValid :
    (e : Errno) (w : World) → IsValid w.server → IsValid (tdo_sent (send_error e) w).server
unfolding tdo_sent
tdo_failed-IsValid Errno.eagain w v = v
tdo_failed-IsValid Errno.eintr w v = v
tdo_failed-IsValid e w v = reset_connection-IsValid w.server v

rest_exact :
    (c : Scan)
    → c.bytes_received < c.num_bytes
    → ScanIsValid c
    → sub32 c.num_bytes c.bytes_received ≡ c.num_bytes - c.bytes_received
rest_exact c h v = omega arith

Fits-recv :
    (c : Scan) (es : List Event)
    → c.bytes_received < c.num_bytes
    → ScanIsValid c
    → Fits (c.num_bytes - c.bytes_received) (recv (sub32 c.num_bytes c.bytes_received) es).0
Fits-recv c es h v xs e =
    omega (arith, length-recv (sub32 c.num_bytes c.bytes_received) es e, rest_exact c h v)

send_end :
    (n : ℕ) (o : Outcome) (w : World)
    → w.server.scan.state ≡ sending_tdo
    → n ≤ w.server.scan.num_bytes - w.server.scan.bytes_sent
    → IsValid w.server
    → IsValid (tdo_sent (send n o) w).server
unfolding send
send_end n (takes k) w h f v = tdo_sent-IsValid (min k n) w h (omega arith) v
send_end n (fails e) w h f v = tdo_failed-IsValid e w v

scan_in-IsValid :
    (st : ScanState) (w : World)
    → w.server.scan.state ≡ st
    → IsValid w.server
    → IsValid (continue_scan_in st w).server
unfolding continue_scan_in next_outcome
scan_in-IsValid idle w e v = v
scan_in-IsValid receiving_tms w e v =
    let c = w.server.scan in
    let r = recv (sub32 c.num_bytes c.bytes_received) w.inbox in
    tms_arrived-IsValid r.0 (record w { inbox = r.1 }) e
      (Fits-recv c w.inbox (v.scan_valid.tms_partial e) v.scan_valid) v
scan_in-IsValid receiving_tdi w e v =
    let c = w.server.scan in
    let r = recv (sub32 c.num_bytes c.bytes_received) w.inbox in
    tdi_arrived-IsValid r.0 (record w { inbox = r.1 }) e
      (Fits-recv c w.inbox (v.scan_valid.tdi_partial e) v.scan_valid) v
scan_in-IsValid processing w e v = process_bits-IsValid w.server e v
scan_in-IsValid sending_tdo w e v =
    let c = w.server.scan in
    let o = next_outcome w in
    let fits : c.bytes_sent < c.num_bytes = v.scan_valid.sent_partial e in
    send_end (sub32 c.num_bytes c.bytes_sent) o.0 o.1 e (exact v.scan_valid fits) v
  where
    exact :
        ScanIsValid w.server.scan
        → w.server.scan.bytes_sent < w.server.scan.num_bytes
        → sub32 w.server.scan.num_bytes w.server.scan.bytes_sent
          ≤ w.server.scan.num_bytes - w.server.scan.bytes_sent
    exact u h = omega arith

-- One step of the scan engine keeps the invariant, whatever the socket does: no array is left, no
-- subtraction wraps, and no byte beyond the scan is received or sent.
pub continue_scan-IsValid : (w : World) → IsValid w.server → IsValid (continue_scan w).server
unfolding continue_scan
continue_scan-IsValid w v = scan_in-IsValid w.server.scan.state w refl v

pub process_scan-IsValid : (n : ℕ) (s : Server) → IsValid s → IsValid (process_scan n s)
unfolding process_scan fresh_scan
process_scan-IsValid n s v = ground (arith, length-zeros 512)
