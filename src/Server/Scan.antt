-- ===== src/Server/Scan.antt =====
-- The scan engine of sim/jtag_vpi_server.cpp: `process_scan` and `continue_scan`.
pub mod Buffers
pub mod Engine
use jtag.Prelude.{
  ℕ, ◌+◌, ◌-◌, ◌/◌, ◌%◌, Bool, true, ◌||◌, ◌++◌, [], ◌∷◌, length, get_or, set, take, drop, blit,
  u32, sub32, bit_at, raise_bit, lower_bit, ltb, leb, ◌==◌, if◌then◌else◌,
}
use jtag.Wire.{Bytes, zeros, buffer_size}
use jtag.Socket.{Errno, would_block, Recv, received, recv_error, recv, Sent, sent, send_error, send}
use jtag.Server.State.{
  ScanState, idle, receiving_tms, receiving_tdi, processing, sending_tdo, Scan, Server, World,
  on_server, outside,
}
use jtag.Server.Signals.{request_pulse}
use jtag.Server.Connection.{close_connection, next_outcome}

-- the number of bytes that hold `n` bits; the sum is a `uint32_t`
abbrev pub bytes_of_bits : ℕ → ℕ
bytes_of_bits n = u32 (n + 7) / 8

-- `scan_*` set for a new scan whose buffers come over the socket, TMS first
unfoldable pub fresh_scan : ℕ → Scan → Scan
unfolding zeros
fresh_scan num_bits c = record c {
  num_bits = num_bits;
  num_bytes = bytes_of_bits num_bits;
  bit_index = 0;
  bytes_received = 0;
  bytes_sent = 0;
  tms_buf = zeros buffer_size;
  tdi_buf = zeros buffer_size;
  tdo_buf = zeros buffer_size;
  state = receiving_tms;
}

unfoldable pub process_scan : ℕ → Server → Server
unfolding fresh_scan
process_scan num_bits s =
    if num_bits == 0 || ltb 4096 num_bits
    then s
    else record s { scan = record (fresh_scan num_bits s.scan) { is_legacy = true } }

-- the place of bit `i` in its byte
unfoldable pub bit_pos : Bool → ℕ → ℕ
bit_pos msb_first i = if msb_first then 7 - i % 8 else i % 8

-- `(buf[i / 8] >> bit_pos) & 1`
unfoldable pub read_bit : Bool → Bytes → ℕ → ℕ
unfolding bit_pos bit_at
read_bit msb_first buf i = bit_at (get_or buf (i / 8) 0) (bit_pos msb_first i)

-- The write of a captured TDO value at bit `i`.
unfoldable pub write_bit : Bool → ℕ → ℕ → Bytes → Bytes
unfolding bit_pos raise_bit lower_bit
write_bit msb_first tdo i buf =
    let byte = get_or buf (i / 8) 0 in
    set buf (i / 8) (
      if tdo == 0
      then lower_bit byte (bit_pos msb_first i)
      else raise_bit byte (bit_pos msb_first i))

-- "capture TDO from last bit"; nothing at index 0
unfoldable pub capture : Server → Server
unfolding write_bit
capture s = if s.scan.bit_index == 0 then s else record s {
  scan = record s.scan {
    tdo_buf = write_bit s.msb_first s.signals.current_tdo (s.scan.bit_index - 1) s.scan.tdo_buf;
  };
  fault = s.fault || leb buffer_size ((s.scan.bit_index - 1) / 8);
}

-- The body of the `while` loop, which returns after one round.
unfoldable pub request_bit : Server → Server
unfolding read_bit request_pulse
request_bit s = record s {
  signals =
      request_pulse (read_bit s.msb_first tms_buf bit_index)
        (read_bit s.msb_first tdi_buf bit_index) s.signals;
  scan = record s.scan { bit_index = u32 (bit_index + 1) };
  fault = s.fault || leb buffer_size (bit_index / 8);
}
  where
    open s.scan use {tms_buf, tdi_buf, bit_index}

-- "All bits processed"
unfoldable pub finish_bits : Server → Server
finish_bits s = record s {
  scan =
      if s.scan.is_legacy
      then record s.scan { bytes_sent = 0; state = sending_tdo }
      else record s.scan { state = idle };
}

unfoldable pub process_bits : Server → Server
process_bits s =
    if s.signals.pending_tck_pulse
    then s
    else let c = capture s in
      if ltb c.scan.bit_index c.scan.num_bits then request_bit c else finish_bits (capture c)

-- What a `recv` into the TMS buffer returned.
unfoldable pub tms_arrived : Recv → World → World
unfolding close_connection
tms_arrived (received []) w = w
tms_arrived (received (x ∷ xs)) w =
    let c = w.server.scan in
    let n = length (x ∷ xs) in
    let total = u32 (c.bytes_received + n) in
    let filled : Scan = record c { tms_buf = blit c.tms_buf c.bytes_received (x ∷ xs) } in
    on_server
      (λ s. record s {
        scan =
            if leb c.num_bytes total
            then record filled { bytes_received = 0; state = receiving_tdi }
            else record filled { bytes_received = total };
        fault = s.fault || outside buffer_size c.bytes_received n;
      })
      w
tms_arrived (recv_error e) w = if would_block e then w else close_connection w

unfoldable pub tdi_arrived : Recv → World → World
unfolding close_connection
tdi_arrived (received []) w = w
tdi_arrived (received (x ∷ xs)) w =
    let c = w.server.scan in
    let n = length (x ∷ xs) in
    let total = u32 (c.bytes_received + n) in
    let filled : Scan = record c {
      tdi_buf = blit c.tdi_buf c.bytes_received (x ∷ xs);
      bytes_received = total;
    } in
    on_server
      (λ s. record s {
        scan =
            if leb c.num_bytes total
            then record filled { bit_index = 0; state = processing }
            else filled;
        fault = s.fault || outside buffer_size c.bytes_received n;
      })
      w
tdi_arrived (recv_error e) w = if would_block e then w else close_connection w

-- What a `send` of the TDO bytes returned; EINTR is tried again later.
unfoldable pub tdo_sent : Sent → World → World
unfolding close_connection
tdo_sent (sent k) w =
    let c = w.server.scan in
    let total = u32 (c.bytes_sent + k) in
    if k == 0 then w else record w {
      server = record w.server {
        scan = record c {
          bytes_sent = total;
          state = if leb c.num_bytes total then idle else sending_tdo;
        };
        fault = w.server.fault || outside buffer_size c.bytes_sent k;
      };
      wire = w.wire ++ take k (drop c.bytes_sent c.tdo_buf);
    }
tdo_sent (send_error Errno.eagain) w = w
tdo_sent (send_error Errno.eintr) w = w
tdo_sent (send_error _) w = close_connection w

-- the `switch` of `continue_scan`
unfoldable pub continue_scan_in : ScanState → World → World
continue_scan_in idle w = w
continue_scan_in receiving_tms w =
    let (r, inbox) = recv (sub32 w.server.scan.num_bytes w.server.scan.bytes_received) w.inbox in
    tms_arrived r (record w { inbox = inbox })
continue_scan_in receiving_tdi w =
    let (r, inbox) = recv (sub32 w.server.scan.num_bytes w.server.scan.bytes_received) w.inbox in
    tdi_arrived r (record w { inbox = inbox })
continue_scan_in processing w = on_server process_bits w
continue_scan_in sending_tdo w =
    let (o, w') = next_outcome w in
    tdo_sent (send (sub32 w.server.scan.num_bytes w.server.scan.bytes_sent) o) w'

unfoldable pub continue_scan : World → World
unfolding continue_scan_in
continue_scan w = continue_scan_in w.server.scan.state w
