-- ===== src/Server/Valid.antt =====
-- The invariant of `JtagVpiServer`: every array has its size, every index and count stays within
-- its array, and no access has left one. Its children show which operations keep it.
pub mod Operations
pub mod Commands
pub mod Flows
pub mod Polls
use jtag.Prelude.{ℕ, ◌+◌, ◌/◌, ◌<◌, ◌≤◌, ◌≡◌, ◌≢◌, Bool, true, false, length}
use jtag.Wire.{buffer_size, vpi_pkt_size, minimal_size}
use jtag.Wire.Layout.{IsSized}
use jtag.Server.State.{
  ScanState, idle, receiving_tms, receiving_tdi, processing, sending_tdo, Scan, TmsSeq, Rx, Tx,
  Server,
}

pub record ScanIsValid (c : Scan) : Type 0 where
  pub tms_size : length c.tms_buf ≡ buffer_size
  pub tdi_size : length c.tdi_buf ≡ buffer_size
  pub tdo_size : length c.tdo_buf ≡ buffer_size
  pub bits_fit : c.num_bits ≤ 4096
  pub bytes_hold : c.num_bytes ≡ (c.num_bits + 7) / 8
  pub index_in : c.bit_index ≤ c.num_bits
  pub tms_partial : c.state ≡ receiving_tms → c.bytes_received < c.num_bytes
  pub tdi_partial : c.state ≡ receiving_tdi → c.bytes_received < c.num_bytes
  pub legacy_bits : c.state ≡ processing → c.is_legacy ≡ true → 0 < c.num_bits
  pub sent_partial : c.state ≡ sending_tdo → c.bytes_sent < c.num_bytes

pub record TmsIsValid (t : TmsSeq) : Type 0 where
  pub size : length t.buf ≡ buffer_size
  pub bits_fit : t.num_bits ≤ 4096

pub record RxIsValid (r : Rx) : Type 0 where
  pub cmd_size : length r.cmd_buf ≡ minimal_size
  pub cmd_count : r.cmd_bytes_received ≤ minimal_size
  pub packet_size : length r.vpi_cmd_rx ≡ vpi_pkt_size
  pub packet_count : r.vpi_rx_bytes ≤ vpi_pkt_size
  pub minimal_buf_size : length r.minimal_cmd_rx ≡ minimal_size
  pub minimal_count : r.minimal_rx_bytes ≤ minimal_size

pub record TxIsValid (t : Tx) : Type 0 where
  pub sized : IsSized t.vpi_cmd_tx
  pub count : t.vpi_tx_bytes < vpi_pkt_size

pub record IsValid (s : Server) : Type 0 where
  pub scan_valid : ScanIsValid s.scan
  pub tms_valid : TmsIsValid s.tms_seq
  pub rx_valid : RxIsValid s.rx
  pub tx_valid : TxIsValid s.tx
  pub safe : s.fault ≡ false
