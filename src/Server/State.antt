-- ===== src/Server/State.antt =====
-- The members of `JtagVpiServer` (sim/jtag_vpi_server.h), grouped by the part that they serve, and
-- the constructor. `fault` is no member: it is set where the code would touch memory outside an
-- array, which C++ leaves undefined.
use jtag.Prelude.{ℕ, ◌+◌, Bool, true, false, List, Option, ltb}
use jtag.Wire.{Bytes, OcdVpiCmd, zeros, buffer_size, vpi_pkt_size, minimal_size}
use jtag.Socket.{Event, Outcome}

pub data ProtocolMode : Type 0 where
  unknown openocd_vpi legacy_8byte : ProtocolMode

pub data ScanState : Type 0 where
  idle receiving_tms receiving_tdi processing sending_tdo : ScanState

pub data Sf0State : Type 0 where
  resting send_tms send_tdi capture_tdo : Sf0State

-- What the simulation reads and writes: the values seen on the device, and what is pending for it.
pub record Signals : Type 0 where
  pub current_tdo : ℕ
  pub current_tdo_en : ℕ
  pub current_idcode : ℕ
  pub current_mode : ℕ
  pub pending_tms : ℕ
  pub pending_tdi : ℕ
  pub pending_mode_select : ℕ
  pub pending_tck_pulse : Bool
  pub reset_pulses_remaining : ℕ
  pub pending_tckc_toggle : Bool
  pub tckc_toggle_consumed : Bool

pub record Scan : Type 0 where
  pub state : ScanState
  pub is_legacy : Bool
  pub num_bits : ℕ
  pub num_bytes : ℕ
  pub bit_index : ℕ
  pub tms_buf : Bytes
  pub tdi_buf : Bytes
  pub tdo_buf : Bytes
  pub bytes_received : ℕ
  pub bytes_sent : ℕ

pub record TmsSeq : Type 0 where
  pub active : Bool
  pub num_bits : ℕ
  pub bit_index : ℕ
  pub buf : Bytes

pub record Sf0 : Type 0 where
  pub state : Sf0State
  pub tms : ℕ
  pub tdi : ℕ
  pub tdo : ℕ

-- The receive buffers as their bytes in memory, each with its fill count.
pub record Rx : Type 0 where
  pub cmd_buf : Bytes
  pub cmd_bytes_received : ℕ
  pub vpi_cmd_rx : Bytes
  pub vpi_rx_bytes : ℕ
  pub minimal_cmd_rx : Bytes
  pub minimal_rx_bytes : ℕ

pub record Tx : Type 0 where
  pub vpi_cmd_tx : OcdVpiCmd
  pub vpi_tx_bytes : ℕ
  pub vpi_tx_pending : Bool

-- `connected` is `client_sock >= 0`.
pub record Server : Type 0 where
  pub protocol_mode : ProtocolMode
  pub connected : Bool
  pub msb_first : Bool
  pub vpi_minimal_mode : Bool
  pub signals : Signals
  pub scan : Scan
  pub tms_seq : TmsSeq
  pub sf0 : Sf0
  pub rx : Rx
  pub tx : Tx
  pub fault : Bool

-- The server among its sockets: what will happen to the connection (`inbox`), the connections to
-- come (`none` is an `accept` that fails), what the next calls of `send` will do, and the bytes
-- handed over on this connection.
pub record World : Type 0 where
  pub server : Server
  pub inbox : List Event
  pub accepts : List (Option (List Event))
  pub sends : List Outcome
  pub wire : Bytes

abbrev pub on_server : (Server → Server) → World → World
on_server f w = record w { server = f w.server }

-- Whether an access of `n` bytes from `i` leaves an array of `size` bytes.
abbrev pub outside : ℕ → ℕ → ℕ → Bool
outside size i n = ltb size (i + n)

unfoldable pub blank_packet : OcdVpiCmd
unfolding zeros
blank_packet = record {
  cmd_buf = zeros 4;
  buffer_out = zeros buffer_size;
  buffer_in = zeros buffer_size;
  length_buf = zeros 4;
  nb_bits_buf = zeros 4;
}

-- The constructor. The arrays and SF0 bits that it leaves unset are 0 here, and are written
-- before they are read; `idcode` is that of `update_signals`.
unfoldable pub new_server : Server
unfolding blank_packet zeros
new_server = record {
  protocol_mode = unknown;
  connected = false;
  msb_first = false;
  vpi_minimal_mode = false;
  signals = record {
    current_tdo = 0;
    current_tdo_en = 0;
    current_idcode = 0;
    current_mode = 0;
    pending_tms = 0;
    pending_tdi = 0;
    pending_mode_select = 0;
    pending_tck_pulse = false;
    reset_pulses_remaining = 0;
    pending_tckc_toggle = false;
    tckc_toggle_consumed = false;
  };
  scan = record {
    state = idle;
    is_legacy = true;
    num_bits = 0;
    num_bytes = 0;
    bit_index = 0;
    tms_buf = zeros buffer_size;
    tdi_buf = zeros buffer_size;
    tdo_buf = zeros buffer_size;
    bytes_received = 0;
    bytes_sent = 0;
  };
  tms_seq = record { active = false; num_bits = 0; bit_index = 0; buf = zeros buffer_size };
  sf0 = record { state = resting; tms = 0; tdi = 0; tdo = 0 };
  rx = record {
    cmd_buf = zeros minimal_size;
    cmd_bytes_received = 0;
    vpi_cmd_rx = zeros vpi_pkt_size;
    vpi_rx_bytes = 0;
    minimal_cmd_rx = zeros minimal_size;
    minimal_rx_bytes = 0;
  };
  tx = record { vpi_cmd_tx = blank_packet; vpi_tx_bytes = 0; vpi_tx_pending = false };
  fault = false;
}
