-- ===== src/Server/Connection.antt =====
-- `close_connection` of sim/jtag_vpi_server.cpp, the early returns of its handlers, and the reads
-- that fill a receive buffer.
pub mod Reassembly
use jtag.Prelude.{
  ℕ, ◌+◌, Bool, true, false, not, ◌||◌, List, [], ◌∷◌, length, blit, u32, if◌then◌else◌,
}
use jtag.Wire.{Bytes, vpi_pkt_size, minimal_size}
use jtag.Socket.{Errno, would_block, Recv, received, recv_error, recv, Outcome, fails}
use jtag.Server.State.{ProtocolMode, ScanState, Server, World, on_server, outside}

-- What `close_connection` does to the members.
unfoldable pub reset_connection : Server → Server
reset_connection s = record s {
  connected = false;
  protocol_mode = ProtocolMode.unknown;
  vpi_minimal_mode = false;
  rx = record s.rx { vpi_rx_bytes = 0 };
  tx = record s.tx { vpi_tx_pending = false };
  scan = record s.scan { state = ScanState.idle };
  tms_seq = record s.tms_seq { active = false };
}

-- The closed socket takes what it still held with it.
unfoldable pub close_connection : World → World
unfolding reset_connection
close_connection w = record w { server = reset_connection w.server; inbox = [] }

-- A handler that may return early: `stop` is `return`.
pub data Flow : Type 0 where
  stop : World → Flow
  go : World → Flow

infixl 5 ◌>>=◌
abbrev pub ◌>>=◌ : Flow → (World → Flow) → Flow
stop w >>= k = stop w
go w >>= k = k w

-- Either way the caller goes on with the world.
abbrev pub landed : Flow → World
landed (stop w) = w
landed (go w) = w

-- The errors on which a read closes the connection: in most places all but EAGAIN, in
-- `continue_vpi_work` also not EINTR and ETIMEDOUT.
abbrev pub strict : Errno → Bool
strict e = not (would_block e)

abbrev pub tolerant : Errno → Bool
tolerant Errno.eagain = false
tolerant Errno.eintr = false
tolerant Errno.etimedout = false
tolerant _ = true

unfoldable pub fetched : (Errno → Bool) → (Bytes → Server → Server) → Recv → World → Flow
unfolding close_connection
fetched fatal store (received []) w = stop (close_connection w)
fetched fatal store (received (x ∷ xs)) w = go (on_server (store (x ∷ xs)) w)
fetched fatal store (recv_error e) w = stop (if fatal e then close_connection w else w)

-- One `recv` of at most `n` bytes into a buffer, with the returns behind it.
unfoldable pub fetch : (Errno → Bool) → ℕ → (Bytes → Server → Server) → World → Flow
unfolding fetched recv
fetch fatal n store w =
    let (r, inbox) = recv n w.inbox in fetched fatal store r (record w { inbox = inbox })

-- The bytes go behind those that are there, and the count goes up.
unfoldable pub store_minimal : Bytes → Server → Server
store_minimal xs s = record s {
  rx = record s.rx {
    minimal_cmd_rx = blit s.rx.minimal_cmd_rx s.rx.minimal_rx_bytes xs;
    minimal_rx_bytes = u32 (s.rx.minimal_rx_bytes + length xs);
  };
  fault = s.fault || outside minimal_size s.rx.minimal_rx_bytes (length xs);
}

unfoldable pub store_packet : Bytes → Server → Server
store_packet xs s = record s {
  rx = record s.rx {
    vpi_cmd_rx = blit s.rx.vpi_cmd_rx s.rx.vpi_rx_bytes xs;
    vpi_rx_bytes = u32 (s.rx.vpi_rx_bytes + length xs);
  };
  fault = s.fault || outside vpi_pkt_size s.rx.vpi_rx_bytes (length xs);
}

unfoldable pub store_command : Bytes → Server → Server
store_command xs s = record s {
  rx = record s.rx {
    cmd_buf = blit s.rx.cmd_buf s.rx.cmd_bytes_received xs;
    cmd_bytes_received = u32 (s.rx.cmd_bytes_received + length xs);
  };
  fault = s.fault || outside minimal_size s.rx.cmd_bytes_received (length xs);
}

abbrev first_outcome : List Outcome → Outcome
first_outcome [] = fails Errno.eagain
first_outcome (o ∷ os) = o

abbrev later_outcomes : List Outcome → List Outcome
later_outcomes [] = []
later_outcomes (o ∷ os) = os

-- The outcome of the next `send`; a script that has run out says EAGAIN.
unfoldable pub next_outcome : World → Outcome × World
next_outcome w = (first_outcome w.sends, record w { sends = later_outcomes w.sends })
