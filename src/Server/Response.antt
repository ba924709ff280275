-- ===== src/Server/Response.antt =====
-- `send_minimal_response` of sim/jtag_vpi_server.cpp. Delays (`usleep`) are left out.
pub mod OnTheWire
use jtag.Prelude.{
  ℕ, ◌+◌, true, false, ◌&&◌, List, [], ◌∷◌, ◌++◌, length, take, drop, ltb, leb, if◌then◌else◌,
}
use jtag.Wire.{Bytes, response_bytes}
use jtag.Socket.{Errno, Outcome, Sent, sent, send_error, send}
use jtag.Server.State.{World, on_server}
use jtag.Server.Connection.{close_connection}

abbrev pub max_retries : ℕ
max_retries = 1000

pub data Delivery : Type 0 where
  delivered incomplete lost : Delivery

-- How a sending loop ends: the outcomes that it left, the bytes handed over, and how it went.
pub record Sending : Type 0 where
  pub outcomes : List Outcome
  pub wire : Bytes
  pub end : Delivery

abbrev pub judge : Bytes → Delivery
judge [] = delivered
judge (x ∷ xs) = incomplete

-- What one pass of the loop does after its `send`.
pub data Turn : Type 0 where
  again : ℕ → ℕ → Turn
  give_up : Turn
  close : Turn

-- The number of bytes sent and the retries so far, or why the loop ends.
unfoldable pub turn : ℕ → Sent → Turn
turn retries (sent k) = again k retries
turn retries (send_error Errno.eagain) =
    if leb max_retries (retries + 1) then give_up else again 0 (retries + 1)
turn retries (send_error Errno.eintr) = again 0 (retries + 1)
turn retries (send_error _) = close

-- `left` is the response from `sent_total` on. Each pass uses up one outcome; where the script
-- has run out, every further `send` says EAGAIN and the loop gives up after its retries.
unfoldable pub send_loop : List Outcome → ℕ → Bytes → Bytes → Sending
unfolding turn send
send_loop [] retries left wire = record { outcomes = []; wire = wire; end = judge left }
send_loop (o ∷ os) retries left wire = elim (ltb 0 (length left) && ltb retries max_retries) [
  | false ↦ record { outcomes = o ∷ os; wire = wire; end = judge left }
  | true ↦ elim (turn retries (send (length left) o)) [
    | again k r ↦ send_loop os r (drop k left) (wire ++ take k left)
    | give_up ↦ record { outcomes = os; wire = wire; end = incomplete }
    | close ↦ record { outcomes = os; wire = wire; end = lost }
  ]
]

-- An incomplete response leaves the connection open.
unfoldable pub conclude : Delivery → World → World
unfolding close_connection
conclude delivered w = on_server (λ s. record s { vpi_minimal_mode = true }) w
conclude incomplete w = w
conclude lost w = close_connection w

unfoldable pub send_minimal_response : ℕ → ℕ → ℕ → ℕ → World → World
unfolding send_loop conclude response_bytes
send_minimal_response response tdo_val mode status w =
    let r = send_loop w.sends 0 (response_bytes response tdo_val mode status) w.wire in
    conclude r.end (record w { sends = r.outcomes; wire = r.wire })
