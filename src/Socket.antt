-- ===== src/Socket.antt =====
-- The socket calls of sim/jtag_vpi_server.cpp. The kernel is not part of the program: what each
-- call returns comes from a script of events, and nothing is assumed of the script. POSIX says of
-- `recv` that it returns at most as many bytes as were asked for, 0 once the peer has shut the
-- connection, and -1 with an error number; `MSG_PEEK` leaves the bytes in place. `send` returns
-- how many bytes it took, at most those that it was given. A script that has run out stands for
-- EAGAIN.
use jtag.Prelude.{ℕ, List, [], ◌∷◌, Bool, true, false, take, drop, min}
use jtag.Wire.{Bytes}

-- EAGAIN and EWOULDBLOCK are one number on Linux.
pub data Errno : Type 0 where
  eagain epipe econnreset enotconn eintr etimedout other : Errno

abbrev pub would_block : Errno → Bool
would_block Errno.eagain = true
would_block _ = false

-- What happens on the receiving side: at least one byte arrives, a call fails, the peer shuts
-- the connection.
pub data Event : Type 0 where
  arrived : ℕ → Bytes → Event
  failed : Errno → Event
  shut : Event

-- What `recv` returns; `received []` is the return value 0.
pub data Recv : Type 0 where
  received : Bytes → Recv
  recv_error : Errno → Recv

abbrev requeue : Bytes → List Event → List Event
requeue [] es = es
requeue (y ∷ ys) es = arrived y ys ∷ es

-- `recv (sock, p, n, MSG_DONTWAIT)`
unfoldable pub recv : ℕ → List Event → Recv × List Event
recv n [] = (recv_error Errno.eagain, [])
recv n (arrived x xs ∷ es) = (received (take n (x ∷ xs)), requeue (drop n (x ∷ xs)) es)
recv n (failed e ∷ es) = (recv_error e, es)
recv n (shut ∷ es) = (received [], shut ∷ es)

-- the same with `MSG_PEEK`
unfoldable pub peek : ℕ → List Event → Recv × List Event
peek n [] = (recv_error Errno.eagain, [])
peek n (arrived x xs ∷ es) = (received (take n (x ∷ xs)), arrived x xs ∷ es)
peek n (failed e ∷ es) = (recv_error e, es)
peek n (shut ∷ es) = (received [], shut ∷ es)

-- What the next call of `send` does: it takes up to so many bytes, or fails.
pub data Outcome : Type 0 where
  takes : ℕ → Outcome
  fails : Errno → Outcome

pub data Sent : Type 0 where
  sent : ℕ → Sent
  send_error : Errno → Sent

-- `send (sock, p, n, MSG_DONTWAIT)` at an outcome
unfoldable pub send : ℕ → Outcome → Sent
send n (takes k) = sent (min k n)
send n (fails e) = send_error e
