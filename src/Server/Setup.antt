-- ===== src/Server/Setup.antt =====
-- `init` and the destructor of sim/jtag_vpi_server.cpp. What `socket`, `bind` and `listen` return is
-- given; the settings of the socket are left out.
use jtag.Prelude.{ℕ, ◌+◌, ◌-◌, ◌≡◌, Bool, true, false, not, if◌then◌else◌, arith}
use jtag.Server.State.{World}
use jtag.Server.Connection.{close_connection}

-- Whether `server_sock` holds a socket, and how many sockets of this kind are open.
pub record Listener : Type 0 where
  pub server_sock : Bool
  pub open_socks : ℕ

-- Whether the calls succeed.
pub record Calls : Type 0 where
  pub socket_made : Bool
  pub bound : Bool
  pub listens : Bool

unfoldable pub close_listener : Listener → Listener
close_listener l = record l { server_sock = false; open_socks = l.open_socks - 1 }

unfoldable pub init : Calls → Listener → Bool × Listener
unfolding close_listener
init c l =
    let opened : Listener = record l { server_sock = true; open_socks = l.open_socks + 1 } in
    if not c.socket_made
    then (false, record l { server_sock = false })
    else if not c.bound
    then (false, close_listener opened)
    else if not c.listens
    then (false, close_listener opened)
    else (true, opened)

-- The destructor.
unfoldable pub destroy : World → Listener → World × Listener
unfolding close_listener
destroy w l = (close_connection w, if l.server_sock then close_listener l else l)

-- `init` keeps a socket open exactly when it succeeds, and destroying the server then leaves as many
-- open as there were before.
pub init-destroy :
    (c : Calls) (w : World) (l : Listener)
    → ((init c l).0 ≡ (init c l).1.server_sock)
      × ((destroy w (init c l).1).1.open_socks ≡ l.open_socks)
unfolding init destroy
init-destroy c w l = ground arith
