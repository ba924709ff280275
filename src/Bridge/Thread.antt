-- ===== src/Bridge/Thread.antt =====
-- `jtag_vpi_init` and `server_thread_func` of vpi/jtag_vpi.c. What the calls of the operating system
-- return is given: for each pass of the inner loop what `recv` of four bytes returns and whether
-- `send` succeeds, for each pass of the outer whether `accept` does.
pub mod Answers
use jtag.Prelude.{
  ℕ, zero, suc, ◌+◌, ◌-◌, ◌≡◌, refl, Bool, true, false, not, ◌&&◌, List, [], ◌∷◌, ◌++◌, Option,
  some, none, blit, take, if◌then◌else◌,
}
use jtag.Wire.{Bytes}
use jtag.Socket.{Recv, received, recv_error}
use jtag.Bridge.{Simulator, Bridge, Signal, tck, tdo, Resp, resp_image, process_vpi_command}

-- Whether the thread is started: only two of the handles are looked at.
unfoldable pub jtag_vpi_init : Bool → (Signal → Bool) → Bool
jtag_vpi_init found_module found = found_module && (found tck && found tdo)

-- Whether the thread gets to its loop; `listen` is not looked at.
unfoldable pub listening : Bool → Bool → Bool
listening socket_made bound = socket_made && bound

-- A pass of the inner loop.
pub record Round : Type 0 where
  pub recv_result : Recv
  pub send_ok : Bool

module _ (v : Simulator) where
  -- `cmd` keeps its bytes from one `recv` to the next. `open_socks` counts the connections that
  -- were accepted and not closed.
  pub record Thread : Type 0 where
    pub bridge : Bridge v
    pub cmd : Bytes
    pub wire : List Bytes
    pub open_socks : ℕ

  -- A `recv` that brings bytes: however many, the command is carried out.
  unfoldable pub answer_command : Bytes → Bool → Thread → Bool × Thread
  unfolding process_vpi_command resp_image
  answer_command xs send_ok s =
      let cmd = blit s.cmd 0 (take 4 xs) in
      let b = process_vpi_command v cmd s.bridge in
      (
        send_ok,
        record s {
          bridge = b;
          cmd = cmd;
          wire = if send_ok then s.wire ++ resp_image b.resp ∷ [] else s.wire;
        },
      )

  -- Whether the inner loop goes on. `recv` at 0 or less closes the socket; a failing `send` only
  -- leaves the loop.
  unfoldable pub one_round : Recv → Bool → Thread → Bool × Thread
  unfolding answer_command
  one_round (received []) send_ok s = (false, record s { open_socks = s.open_socks - 1 })
  one_round (recv_error e) send_ok s = (false, record s { open_socks = s.open_socks - 1 })
  one_round (received (x ∷ xs)) send_ok s = answer_command (x ∷ xs) send_ok s

  unfoldable pub serve_client : List Round → Thread → Thread
  unfolding one_round
  serve_client [] s = s
  serve_client (r ∷ rs) s =
      let (on, s') = one_round r.recv_result r.send_ok s in
      elim on [ true ↦ serve_client rs s' | false ↦ s' ]

  -- The outer loop: `none` is an `accept` that fails.
  unfoldable pub accept_clients : List (Option (List Round)) → Thread → Thread
  unfolding serve_client
  accept_clients [] s = s
  accept_clients (none ∷ cs) s = accept_clients cs s
  accept_clients (some rs ∷ cs) s =
      accept_clients cs (serve_client rs (record s { open_socks = s.open_socks + 1 }))
