-- ===== src/Bridge/Thread/Answers.antt =====
-- The inner loop of `server_thread_func`, for a client that sends whole commands.
use jtag.Prelude.{
  ℕ, ◌≡◌, refl, sym, ◌∙◌, true, List, [], ◌∷◌, ◌++◌, append-nil, append_assoc, map, length,
  blit_whole,
}
use jtag.Wire.{Bytes}
use jtag.Socket.{received}
use jtag.Bridge.{Simulator, Bridge, resp_image, process_vpi_command}
use jtag.Bridge.Thread.{Round, Thread, one_round, answer_command, serve_client}

-- `jtag_cmd_t`
pub record Command : Type 0 where
  pub cmd : ℕ
  pub tms_val : ℕ
  pub tdi_val : ℕ
  pub pad : ℕ

abbrev pub command_bytes : Command → Bytes
command_bytes c = c.cmd ∷ c.tms_val ∷ c.tdi_val ∷ c.pad ∷ []

-- A command that arrives in one piece, and whose answer goes out.
abbrev pub whole : Command → Round
whole c = record { recv_result = received (command_bytes c); send_ok = true }

module _ (v : Simulator) where
  -- The answers to commands in a row, and the server after them.
  unfoldable pub answers : List Command → Bridge v → List Bytes × Bridge v
  unfolding process_vpi_command resp_image
  answers [] b = ([], b)
  answers (c ∷ cs) b =
      let b' = process_vpi_command v (command_bytes c) b in
      let (rs, last) = answers cs b' in (resp_image b'.resp ∷ rs, last)

  record Served (cs : List Command) (s s' : Thread v) : Type 0 where
    pub wire : s'.wire ≡ s.wire ++ (answers cs s.bridge).0
    pub bridge : s'.bridge ≡ (answers cs s.bridge).1
    pub open_socks : s'.open_socks ≡ s.open_socks

  serve_client-Served :
      (cs : List Command) (s : Thread v)
      → length s.cmd ≡ 4
      → Served cs s (serve_client v (map whole cs) s)
  unfolding serve_client one_round answer_command answers
  serve_client-Served [] s h = record {
    wire = sym (append-nil s.wire);
    bridge = refl;
    open_socks = refl;
  }
  serve_client-Served (c ∷ cs) s h =
      let b = process_vpi_command v (command_bytes c) s.bridge in
      let s' : Thread v = record s {
        bridge = b;
        cmd = command_bytes c;
        wire = s.wire ++ resp_image b.resp ∷ [];
      } in
      let rest = serve_client-Served cs s' refl in
      rw (blit_whole s.cmd (command_bytes c) (sym h)) (record {
        wire = rest.wire ∙ append_assoc s.wire (resp_image b.resp ∷ []) (answers cs b).0;
        bridge = rest.bridge;
        open_socks = rest.open_socks;
      })

  -- While a client's commands arrive whole and its answers go out, the thread answers each of them
  -- in order, as `process_vpi_command` does one after the other, sends nothing else, and keeps the
  -- connection.
  pub serve_client-answers :
      (cs : List Command) (s : Thread v)
      → length s.cmd ≡ 4
      → let s' = serve_client v (map whole cs) s in
        (s'.wire ≡ s.wire ++ (answers cs s.bridge).0)
        × (s'.bridge ≡ (answers cs s.bridge).1)
        × (s'.open_socks ≡ s.open_socks)
  serve_client-answers cs s h =
      let r = serve_client-Served cs s h in (r.wire, r.bridge, r.open_socks)
