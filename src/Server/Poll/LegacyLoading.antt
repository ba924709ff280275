-- ===== src/Server/Poll/LegacyLoading.antt =====
-- The polls that take in a command of the legacy mode, and the buffers of its scan.
use jtag.Prelude.{
  ℕ, ◌+◌, ◌-◌, ◌<◌, ◌≤◌, ◌≡◌, ap, ◌∙◌, true, false, List, [], ◌∷◌, ◌++◌, length, arith, drop,
  take_all, min, get_or, blit, blit_whole,
}
use jtag.Wire.{Bytes, be32_to_host, minimal_size, response_bytes}
use jtag.Socket.{Event, arrived, Recv, Outcome, takes, send}
use jtag.Server.State.{ScanState, legacy_8byte, World, on_server}
use jtag.Server.Connection.{go, strict, fetch, fetched, store_command, next_outcome}
use jtag.Server.Packet.{start_reset}
use jtag.Server.Legacy.{process_command, reply_to, send_response, response_sent}
use jtag.Server.Scan.{fresh_scan, process_scan}
use jtag.Server.Poll.{poll, poll_idle, serve, legacy_work}
use jtag.Server.Poll.Parts.{with_inbox, recv-part}
use jtag.Server.Poll.Between.{arrives}
use jtag.Server.Poll.Loading.{Quiet}

-- A connection of the legacy mode between two commands.
pub record Listening (w : World) : Type 0 where
  pub connected : w.server.connected ≡ true
  pub protocol : w.server.protocol_mode ≡ legacy_8byte
  pub no_scan : w.server.scan.state ≡ ScanState.idle
  pub no_bytes : w.server.rx.cmd_bytes_received ≡ 0
  pub sized : length w.server.rx.cmd_buf ≡ minimal_size
  pub silent : w.inbox ≡ []
  pub quiet : Quiet w
  pub no_fault : w.server.fault ≡ false

-- The command is there, and counted as taken.
abbrev pub taken_in : Bytes → World → World
taken_in bytes w = record w {
  inbox = [];
  server = record w.server { rx = record w.server.rx { cmd_buf = bytes; cmd_bytes_received = 0 } };
}

-- The command: 8 bytes in one piece.
module _ (x : ℕ) (xs : Bytes) (v : World) (a : Listening v)
    (size : length (x ∷ xs) ≡ minimal_size) where
  abbrev filled : World
  filled = record v { inbox = []; server = store_command (x ∷ xs) v.server }

  fetch-command :
      fetch strict
        (minimal_size - v.server.rx.cmd_bytes_received)
        store_command
        (with_inbox (arrived x xs ∷ []) v)
      ≡ go filled
  unfolding fetch fetched
  fetch-command =
      ap (λ (q : Recv × List Event). fetched strict store_command q.0 (with_inbox q.1 v))
        (recv-part (minimal_size - v.server.rx.cmd_bytes_received) x xs []
          (omega (arith, size, a.no_bytes)))

  filled-buffer : filled.server.rx.cmd_buf ≡ x ∷ xs
  unfolding store_command
  filled-buffer =
      ap (λ i. blit v.server.rx.cmd_buf i (x ∷ xs)) a.no_bytes
      ∙ blit_whole v.server.rx.cmd_buf (x ∷ xs) (omega (arith, size, a.sized))

  filled-count : filled.server.rx.cmd_bytes_received ≡ minimal_size
  unfolding store_command
  filled-count = omega (arith, size, a.no_bytes)

  -- What is handed to `process_command`.
  abbrev emptied : World
  emptied = on_server (λ s. record s { rx = record s.rx { cmd_bytes_received = 0 } }) filled

  emptied-taken_in : emptied ≡ taken_in (x ∷ xs) v
  unfolding store_command
  emptied-taken_in = ground (arith, size, a.no_bytes, a.no_fault, filled-buffer)

  poll-emptied :
      poll (with_inbox (arrived x xs ∷ []) v) ≡ process_command filled.server.rx.cmd_buf emptied
  unfolding poll poll_idle serve legacy_work
  poll-emptied =
      ground (arith, fetch-command, filled-count, a.connected, a.protocol, a.no_scan, a.no_bytes)

  pub poll-command :
      poll (with_inbox (arrived x xs ∷ []) v) ≡ process_command (x ∷ xs) (taken_in (x ∷ xs) v)
  poll-command =
      poll-emptied
      ∙ ap (λ bs. process_command bs emptied) filled-buffer
      ∙ ap (process_command (x ∷ xs)) emptied-taken_in

-- The response, on a socket that takes it.
sends-response :
    (j : ℕ) (os : List Outcome) (bytes : Bytes) (w : World)
    → length bytes ≡ 4
    → w.sends ≡ takes (4 + j) ∷ os
    → send_response bytes w ≡ record w { sends = os; wire = w.wire ++ bytes }
unfolding send_response response_sent next_outcome send
sends-response j os bytes w l e = ground (arith, take_all (min (4 + j) 4) bytes (omega (arith, l)))

-- The world that waits for the TMS bytes of a scan.
abbrev pub scanning : ℕ → List Outcome → Bytes → World → World
scanning n os bytes v = record (taken_in bytes v) {
  server = record (taken_in bytes v).server {
    scan = record (fresh_scan n v.server.scan) { is_legacy = true };
  };
  sends = os;
  wire = v.wire ++ response_bytes 0 v.server.signals.current_tdo 0 0;
}

module _ (j : ℕ) (os : List Outcome) (bytes : Bytes) (v : World) (a : Listening v)
    (script : v.sends ≡ takes (4 + j) ∷ os) where
  pub scan-scanning :
      (n : ℕ)
      → get_or bytes 0 0 ≡ 2
      → be32_to_host (drop 4 bytes) ≡ n
      → 0 < n
      → n ≤ 4096
      → process_command bytes (taken_in bytes v) ≡ scanning n os bytes v
  unfolding process_command reply_to process_scan response_bytes
  scan-scanning n c l p h = ground (
    arith,
    a.connected,
    sends-response j os (0 ∷ v.server.signals.current_tdo ∷ 0 ∷ 0 ∷ [])
        (record (taken_in bytes v) { server = (scanning n os bytes v).server }),
    script,
  )

  -- The world behind a reset.
  pub reset-started :
      get_or bytes 0 0 ≡ 0
      → be32_to_host (drop 4 bytes) ≤ 4096
      → process_command bytes (taken_in bytes v) ≡ record (taken_in bytes v) {
        server = start_reset (taken_in bytes v).server;
        sends = os;
        wire = v.wire ++ response_bytes 0 v.server.signals.current_tdo 0 0;
      }
  unfolding process_command reply_to start_reset response_bytes
  reset-started c h = ground (
    arith,
    a.connected,
    sends-response j os (0 ∷ v.server.signals.current_tdo ∷ 0 ∷ 0 ∷ [])
        (record (taken_in bytes v) { server = start_reset (taken_in bytes v).server }),
    script,
  )

  -- The world behind a command that is only acknowledged.
  abbrev pub acknowledged : ℕ → World
  acknowledged tdo = record (taken_in bytes v) {
    sends = os;
    wire = v.wire ++ response_bytes 0 tdo 0 0;
  }

  pub set_port-acknowledged :
      get_or bytes 0 0 ≡ 3
      → be32_to_host (drop 4 bytes) ≤ 4096
      → process_command bytes (taken_in bytes v) ≡ acknowledged 0
  unfolding process_command reply_to response_bytes
  set_port-acknowledged c h =
      ground
        (arith, a.connected, sends-response j os (0 ∷ 0 ∷ 0 ∷ 0 ∷ []) (taken_in bytes v), script)

  pub oscan1-acknowledged :
      get_or bytes 0 0 ≡ 5
      → be32_to_host (drop 4 bytes) ≤ 4096
      → process_command bytes (taken_in bytes v) ≡ acknowledged v.server.signals.current_tdo
  unfolding process_command reply_to response_bytes
  oscan1-acknowledged c h = ground (
    arith,
    a.connected,
    sends-response j os (0 ∷ v.server.signals.current_tdo ∷ 0 ∷ 0 ∷ []) (taken_in bytes v),
    script,
  )

pub poll-bytes :
    (bytes : Bytes) (v : World)
    → Listening v
    → length bytes ≡ minimal_size
    → poll (record v { inbox = arrives bytes }) ≡ process_command bytes (taken_in bytes v)
poll-bytes [] v a l = absurd (omega (arith, l))
poll-bytes (x ∷ xs) v a l = poll-command x xs v a l
