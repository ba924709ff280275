-- ===== src/Server/Poll/Clients.antt =====
-- What `poll` does with clients that come, go and hang up.
use jtag.Prelude.{
  ℕ, zero, suc, ◌+◌, ◌<◌, ◌≤◌, ◌≡◌, refl, ap, ◌∙◌, Bool, true, false, List, [], ◌∷◌, ◌++◌, Option,
  some, get_or, take, blit, min, arith, sub32,
}
use jtag.Wire.{Bytes, minimal_cmd, minimal_size}
use jtag.Socket.{Event, shut, recv, Outcome, takes, send}
use jtag.Server.State.{
  unknown, openocd_vpi, ScanState, idle, receiving_tms, receiving_tdi, sending_tdo, Sf0State, World,
}
use jtag.Server.Connection.{
  close_connection, reset_connection, fetch, fetched, store_minimal, next_outcome,
}
use jtag.Server.Scan.{continue_scan, continue_scan_in, tms_arrived, tdi_arrived, tdo_sent}
use jtag.Server.Work.{
  continue_vpi_work, flush_tx, sf0_work, tms_work, scan_work, after_scan, queue_scan_response,
}
use jtag.Server.Poll.{poll, poll_idle, detect_protocol, accepted}

-- `n` polls in a row.
unfoldable pub polls : ℕ → World → World
polls zero w = w
polls (suc n) w = polls n (poll w)

-- The engine waits for a buffer.
abbrev pub awaits_buffer : ScanState → Bool
awaits_buffer receiving_tms = true
awaits_buffer receiving_tdi = true
awaits_buffer _ = false

continue_scan-shut :
    (st : ScanState) (es : List Event) (w : World)
    → awaits_buffer st ≡ true
    → w.inbox ≡ shut ∷ es
    → continue_scan_in st w ≡ w
unfolding continue_scan_in recv tms_arrived tdi_arrived
continue_scan-shut st es w h e = ground arith

hung :
    (es : List Event) (w : World)
    → awaits_buffer w.server.scan.state ≡ true
    → w.inbox ≡ shut ∷ es
    → continue_scan w ≡ w
unfolding continue_scan
hung es w h e = continue_scan-shut w.server.scan.state es w h e

-- A connection of the 8-byte protocols, in the middle of a scan, with nothing else to do.
pub record InScan (w : World) : Type 0 where
  pub connected : w.server.connected ≡ true
  pub waiting : awaits_buffer w.server.scan.state ≡ true
  pub no_response : w.server.tx.vpi_tx_pending ≡ false
  pub resting : w.server.sf0.state ≡ Sf0State.resting
  pub no_sequence : w.server.tms_seq.active ≡ false

poll-hung : (es : List Event) (w : World) → InScan w → w.inbox ≡ shut ∷ es → poll w ≡ w
unfolding poll continue_vpi_work flush_tx sf0_work tms_work scan_work after_scan
poll-hung es w s e = ground (arith, hung es w s.waiting e)

-- A client that shuts its connection while the server waits for the TMS or TDI buffer of a scan is
-- never noticed: however often the server polls, nothing changes, the connection stays open and no
-- other client is accepted.
pub hang_up_unnoticed :
    (n : ℕ) (es : List Event) (w : World) → InScan w → w.inbox ≡ shut ∷ es → polls n w ≡ w
unfolding polls
hang_up_unnoticed zero es w s e = refl
hang_up_unnoticed (suc n) es w s e =
    ap (polls n) (poll-hung es w s e) ∙ hang_up_unnoticed n es w s e

-- A client whose protocol is not yet known, of whose first command `k` bytes are there.
pub record InDetection (k : ℕ) (w : World) : Type 0 where
  pub connected : w.server.connected ≡ true
  pub mode : w.server.protocol_mode ≡ unknown
  pub scan_idle : w.server.scan.state ≡ idle
  pub partial : w.server.rx.minimal_rx_bytes ≡ k
  pub some_bytes : 0 < k
  pub too_few : k < minimal_size

record LeftOver (k : ℕ) (buf : Bytes) (w : World) : Type 0 where
  connected : w.server.connected ≡ true
  partial : w.server.rx.minimal_rx_bytes ≡ k
  buffer : w.server.rx.minimal_cmd_rx ≡ buf

closes :
    (k : ℕ) (es : List Event) (w : World)
    → InDetection k w
    → w.inbox ≡ shut ∷ es
    → poll w ≡ close_connection (record w { inbox = shut ∷ es })
unfolding poll poll_idle detect_protocol fetch fetched recv
closes k es w d e = ground arith

accepts-LeftOver :
    (es : List Event) (later : List (Option (List Event))) (w : World)
    → w.accepts ≡ some es ∷ later
    → LeftOver w.server.rx.minimal_rx_bytes w.server.rx.minimal_cmd_rx (poll (close_connection w))
unfolding poll accepted close_connection reset_connection
accepts-LeftOver es later w e = ground arith

head-blit : (buf xs : Bytes) (k : ℕ) → 0 < k → get_or (blit buf k xs) 0 0 ≡ get_or buf 0 0
head-blit buf xs zero h = absurd (omega arith)
head-blit [] xs (suc k) h = refl
head-blit (b ∷ buf) xs (suc k) h = refl

-- A client that leaves after the first bytes of its first command spoils the next one: two polls
-- later the next client is connected, but the bytes of the old one are still counted, and whatever
-- the new client sends is stored behind them, so that the command byte is the old client's.
pub partial_command_survives :
    (k : ℕ) (es es' : List Event) (later : List (Option (List Event))) (xs : Bytes) (w : World)
    → InDetection k w
    → w.inbox ≡ shut ∷ es
    → w.accepts ≡ some es' ∷ later
    → let w' = polls 2 w in
      (w'.server.connected ≡ true)
      × (w'.server.rx.minimal_rx_bytes ≡ k)
      × (minimal_cmd (store_minimal xs w'.server).rx.minimal_cmd_rx
          ≡ minimal_cmd w.server.rx.minimal_cmd_rx)
unfolding polls store_minimal minimal_cmd
partial_command_survives k es es' later xs w d e a =
    let w₁ : World = record w { inbox = shut ∷ es } in
    let l = accepts-LeftOver es' later w₁ a in
    ground (
      arith,
      closes k es w d e,
      l,
      head-blit (poll (close_connection w₁)).server.rx.minimal_cmd_rx xs
          (poll (close_connection w₁)).server.rx.minimal_rx_bytes,
    )

-- The end of a scan of the 8-byte protocol: the TDO bytes are ready to go out.
pub record InReply (w : World) : Type 0 where
  pub connected : w.server.connected ≡ true
  pub mode : w.server.protocol_mode ≡ openocd_vpi
  pub minimal : w.server.vpi_minimal_mode ≡ true
  pub state : w.server.scan.state ≡ sending_tdo
  pub none_sent : w.server.scan.bytes_sent ≡ 0
  pub bytes_fit : w.server.scan.num_bytes ≤ 512
  pub some_bytes : 0 < w.server.scan.num_bytes
  pub no_response : w.server.tx.vpi_tx_pending ≡ false
  pub resting : w.server.sf0.state ≡ Sf0State.resting
  pub no_sequence : w.server.tms_seq.active ≡ false

-- In the 8-byte protocol the server sends the TDO bytes of a scan, and after them it queues a packet
-- of 1036 bytes that a client of this protocol does not expect.
pub minimal_scan_extra_packet :
    (k : ℕ) (os : List Outcome) (w : World)
    → InReply w
    → w.sends ≡ takes (w.server.scan.num_bytes + k) ∷ os
    → ((poll w).wire ≡ w.wire ++ take w.server.scan.num_bytes w.server.scan.tdo_buf)
      × ((poll w).server.vpi_minimal_mode ≡ true)
      × ((poll w).server.tx.vpi_tx_pending ≡ true)
      × ((poll w).server.tx.vpi_tx_bytes ≡ 0)
unfolding poll continue_vpi_work flush_tx sf0_work tms_work scan_work after_scan continue_scan
    continue_scan_in next_outcome send tdo_sent queue_scan_response
minimal_scan_extra_packet k os w r e = ground (
  arith,
  ap (λ n. w.wire ++ take n w.server.scan.tdo_buf)
      {x = min (w.server.scan.num_bytes + k)
        (sub32 w.server.scan.num_bytes w.server.scan.bytes_sent)}
      {y = w.server.scan.num_bytes} (omega arith),
)
