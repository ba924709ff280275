-- ===== src/Server/Work/Transmit.antt =====
-- The response packet of the full protocol: how `continue_vpi_work` flushes it.
use jtag.Prelude.{
  ℕ, zero, suc, ◌+◌, ◌<◌, ◌≤◌, ◌≡◌, refl, ap, ◌∙◌, true, false, inl, inr, List, [], ◌∷◌, ◌++◌, ◌⊎◌,
  append_assoc, length, take, drop, take-drop_split, take_all, length-drop, arith, min, map, sub32,
}
use jtag.Wire.{Bytes, image, vpi_pkt_size}
use jtag.Wire.Layout.{IsSized, length-image}
use jtag.Socket.{Outcome, takes, send}
use jtag.Server.State.{World}
use jtag.Server.Connection.{landed, next_outcome}
use jtag.Server.Work.{flush_tx, tx_sent}

-- A response under way: its first `vpi_tx_bytes` bytes are out, and more are to come.
pub record IsSending (w : World) : Type 0 where
  pub pending : w.server.tx.vpi_tx_pending ≡ true
  pub connected : w.server.connected ≡ true
  pub unfinished : w.server.tx.vpi_tx_bytes < vpi_pkt_size
  pub sized : length (image w.server.tx.vpi_cmd_tx) ≡ vpi_pkt_size

-- The bytes that are not out yet.
abbrev pub to_send : World → Bytes
to_send w = drop w.server.tx.vpi_tx_bytes (image w.server.tx.vpi_cmd_tx)

abbrev pub flushed : World → World
flushed w = landed (flush_tx w)

-- One flush: the last bytes, or a further part.
record Step (os : List Outcome) (w w' : World) : Type 0 where
  left : w'.sends ≡ os
  progress :
      ((w'.server.tx.vpi_tx_pending ≡ false) × (w'.wire ≡ w.wire ++ to_send w))
      ⊎ (IsSending w'
          × (w.server.tx.vpi_tx_bytes < w'.server.tx.vpi_tx_bytes)
          × (w'.wire ++ to_send w' ≡ w.wire ++ to_send w))

-- the two cases, by whether the socket takes all
flush-Step :
    (k : ℕ) (os : List Outcome) (w : World)
    → IsSending w
    → w.sends ≡ takes (suc k) ∷ os
    → Step os w (flushed w)
unfolding flush_tx tx_sent next_outcome send
flush-Step k os w s e =
    let b = w.server.tx.vpi_tx_bytes in
    let img = image w.server.tx.vpi_cmd_tx in
    let m = min (suc k) (sub32 vpi_pkt_size b) in
    ground (
      arith,
      take_all m (drop b img),
      length-drop b img,
      take-drop_split b m img,
      append_assoc w.wire (take m (drop b img)) (drop (b + m) img),
    )

-- Sockets that take at least one byte at each call.
abbrev pub taking : List ℕ → List Outcome
taking ks = map (λ k. takes (suc k)) ks

pub flush_idle : (w : World) → w.server.tx.vpi_tx_pending ≡ false → flushed w ≡ w
unfolding flush_tx
flush_idle w h = ground arith

-- `n` flushes in a row.
unfoldable pub flush_times : ℕ → World → World
flush_times zero w = w
flush_times (suc n) w = flush_times n (flushed w)

pub flush_times-idle :
    (n : ℕ) (w : World) → w.server.tx.vpi_tx_pending ≡ false → flush_times n w ≡ w
unfolding flush_times
flush_times-idle zero w h = refl
flush_times-idle (suc n) w h = ap (flush_times n) (flush_idle w h) ∙ flush_times-idle n w h

record Sent (w w' : World) : Type 0 where
  done : w'.server.tx.vpi_tx_pending ≡ false
  wire : w'.wire ≡ w.wire ++ to_send w

flush_times-Sent :
    (ks : List ℕ) (w : World)
    → IsSending w
    → w.sends ≡ taking ks
    → vpi_pkt_size ≤ w.server.tx.vpi_tx_bytes + length ks
    → Sent w (flush_times (length ks) w)
unfolding flush_times
flush_times-Sent [] w s e h = absurd (omega arith)
flush_times-Sent (k ∷ ks) w s e h =
    let st = flush-Step k (taking ks) w s e in
    elim st.progress [
      | inl (idle, out) ↦
          let stay = flush_times-idle (length ks) (flushed w) idle in
          record {
            done = ap (λ (x : World). x.server.tx.vpi_tx_pending) stay ∙ idle;
            wire = ap (λ (x : World). x.wire) stay ∙ out;
          }
      | inr (s', more, out) ↦
          let ih = flush_times-Sent ks (flushed w) s' st.left (omega arith) in
          record { done = ih.done; wire = ih.wire ∙ out }
    ]

-- A queued response goes out whole: if the socket takes at least one byte at each call, 1036
-- flushes or more put exactly the 1036 bytes of the packet behind what was on the wire, whatever
-- the sizes of the parts, and the response is no longer pending.
pub response_packet_sent :
    (ks : List ℕ) (w : World)
    → w.server.tx.vpi_tx_pending ≡ true
    → w.server.connected ≡ true
    → w.server.tx.vpi_tx_bytes ≡ 0
    → IsSized w.server.tx.vpi_cmd_tx
    → w.sends ≡ taking ks
    → vpi_pkt_size ≤ length ks
    → ((flush_times (length ks) w).wire ≡ w.wire ++ image w.server.tx.vpi_cmd_tx)
      × ((flush_times (length ks) w).server.tx.vpi_tx_pending ≡ false)
response_packet_sent ks w p c b s e l =
    let r =
      flush_times-Sent ks w
        (record {
          pending = p;
          connected = c;
          unfinished = omega arith;
          sized = length-image w.server.tx.vpi_cmd_tx s;
        })
        e (omega arith) in
    (r.wire ∙ ap (λ n. w.wire ++ drop n (image w.server.tx.vpi_cmd_tx)) b, r.done)
