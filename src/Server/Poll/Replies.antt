-- ===== src/Server/Poll/Replies.antt =====
-- The polls of a connection of the full protocol that send a response.
use jtag.Prelude.{
  ℕ, zero, suc, ◌≤◌, ◌≡◌, refl, sym, ap, ◌∙◌, Bool-cases, inl, inr, true, false, List, [], ◌∷◌,
  ◌++◌, length, arith,
}
use jtag.Wire.{image, vpi_pkt_size}
use jtag.Wire.Layout.{IsSized}
use jtag.Socket.{send, recv}
use jtag.Server.State.{ScanState, Sf0State, openocd_vpi, Server, World}
use jtag.Server.Connection.{next_outcome, fetch, fetched}
use jtag.Server.Work.{
  flush_tx, tx_sent, sf0_work, tms_work, scan_work, receive_work, packet_work, continue_vpi_work,
}
use jtag.Server.Work.Transmit.{flushed, flush_times, flush_times-idle, taking, response_packet_sent}
use jtag.Server.Poll.{poll}
use jtag.Server.Poll.Clients.{polls}

-- A connection of the full protocol on which nothing comes in, and that at most sends.
pub record Replying (w : World) : Type 0 where
  pub connected : w.server.connected ≡ true
  pub protocol : w.server.protocol_mode ≡ openocd_vpi
  pub full : w.server.vpi_minimal_mode ≡ false
  pub resting : w.server.sf0.state ≡ Sf0State.resting
  pub no_sequence : w.server.tms_seq.active ≡ false
  pub no_scan : w.server.scan.state ≡ ScanState.idle
  pub empty : w.server.rx.vpi_rx_bytes ≡ 0
  pub silent : w.inbox ≡ []

-- What a flush leaves alone.
pub record Sends (ks : List ℕ) (w w' : World) : Type 0 where
  pub server : w'.server ≡ record w.server { tx = w'.server.tx }
  pub inbox : w'.inbox ≡ w.inbox
  pub accepts : w'.accepts ≡ w.accepts
  pub script : w'.sends ≡ taking ks

-- A poll flushes, and finds nothing to receive.
pub poll-flushes :
    (k : ℕ) (ks : List ℕ) (w : World)
    → Replying w
    → w.server.tx.vpi_tx_pending ≡ true
    → w.sends ≡ taking (k ∷ ks)
    → poll w ≡ flushed w
unfolding poll continue_vpi_work flush_tx tx_sent next_outcome send sf0_work tms_work scan_work
    receive_work packet_work fetch fetched recv
poll-flushes k ks w q p e = ground arith

pub poll-rests : (w : World) → Replying w → w.server.tx.vpi_tx_pending ≡ false → poll w ≡ w
unfolding poll continue_vpi_work flush_tx sf0_work tms_work scan_work receive_work packet_work fetch
    fetched recv
poll-rests w q p = ground arith

pub flushed-Sends :
    (k : ℕ) (ks : List ℕ) (w : World)
    → w.server.tx.vpi_tx_pending ≡ true
    → w.server.connected ≡ true
    → w.sends ≡ taking (k ∷ ks)
    → Sends ks w (flushed w)
unfolding flush_tx tx_sent next_outcome send
flushed-Sends k ks w p c e = ground arith

-- A world that differs in the response and in what was sent.
pub record Replied (w w' : World) : Type 0 where
  pub server : w'.server ≡ record w.server { tx = w'.server.tx }
  pub inbox : w'.inbox ≡ w.inbox

pub Replying-Sends : {w w' : World} {ks : List ℕ} → Sends ks w w' → Replying w → Replying w'
Replying-Sends f q = record {
  connected = ap (λ (s : Server). s.connected) f.server ∙ q.connected;
  protocol = ap (λ (s : Server). s.protocol_mode) f.server ∙ q.protocol;
  full = ap (λ (s : Server). s.vpi_minimal_mode) f.server ∙ q.full;
  resting = ap (λ (s : Server). s.sf0.state) f.server ∙ q.resting;
  no_sequence = ap (λ (s : Server). s.tms_seq.active) f.server ∙ q.no_sequence;
  no_scan = ap (λ (s : Server). s.scan.state) f.server ∙ q.no_scan;
  empty = ap (λ (s : Server). s.rx.vpi_rx_bytes) f.server ∙ q.empty;
  silent = f.inbox ∙ q.silent;
}

polls-rest : (n : ℕ) (w : World) → Replying w → w.server.tx.vpi_tx_pending ≡ false → polls n w ≡ w
unfolding polls
polls-rest zero w q p = refl
polls-rest (suc n) w q p = ap (polls n) (poll-rests w q p) ∙ polls-rest n w q p

-- Polls in a row flush in a row.
record Flushes (n : ℕ) (w : World) : Type 0 where
  same : polls n w ≡ flush_times n w
  replied : Replied w (polls n w)

polls-Flushes : (ks : List ℕ) (w : World) → Replying w → w.sends ≡ taking ks → Flushes (length ks) w
unfolding polls flush_times
polls-Flushes [] w q e = record { same = refl; replied = record { server = refl; inbox = refl } }
polls-Flushes (k ∷ ks) w q e = elim (Bool-cases w.server.tx.vpi_tx_pending) [
  | inl pending ↦
      let f = flushed-Sends k ks w pending q.connected e in
      let one = poll-flushes k ks w q pending e in
      let rest = polls-Flushes ks (flushed w) (Replying-Sends f q) f.script in
      record {
        same = ap (polls (length ks)) one ∙ rest.same;
        replied = record {
          server =
              ap (λ x. (polls (length ks) x).server) one
              ∙ rest.replied.server
              ∙ ap (λ (s : Server). record s { tx = (polls (length ks) (flushed w)).server.tx })
                  f.server
              ∙ ap (λ x. record w.server { tx = (polls (length ks) x).server.tx }) (sym one);
          inbox = ap (λ x. (polls (length ks) x).inbox) one ∙ rest.replied.inbox ∙ f.inbox;
        };
      }
  | inr idle ↦
      let rest = polls-rest (suc (length ks)) w q idle in
      record {
        same = rest ∙ sym (flush_times-idle (suc (length ks)) w idle);
        replied = record {
          server =
              ap (λ (x : World). x.server) rest
              ∙ ap (λ (x : World). record w.server { tx = x.server.tx }) (sym rest);
          inbox = ap (λ (x : World). x.inbox) rest;
        };
      }
]

-- A queued response goes out over polls, and the server is left as it was.
pub record Delivered (n : ℕ) (w : World) : Type 0 where
  pub wire : (polls n w).wire ≡ w.wire ++ image w.server.tx.vpi_cmd_tx
  pub done : (polls n w).server.tx.vpi_tx_pending ≡ false
  pub replied : Replied w (polls n w)

pub polls-Delivered :
    (ks : List ℕ) (w : World)
    → Replying w
    → w.server.tx.vpi_tx_pending ≡ true
    → w.server.tx.vpi_tx_bytes ≡ 0
    → IsSized w.server.tx.vpi_cmd_tx
    → w.sends ≡ taking ks
    → vpi_pkt_size ≤ length ks
    → Delivered (length ks) w
polls-Delivered ks w q p b z e l =
    let f = polls-Flushes ks w q e in
    let out = response_packet_sent ks w p q.connected b z e l in
    record {
      wire = ap (λ (x : World). x.wire) f.same ∙ out.0;
      done = ap (λ (x : World). x.server.tx.vpi_tx_pending) f.same ∙ out.1;
      replied = f.replied;
    }
