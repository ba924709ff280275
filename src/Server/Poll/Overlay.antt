-- ===== src/Server/Poll/Overlay.antt =====
-- Polls that send a response, on worlds that differ in the signals, in the TMS sequence and in the
-- fault flag: the sending depends on none of these.
use jtag.Prelude.{
  ℕ, ◌≡◌, refl, sym, ap, ◌∙◌, Bool, true, false, List, [], ◌∷◌, ◌⊎◌, inl, inr, length, Bool-cases,
  arith,
}
use jtag.Wire.{buffer_size}
use jtag.Socket.{send}
use jtag.Server.State.{Signals, TmsSeq, World, on_server}
use jtag.Server.Connection.{next_outcome}
use jtag.Server.Work.{flush_tx, tx_sent}
use jtag.Server.Work.Transmit.{flushed, flush_idle, flush_times, taking}
use jtag.Server.Poll.{poll}
use jtag.Server.Poll.Clients.{polls}
use jtag.Server.Poll.Between.{Between}
use jtag.Server.Poll.Replies.{Replying, Replying-Sends, poll-flushes, poll-rests, flushed-Sends}

-- The world `w` with these signals, this sequence and this flag.
abbrev pub over : Signals → TmsSeq → Bool → World → World
over g q fault w = on_server (λ s. record s { signals = g; tms_seq = q; fault = fault }) w

-- No response is under way, or the socket takes at least a byte at each of the calls to come.
abbrev pub Script : List ℕ → World → Type 0
Script ks w = (w.server.tx.vpi_tx_pending ≡ false) ⊎ (w.sends ≡ taking ks)

-- A connection that sends with these calls to come.
pub record Sender (ks : List ℕ) (w : World) : Type 0 where
  pub replying : Replying w
  pub script : Script ks w

-- One flush of a sender.
pub record Flush (ks : List ℕ) (w : World) : Type 0 where
  pub polled : poll w ≡ flushed w
  pub apart :
      (g : Signals) (q : TmsSeq) (f : Bool) → flushed (over g q f w) ≡ over g q f (flushed w)
  pub next : Sender ks (flushed w)

flush_pending-over :
    (k : ℕ) (ks : List ℕ) (w : World) (g : Signals) (q : TmsSeq) (f : Bool)
    → w.server.connected ≡ true
    → w.server.tx.vpi_tx_pending ≡ true
    → w.sends ≡ taking (k ∷ ks)
    → flushed (over g q f w) ≡ over g q f (flushed w)
unfolding flush_tx tx_sent next_outcome send
flush_pending-over k ks w g q f c p e = ground arith

flush_idle-over :
    (w : World) (g : Signals) (q : TmsSeq) (f : Bool)
    → w.server.tx.vpi_tx_pending ≡ false
    → flushed (over g q f w) ≡ over g q f (flushed w)
flush_idle-over w g q f p = flush_idle (over g q f w) p ∙ ap (over g q f) (sym (flush_idle w p))

idle-Flush :
    (ks : List ℕ) (w : World) → Replying w → w.server.tx.vpi_tx_pending ≡ false → Flush ks w
idle-Flush ks w r p = record {
  polled = poll-rests w r p ∙ sym (flush_idle w p);
  apart = λ g q f. flush_idle-over w g q f p;
  next = rw (flush_idle w p) (record { replying = r; script = inl p });
}

pub flush_lem : (k : ℕ) (ks : List ℕ) (w : World) → Sender (k ∷ ks) w → Flush ks w
flush_lem k ks w s = elim s.script [
  | inl p ↦ idle-Flush ks w s.replying p
  | inr e ↦ elim (Bool-cases w.server.tx.vpi_tx_pending) [
    | inl p ↦
        let f = flushed-Sends k ks w p s.replying.connected e in
        record {
          polled = poll-flushes k ks w s.replying p e;
          apart = λ g q f. flush_pending-over k ks w g q f s.replying.connected p e;
          next = record { replying = Replying-Sends f s.replying; script = inr f.script };
        }
    | inr p ↦ idle-Flush ks w s.replying p
  ]
]

-- Polls of a sender whose sequence is over.
pub record Polls (n : ℕ) (w : World) : Type 0 where
  pub polled : polls n w ≡ flush_times n w
  pub apart :
      (g : Signals) (q : TmsSeq) (f : Bool)
      → q.active ≡ false
      → polls n (over g q f w) ≡ over g q f (polls n w)

pub Sender-over :
    (ks : List ℕ) (w : World) (g : Signals) (q : TmsSeq) (f : Bool)
    → Sender ks w
    → q.active ≡ false
    → Sender ks (over g q f w)
Sender-over ks w g q f s over = record {
  replying = record {
    connected = s.replying.connected;
    protocol = s.replying.protocol;
    full = s.replying.full;
    resting = s.replying.resting;
    no_sequence = over;
    no_scan = s.replying.no_scan;
    empty = s.replying.empty;
    silent = s.replying.silent;
  };
  script = s.script;
}

pub polls_lem : (ks : List ℕ) (w : World) → Sender ks w → Polls (length ks) w
unfolding polls flush_times
polls_lem [] w s = record { polled = refl; apart = λ g q f e. refl }
polls_lem (k ∷ ks) w s =
    let one = flush_lem k ks w s in
    let rest = polls_lem ks (flushed w) one.next in
    record {
      polled = ap (polls (length ks)) one.polled ∙ rest.polled;
      apart = λ g q f e.
          ap (polls (length ks)) (
            (flush_lem k ks (over g q f w) (Sender-over (k ∷ ks) w g q f s e)).polled
            ∙ one.apart g q f)
          ∙ rest.apart g q f e
          ∙ ap (λ v. over g q f (polls (length ks) v)) (sym one.polled);
    }

-- The overlay that leaves a connection between two commands.
pub Between-over :
    (w : World) (g : Signals) (q : TmsSeq)
    → Between w
    → q.active ≡ false
    → length q.buf ≡ buffer_size
    → g.pending_tck_pulse ≡ false
    → g.reset_pulses_remaining ≡ 0
    → g.pending_tckc_toggle ≡ false
    → Between (over g q false w)
Between-over w g q b e l p r t = record {
  receiving = record {
    connected = b.receiving.connected;
    protocol = b.receiving.protocol;
    full = b.receiving.full;
    no_response = b.receiving.no_response;
    resting = b.receiving.resting;
    no_sequence = e;
    no_scan = b.receiving.no_scan;
  };
  silent = b.silent;
  ready = record {
    no_bytes = b.ready.no_bytes;
    rx_size = b.ready.rx_size;
    lsb = b.ready.lsb;
    tms_size = b.ready.tms_size;
    tdi_size = b.ready.tdi_size;
    seq_size = l;
    no_pulse = p;
    no_reset = r;
    no_toggle = t;
    no_fault = refl;
  };
}
