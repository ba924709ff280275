-- ===== src/Server/Poll/Sequence.antt =====
-- One CMD_TMS_SEQ of a client of the full protocol, from the bytes that come in to the bytes that go
-- out: the response is sent while the bits are clocked out.
use jtag.Prelude.{
  ℕ, zero, suc, ◌+◌, ◌<◌, ◌≤◌, ◌≡◌, refl, ap, ap₂, ◌∙◌, Bool, true, false, List, [], ◌∷◌, ◌++◌,
  Option, some, length, arith, inl, inr, Bool-cases,
}
use jtag.Wire.{Bytes}
use jtag.Socket.{send}
use jtag.Server.State.{Signals, TmsSeq, Sf0State, openocd_vpi, World, on_server}
use jtag.Server.Signals.{Pins, get_pending_signals, request_pulse}
use jtag.Server.Connection.{next_outcome}
use jtag.Server.Work.{continue_vpi_work, flush_tx, tx_sent, sf0_work, tms_work, tms_seq_bit}
use jtag.Server.Work.Oscan1.{taken, offered}
use jtag.Server.Work.TmsSequence.{bit_of, tms_pins, tms_list}
use jtag.Server.Work.Transmit.{flushed, flush_times, taking}
use jtag.Server.Poll.{poll}
use jtag.Server.Poll.Overlay.{over, Sender, flush_lem}

-- `m` polls, after each of which the simulation takes what is pending.
unfoldable pub poll_and_take : ℕ → World → List (Option Pins) × World
poll_and_take zero w = ([], w)
poll_and_take (suc m) w =
    let w₁ = poll w in let (ps, w₂) = poll_and_take m (taken w₁) in (offered w₁ ∷ ps, w₂)

-- `k` of the `n` bits in `buf` are out.
pub record InSequence (k n : ℕ) (buf : Bytes) (mode : ℕ) (g : Signals) (q : TmsSeq) : Type 0 where
  pub active : q.active ≡ true
  pub index : q.bit_index ≡ k
  pub total : q.num_bits ≡ n
  pub bits : q.buf ≡ buf
  pub no_pulse : g.pending_tck_pulse ≡ false
  pub no_reset : g.reset_pulses_remaining ≡ 0
  pub no_toggle : g.pending_tckc_toggle ≡ false
  pub mode_set : g.pending_mode_select ≡ mode

-- A poll while a sequence is active and nothing is pending flushes and goes on to the next bit.
poll_pending-bit :
    (k : ℕ) (ks : List ℕ) (w : World)
    → w.server.connected ≡ true
    → w.server.protocol_mode ≡ openocd_vpi
    → w.server.sf0.state ≡ Sf0State.resting
    → w.server.tms_seq.active ≡ true
    → w.server.signals.pending_tck_pulse ≡ false
    → w.server.tx.vpi_tx_pending ≡ true
    → w.sends ≡ taking (k ∷ ks)
    → poll w ≡ on_server tms_seq_bit (flushed w)
unfolding poll continue_vpi_work flush_tx tx_sent next_outcome send sf0_work tms_work
poll_pending-bit k ks w c o r a n p e = ground arith

poll_idle-bit :
    (w : World)
    → w.server.connected ≡ true
    → w.server.protocol_mode ≡ openocd_vpi
    → w.server.sf0.state ≡ Sf0State.resting
    → w.server.tms_seq.active ≡ true
    → w.server.signals.pending_tck_pulse ≡ false
    → w.server.tx.vpi_tx_pending ≡ false
    → poll w ≡ on_server tms_seq_bit (flushed w)
unfolding poll continue_vpi_work flush_tx sf0_work tms_work
poll_idle-bit w c o r a n p = ground arith

pub poll-bit :
    (k : ℕ) (ks : List ℕ) (v : World) (g : Signals) (q : TmsSeq) (f : Bool)
    → Sender (k ∷ ks) v
    → q.active ≡ true
    → g.pending_tck_pulse ≡ false
    → poll (over g q f v) ≡ on_server tms_seq_bit (over g q f (flushed v))
poll-bit k ks v g q f s a n =
    let b = s.replying in
    let w = over g q f v in
    let once : poll w ≡ on_server tms_seq_bit (flushed w) = elim s.script [
      | inl p ↦ poll_idle-bit w b.connected b.protocol b.resting a n p
      | inr e ↦ elim (Bool-cases v.server.tx.vpi_tx_pending) [
        | inl p ↦ poll_pending-bit k ks w b.connected b.protocol b.resting a n p e
        | inr p ↦ poll_idle-bit w b.connected b.protocol b.resting a n p
      ]
    ] in
    once ∙ ap (on_server tms_seq_bit) ((flush_lem k ks v s).apart g q f)

-- The signals behind the pulse of a bit.
abbrev after_bit : ℕ → Signals → Signals
after_bit tms g = (get_pending_signals (request_pulse tms 0 g)).1

abbrev next_bit : TmsSeq → ℕ → TmsSeq
next_bit q k = record q { bit_index = k + 1 }

record NextBit (k n : ℕ) (buf : Bytes) (mode : ℕ) (g : Signals) (q : TmsSeq) (u : World)
    : Type 0 where
  pins : offered (on_server tms_seq_bit (over g q false u)) ≡ some (tms_pins mode (bit_of buf k))
  world :
      taken (on_server tms_seq_bit (over g q false u))
      ≡ over (after_bit (bit_of buf k) g) (next_bit q k) false u
  next : InSequence (k + 1) n buf mode (after_bit (bit_of buf k) g) (next_bit q k)

next_bit_lem :
    (k n : ℕ) (buf : Bytes) (mode : ℕ) (g : Signals) (q : TmsSeq) (u : World)
    → k < n
    → n ≤ 4096
    → InSequence k n buf mode g q
    → NextBit k n buf mode g q u
unfolding tms_seq_bit get_pending_signals request_pulse
next_bit_lem k n buf mode g q u h b a = ground arith

-- Bits `k` to `n`, with the calls of `send` for them and more.
pub record Bits (m k n : ℕ) (buf : Bytes) (mode : ℕ) (v : World) (r : List (Option Pins) × World)
    : Type 0 where
  pub pins : r.0 ≡ tms_list mode buf k m
  pub signals : Signals
  pub sequence : TmsSeq
  pub world : r.1 ≡ over signals sequence false (flush_times m v)
  pub at : InSequence n n buf mode signals sequence

-- The sender behind some of its calls.
pub Sender-flush_times :
    (js ks : List ℕ) (v : World) → Sender (js ++ ks) v → Sender ks (flush_times (length js) v)
unfolding flush_times
Sender-flush_times [] ks v s = s
Sender-flush_times (j ∷ js) ks v s =
    Sender-flush_times js ks (flushed v) (flush_lem j (js ++ ks) v s).next

pub flush_times-append :
    (js ks : List ℕ) (v : World)
    → flush_times (length ks) (flush_times (length js) v) ≡ flush_times (length (js ++ ks)) v
unfolding flush_times
flush_times-append [] ks v = refl
flush_times-append (j ∷ js) ks v = flush_times-append js ks (flushed v)

pub sequence-Bits :
    (js ks : List ℕ) (k n : ℕ) (buf : Bytes) (mode : ℕ) (v : World) (g : Signals) (q : TmsSeq)
    → Sender (js ++ ks) v
    → k + length js ≡ n
    → n ≤ 4096
    → InSequence k n buf mode g q
    → Bits (length js) k n buf mode v (poll_and_take (length js) (over g q false v))
unfolding poll_and_take flush_times
sequence-Bits [] ks k n buf mode v g q s h b a = record {
  pins = refl;
  signals = g;
  sequence = q;
  world = refl;
  at = ground arith;
}
sequence-Bits (j ∷ js) ks k n buf mode v g q s h b a =
    let polled = poll-bit j (js ++ ks) v g q false s a.active a.no_pulse in
    let one = next_bit_lem k n buf mode g q (flushed v) (omega arith) b a in
    let rest =
      sequence-Bits js ks (k + 1) n buf mode (flushed v) (after_bit (bit_of buf k) g) (next_bit q k)
        (flush_lem j (js ++ ks) v s).next (omega arith) b one.next in
    rw (polled, one.world)
      (record {
        pins = ap₂ ◌∷◌ one.pins rest.pins;
        signals = rest.signals;
        sequence = rest.sequence;
        world = rest.world;
        at = rest.at;
      })

-- Behind the last bit a poll ends the sequence.
pub end_lem :
    (n : ℕ) (buf : Bytes) (mode : ℕ) (g : Signals) (q : TmsSeq) (u : World)
    → InSequence n n buf mode g q
    → on_server tms_seq_bit (over g q false u) ≡ over g (record q { active = false }) false u
unfolding tms_seq_bit
end_lem n buf mode g q u a = ground arith
