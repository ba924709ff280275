-- ===== src/Server/Poll/Pulled.antt =====
-- Polls after each of which the simulation takes what is pending, while a response is sent.
use jtag.Prelude.{ℕ, ◌≡◌, refl, sym, ap, ◌∙◌, Bool, false, List, [], ◌∷◌, ◌++◌, Option, length}
use jtag.Server.State.{Signals, TmsSeq, World}
use jtag.Server.Signals.{Pins, get_pending_signals}
use jtag.Server.Packet.Reset.{take_pins}
use jtag.Server.Work.Transmit.{flushed, flush_times}
use jtag.Server.Poll.{poll}
use jtag.Server.Poll.Clients.{polls}
use jtag.Server.Poll.Overlay.{over, Sender, Sender-over, flush_lem, polls_lem}
use jtag.Server.Poll.Sequence.{poll_and_take, Sender-flush_times, flush_times-append}

-- Polls of a sender with no sequence under way: the simulation takes one thing after each.
pub pulled :
    (js ks : List ℕ) (v : World) (g : Signals) (q : TmsSeq) (f : Bool)
    → Sender (js ++ ks) v
    → q.active ≡ false
    → let (pins, g') = take_pins (length js) g in
      poll_and_take (length js) (over g q f v) ≡ (pins, over g' q f (flush_times (length js) v))
unfolding poll_and_take take_pins flush_times
pulled [] ks v g q f s a = refl
pulled (j ∷ js) ks v g q f s a =
    let one = flush_lem j (js ++ ks) v s in
    let polled : poll (over g q f v) ≡ over g q f (flushed v) =
      (flush_lem j (js ++ ks) (over g q f v) (Sender-over (j ∷ js ++ ks) v g q f s a)).polled
      ∙ one.apart g q f in
    rw (polled, pulled js ks (flushed v) (get_pending_signals g).1 q f one.next a) refl

abbrev pub sent_behind : ℕ → List (Option Pins) × World → List (Option Pins) × World
sent_behind n (pins, w) = (pins, polls n w)

-- Such polls, and then polls that only send.
pub pulled_sent :
    (js ks : List ℕ) (v : World) (g : Signals) (q : TmsSeq) (f : Bool)
    → Sender (js ++ ks) v
    → q.active ≡ false
    → let (pins, g') = take_pins (length js) g in
      sent_behind (length ks) (poll_and_take (length js) (over g q f v))
      ≡ (pins, over g' q f (polls (length (js ++ ks)) v))
unfolding take_pins
pulled_sent js ks v g q f s a =
    let (pins, g') = take_pins (length js) g in
    let u = flush_times (length js) v in
    let rest = polls_lem ks u (Sender-flush_times js ks v s) in
    ap (sent_behind (length ks)) (pulled js ks v g q f s a)
    ∙ ap (λ x. (pins, x))
        (rest.apart g' q f a
          ∙ ap (over g' q f)
              (rest.polled ∙ flush_times-append js ks v ∙ sym (polls_lem (js ++ ks) v s).polled))
