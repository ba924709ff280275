-- ===== src/Server/Poll/Resetting.antt =====
-- One CMD_RESET of a client of the full protocol, from the bytes that come in to the bytes that go
-- out.
use jtag.Prelude.{
  ℕ, ◌≡◌, ◌≤◌, refl, Bool, drop, inr, sym, ap, ◌∙◌, false, List, [], ◌∷◌, ◌++◌, Option, some,
  length, arith, replicate, length-replicate,
}
use jtag.Wire.{Bytes, OcdVpiCmd, image, of_image, header, le32_to_host, zeros, vpi_pkt_size}
use jtag.Wire.Layout.{IsSized, header-IsSized, length-image}
use jtag.Socket.{arrived}
use jtag.Server.State.{Signals, TmsSeq, Server, World, on_server}
use jtag.Server.Signals.{Pins, get_pending_signals, request_pulse}
use jtag.Server.Connection.{store_packet}
use jtag.Server.Packet.{
  process_vpi_packet, parse_packet, perform, do_reset, start_reset, queue_empty_response,
}
use jtag.Server.Packet.Reset.{take_pins, reset_pins, AllTaken, start_reset-AllTaken}
use jtag.Server.Work.{empty_packet}
use jtag.Server.Work.Transmit.{taking}
use jtag.Server.Work.Oscan1.{taken, offered}
use jtag.Server.Poll.Overlay.{over, Sender, polls_lem}
use jtag.Server.Poll.Sequence.{poll_and_take}
use jtag.Server.Poll.Pulled.{pulled_sent, sent_behind}
use jtag.Server.Poll.{poll}
use jtag.Server.Poll.Clients.{polls}
use jtag.Server.Poll.Parts.{kept, with_inbox}
use jtag.Server.Poll.Replies.{Replying, Delivered, polls-Delivered}
use jtag.Server.Poll.Between.{
  Ready, Between, Delivered-Between, arrives, starts_with, stored-packet, poll-takes,
}

-- One reset: a poll takes in the packet, and the simulation takes what is asked for once after this
-- poll and once after each of the next six; further polls follow. The polls behind the first send at
-- least a byte of the response each, while there is some.
unfoldable pub serve_reset : OcdVpiCmd → List ℕ → World → List (Option Pins) × World
serve_reset p ks w =
    let w₁ = poll (record w { inbox = arrives (image p) }) in
    let (pins, w₂) = poll_and_take 6 (record (taken w₁) { sends = taking ks }) in
    (offered w₁ ∷ pins, polls (length (drop 6 ks)) w₂)

-- What a reset comes to.
pub record ServedReset (w : World) (r : List (Option Pins) × World) : Type 0 where
  pub pins : r.0 ≡ replicate 7 (some (reset_pins w.server.signals.pending_mode_select))
  pub wire : r.1.wire ≡ w.wire ++ image (header 0 0 0)
  pub between : Between r.1
  pub mode : r.1.server.signals.pending_mode_select ≡ w.server.signals.pending_mode_select

reset-performed :
    (p : OcdVpiCmd) (w : World)
    → le32_to_host p.cmd_buf ≡ 0
    → of_image w.server.rx.vpi_cmd_rx ≡ p
    → w.server.vpi_minimal_mode ≡ false
    → process_vpi_packet w ≡ on_server (λ s. queue_empty_response 0 (start_reset s)) w
unfolding process_vpi_packet parse_packet perform do_reset
reset-performed p w c e f = ground (arith, ap (λ q. le32_to_host q.cmd_buf) e)

-- Six polls with the simulation, and then the others.
six_pulled :
    (ks : List ℕ) (v : World) (g : Signals) (q : TmsSeq) (f : Bool)
    → Sender ks v
    → q.active ≡ false
    → 6 ≤ length ks
    → let (pins, g') = take_pins 6 g in
      sent_behind (length (drop 6 ks)) (poll_and_take 6 (over g q f v))
      ≡ (pins, over g' q f (polls (length ks) v))
six_pulled (a ∷ b ∷ c ∷ d ∷ e ∷ h ∷ ks) v g q f s n l =
    pulled_sent (a ∷ b ∷ c ∷ d ∷ e ∷ h ∷ []) ks v g q f s n
six_pulled _ v g q f s n l = absurd (omega arith)

module _ (x : ℕ) (xs : Bytes) (ks : List ℕ) (p : OcdVpiCmd) (w : World) (z : IsSized p)
    (reset : le32_to_host p.cmd_buf ≡ 0) (whole : x ∷ xs ≡ image p) (b : Between w)
    (calls : length ks ≡ vpi_pkt_size) where
  -- The server that has taken in the packet.
  abbrev begun : Server
  begun = empty_packet (queue_empty_response 0 (start_reset (store_packet (x ∷ xs) w.server)))

  abbrev pulses : List (Option Pins) × Signals
  pulses = take_pins 7 begun.signals

  -- The world once the simulation has taken the pulses.
  abbrev pulsed : World
  pulsed = record w { inbox = []; server = record begun { signals = pulses.1 }; sends = taking ks }

  poll-resets : poll (with_inbox (arrived x xs ∷ []) w) ≡ record w { inbox = []; server = begun }
  poll-resets =
      poll-takes x xs p z whole w b.receiving b.ready
      ∙ ap (on_server empty_packet) (
          reset-performed p (kept (x ∷ xs) [] w) reset
            (stored-packet x xs p z whole w.server b.ready).0
            (unfold store_packet in b.receiving.full))

  pulses-AllTaken : AllTaken 6 (start_reset (store_packet (x ∷ xs) w.server)).signals pulses
  unfolding empty_packet queue_empty_response
  pulses-AllTaken =
      start_reset-AllTaken (store_packet (x ∷ xs) w.server)
        (unfold store_packet in b.ready.no_toggle)

  pulsed-Replying : Replying pulsed
  unfolding empty_packet queue_empty_response start_reset store_packet
  pulsed-Replying = record {
    connected = b.receiving.connected;
    protocol = b.receiving.protocol;
    full = b.receiving.full;
    resting = b.receiving.resting;
    no_sequence = b.receiving.no_sequence;
    no_scan = b.receiving.no_scan;
    empty = refl;
    silent = refl;
  }

  pulsed-Ready : Ready pulsed.server
  unfolding empty_packet queue_empty_response start_reset store_packet zeros
  pulsed-Ready = record {
    no_bytes = refl;
    rx_size = length-replicate {A = ℕ} 1036 0;
    lsb = b.ready.lsb;
    tms_size = b.ready.tms_size;
    tdi_size = b.ready.tdi_size;
    seq_size = b.ready.seq_size;
    no_pulse = pulses-AllTaken.pulse;
    no_reset = pulses-AllTaken.left;
    no_toggle = pulses-AllTaken.toggle;
    no_fault = (stored-packet x xs p z whole w.server b.ready).1 ∙ b.ready.no_fault;
  }

  pulsed-Delivered : Delivered (length ks) pulsed
  unfolding empty_packet queue_empty_response
  pulsed-Delivered =
      polls-Delivered ks pulsed pulsed-Replying refl refl (header-IsSized 0 0 0) refl
        (omega (arith, calls))

  pulsed-Sender : Sender ks pulsed
  pulsed-Sender = record { replying = pulsed-Replying; script = inr refl }

  pulsed-ServedReset : ServedReset w (pulses.0, polls (length ks) pulsed)
  unfolding empty_packet queue_empty_response start_reset store_packet request_pulse
  pulsed-ServedReset = record {
    pins = pulses-AllTaken.pins;
    wire = pulsed-Delivered.wire;
    between = Delivered-Between (length ks) pulsed pulsed-Replying pulsed-Ready pulsed-Delivered;
    mode =
        ap (λ (s : Server). s.signals.pending_mode_select) pulsed-Delivered.replied.server
        ∙ pulses-AllTaken.mode_kept;
  }

  abbrev finish : World → List (Option Pins) × World
  finish v =
      let (pins, u) = poll_and_take 6 (record (taken v) { sends = taking ks }) in
      (offered v ∷ pins, polls (length (drop 6 ks)) u)

  finish-pulsed :
      finish (record w { inbox = []; server = begun }) ≡ (pulses.0, polls (length ks) pulsed)
  unfolding take_pins
  finish-pulsed =
      let own = pulsed.server in
      let g = (get_pending_signals begun.signals).1 in
      let none_active = pulsed-Replying.no_sequence in
      ap (λ (r : List (Option Pins) × World). (offered (record w { server = begun }) ∷ r.0, r.1))
        (six_pulled ks pulsed g own.tms_seq own.fault pulsed-Sender none_active
          (omega (arith, calls)))
      ∙ ap (λ u. (pulses.0, u))
          (sym (
            (polls_lem ks pulsed pulsed-Sender).apart own.signals own.tms_seq own.fault
              none_active))

  serve_reset-pulsed : serve_reset p ks w ≡ (pulses.0, polls (length ks) pulsed)
  unfolding serve_reset
  serve_reset-pulsed =
      ap (λ bs. finish (poll (record w { inbox = arrives bs }))) (sym whole)
      ∙ ap finish poll-resets
      ∙ finish-pulsed

pub serve_reset-ServedReset :
    (ks : List ℕ) (p : OcdVpiCmd) (w : World)
    → IsSized p
    → le32_to_host p.cmd_buf ≡ 0
    → Between w
    → length ks ≡ vpi_pkt_size
    → ServedReset w (serve_reset p ks w)
serve_reset-ServedReset ks p w z reset b calls =
    let (x, xs, whole) = starts_with (image p) (omega (arith, length-image p z)) in
    rw (serve_reset-pulsed x xs ks p w z reset whole b calls)
      (pulsed-ServedReset x xs ks p w z reset whole b calls)
