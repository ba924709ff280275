-- ===== src/Server/Poll/Sequencing.antt =====
-- A whole CMD_TMS_SEQ: the polls that take it in, clock its bits out and send its response.
use jtag.Prelude.{
  ℕ, ◌<◌, ◌≤◌, ◌≡◌, refl, sym, ap, ◌∙◌, true, false, List, [], ◌∷◌, ◌++◌, Option, length,
  length-append, arith, inr, blit, take, min, length-blit, length-replicate,
}
use jtag.Wire.{
  Bytes, OcdVpiCmd, image, of_image, header, le32_to_host, zeros, buffer_size, vpi_pkt_size,
}
use jtag.Wire.Layout.{IsSized, header-IsSized, length-image}
use jtag.Socket.{arrived}
use jtag.Server.State.{Signals, TmsSeq, Server, World, on_server}
use jtag.Server.Signals.{Pins}
use jtag.Server.Connection.{store_packet}
use jtag.Server.Packet.{
  process_vpi_packet, parse_packet, perform, start_tms_seq, queue_empty_response,
}
use jtag.Server.Scan.{bytes_of_bits}
use jtag.Server.Work.{empty_packet}
use jtag.Server.Work.TmsSequence.{tms_list, tms_list-blit}
use jtag.Server.Work.Transmit.{taking, flushed, flush_times}
use jtag.Server.Poll.{poll}
use jtag.Server.Poll.Clients.{polls}
use jtag.Server.Poll.Parts.{kept, with_inbox}
use jtag.Server.Poll.Replies.{Replying, Delivered, polls-Delivered}
use jtag.Server.Poll.Between.{
  Ready, Between, Delivered-Between, arrives, starts_with, stored-packet, poll-takes,
}
use jtag.Server.Poll.Overlay.{over, Sender, flush_lem, polls_lem, Between-over}
use jtag.Server.Poll.Sequence.{
  poll_and_take, InSequence, Bits, Sender-flush_times, flush_times-append, sequence-Bits, end_lem,
  poll-bit,
}

-- One sequence: a poll takes in the packet; then the simulation takes a pulse after each of as many
-- polls as `js` has entries, and further polls follow; each sends at least a byte of the response
-- while there is some.
unfoldable pub serve_tms_seq : OcdVpiCmd → List ℕ → List ℕ → World → List (Option Pins) × World
serve_tms_seq p js ks w =
    let w₁ = poll (record w { inbox = arrives (image p) }) in
    let (pins, w₂) = poll_and_take (length js) (record w₁ { sends = taking (js ++ ks) }) in
    (pins, polls (length ks) w₂)

-- What a sequence of `n` bits comes to.
pub record ServedBits (n : ℕ) (p : OcdVpiCmd) (w : World) (r : List (Option Pins) × World)
    : Type 0 where
  pub pins : r.0 ≡ tms_list w.server.signals.pending_mode_select p.buffer_out 0 n
  pub wire : r.1.wire ≡ w.wire ++ image (header 1 0 0)
  pub between : Between r.1
  pub mode : r.1.server.signals.pending_mode_select ≡ w.server.signals.pending_mode_select

-- The polls behind the last bit: the first ends the sequence, and all send.
polls-end :
    (js ks : List ℕ) (n : ℕ) (buf : Bytes) (mode : ℕ) (v : World) (g : Signals) (q : TmsSeq)
    → Sender (js ++ ks) v
    → 0 < length ks
    → InSequence n n buf mode g q
    → polls (length ks) (over g q false (flush_times (length js) v))
      ≡ over g (record q { active = false }) false (polls (length (js ++ ks)) v)
unfolding polls flush_times
polls-end js [] n buf mode v g q s h a = absurd (omega arith)
polls-end js (k ∷ ks) n buf mode v g q s h a =
    let u = flush_times (length js) v in
    let sender = Sender-flush_times js (k ∷ ks) v s in
    let one = flush_lem k ks u sender in
    let ended = over g (record q { active = false }) false in
    ap (polls (length ks))
      (poll-bit k ks u g q false sender a.active a.no_pulse ∙ end_lem n buf mode g q (flushed u) a)
    ∙ (polls_lem ks (flushed u) one.next).apart g (record q { active = false }) false refl
    ∙ ap ended (
        (polls_lem ks (flushed u) one.next).polled
        ∙ flush_times-append js (k ∷ ks) v
        ∙ sym (polls_lem (js ++ k ∷ ks) v s).polled)

seq-performed :
    (n : ℕ) (p : OcdVpiCmd) (w : World)
    → le32_to_host p.cmd_buf ≡ 1
    → le32_to_host p.nb_bits_buf ≡ n
    → of_image w.server.rx.vpi_cmd_rx ≡ p
    → w.server.vpi_minimal_mode ≡ false
    → process_vpi_packet w ≡ on_server (start_tms_seq n) w
unfolding process_vpi_packet parse_packet perform
seq-performed n p w c l e f =
    ground (arith, ap (λ q. le32_to_host q.cmd_buf) e, ap (λ q. le32_to_host q.nb_bits_buf) e)

module _ (x : ℕ) (xs : Bytes) (js ks : List ℕ) (p : OcdVpiCmd) (w : World) (z : IsSized p)
    (command : le32_to_host p.cmd_buf ≡ 1) (bits : le32_to_host p.nb_bits_buf ≡ length js)
    (fits : length js ≤ 4096) (whole : x ∷ xs ≡ image p) (b : Between w)
    (calls : length ks ≡ vpi_pkt_size) where
  abbrev n : ℕ
  n = length js

  abbrev mode : ℕ
  mode = w.server.signals.pending_mode_select

  abbrev with_packet : Server
  with_packet = store_packet (x ∷ xs) w.server

  -- The server that has taken in the packet, the sequence that it has begun, and the world as it
  -- would be without.
  abbrev begun : Server
  begun = empty_packet (start_tms_seq n with_packet)

  abbrev sequence : TmsSeq
  sequence = record {
    active = true;
    num_bits = n;
    bit_index = 0;
    buf =
        blit w.server.tms_seq.buf 0 (
          take (min (bytes_of_bits n) buffer_size) (of_image with_packet.rx.vpi_cmd_rx).buffer_out);
  }

  abbrev base : World
  base = record w {
    inbox = [];
    server = record (empty_packet (queue_empty_response 1 with_packet)) {
      tms_seq = w.server.tms_seq;
      fault = w.server.fault;
    };
    sends = taking (js ++ ks);
  }

  poll-begun : poll (with_inbox (arrived x xs ∷ []) w) ≡ record w { inbox = []; server = begun }
  poll-begun =
      poll-takes x xs p z whole w b.receiving b.ready
      ∙ ap (on_server empty_packet) (
          seq-performed n p (kept (x ∷ xs) [] w) command bits
            (stored-packet x xs p z whole w.server b.ready).0
            (unfold store_packet in b.receiving.full))

  begun-over :
      {s : World}
      → (s ≡ record w { inbox = []; server = begun })
      → record s { sends = taking (js ++ ks) } ≡ over w.server.signals sequence false base
  unfolding empty_packet start_tms_seq queue_empty_response store_packet
  begun-over e =
      let safe : with_packet.fault ≡ false =
        (stored-packet x xs p z whole w.server b.ready).1 ∙ b.ready.no_fault in
      ap (λ (v : World). record v { sends = taking (js ++ ks) }) e
      ∙ ground (arith, safe, b.receiving.full)

  base-Replying : Replying base
  unfolding empty_packet queue_empty_response store_packet
  base-Replying = record {
    connected = b.receiving.connected;
    protocol = b.receiving.protocol;
    full = b.receiving.full;
    resting = b.receiving.resting;
    no_sequence = b.receiving.no_sequence;
    no_scan = b.receiving.no_scan;
    empty = refl;
    silent = refl;
  }

  base-Ready : Ready base.server
  unfolding empty_packet queue_empty_response store_packet zeros
  base-Ready = record {
    no_bytes = refl;
    rx_size = length-replicate {A = ℕ} 1036 0;
    lsb = b.ready.lsb;
    tms_size = b.ready.tms_size;
    tdi_size = b.ready.tdi_size;
    seq_size = b.ready.seq_size;
    no_pulse = b.ready.no_pulse;
    no_reset = b.ready.no_reset;
    no_toggle = b.ready.no_toggle;
    no_fault = b.ready.no_fault;
  }

  base-Sender : Sender (js ++ ks) base
  base-Sender = record { replying = base-Replying; script = inr refl }

  base-Delivered : Delivered (length (js ++ ks)) base
  unfolding empty_packet queue_empty_response
  base-Delivered =
      polls-Delivered (js ++ ks) base base-Replying refl refl (header-IsSized 1 0 0) refl
        (omega (arith, length-append js ks, calls))

  clocked :
      Bits n 0 n sequence.buf mode base
        (poll_and_take n (over w.server.signals sequence false base))
  clocked =
      sequence-Bits js ks 0 n sequence.buf mode base w.server.signals sequence base-Sender
        (omega arith) fits
        (record {
          active = refl;
          index = refl;
          total = refl;
          bits = refl;
          no_pulse = b.ready.no_pulse;
          no_reset = b.ready.no_reset;
          no_toggle = b.ready.no_toggle;
          mode_set = refl;
        })

  -- The sequence behind its last bit, and the world that the polls lead to.
  abbrev done : TmsSeq
  done = record clocked.sequence { active = false }

  abbrev served : World
  served = over clocked.signals done false (polls (length (js ++ ks)) base)

  served-polls :
      polls (length ks) (poll_and_take n (over w.server.signals sequence false base)).1 ≡ served
  served-polls =
      ap (polls (length ks)) clocked.world
      ∙ polls-end js ks n sequence.buf mode base clocked.signals clocked.sequence base-Sender
          (omega (arith, calls)) clocked.at

  sequence-size : length sequence.buf ≡ buffer_size
  sequence-size =
      length-blit w.server.tms_seq.buf 0
        (take (min (bytes_of_bits n) buffer_size) (of_image with_packet.rx.vpi_cmd_rx).buffer_out)
      ∙ b.ready.seq_size

  served-Between : Between served
  served-Between =
      Between-over (polls (length (js ++ ks)) base) clocked.signals done
        (Delivered-Between (length (js ++ ks)) base base-Replying base-Ready base-Delivered) refl
        (ap length clocked.at.bits ∙ sequence-size) clocked.at.no_pulse clocked.at.no_reset
        clocked.at.no_toggle

  -- The pins of the bits as they stand in the packet.
  packet-pins : tms_list mode sequence.buf 0 n ≡ tms_list mode p.buffer_out 0 n
  packet-pins =
      let q = (stored-packet x xs p z whole w.server b.ready).0 in
      let c = min (bytes_of_bits n) buffer_size in
      let sized : length (of_image with_packet.rx.vpi_cmd_rx).buffer_out ≡ buffer_size =
        ap (λ (o : OcdVpiCmd). length o.buffer_out) q ∙ z.out_size in
      tms_list-blit mode w.server.tms_seq.buf (of_image with_packet.rx.vpi_cmd_rx).buffer_out c n 0
        (omega arith) (omega (arith, b.ready.seq_size)) (omega (arith, sized))
      ∙ ap (λ (o : OcdVpiCmd). tms_list mode o.buffer_out 0 n) q

  served-ServedBits :
      ServedBits n p w ((poll_and_take n (over w.server.signals sequence false base)).0, served)
  served-ServedBits = record {
    pins = clocked.pins ∙ packet-pins;
    wire = unfold empty_packet queue_empty_response in base-Delivered.wire;
    between = served-Between;
    mode = clocked.at.mode_set;
  }

  serve_tms_seq-served :
      serve_tms_seq p js ks w
      ≡ ((poll_and_take n (over w.server.signals sequence false base)).0, served)
  unfolding serve_tms_seq
  serve_tms_seq-served =
      ap
        (λ bs.
          finish (record (poll (record w { inbox = arrives bs })) { sends = taking (js ++ ks) }))
        (sym whole)
      ∙ ap finish (begun-over poll-begun)
      ∙ ap (λ v. ((poll_and_take n (over w.server.signals sequence false base)).0, v)) served-polls
    where
      finish : World → List (Option Pins) × World
      finish v = let (pins, w₂) = poll_and_take n v in (pins, polls (length ks) w₂)

pub serve_tms_seq-ServedBits :
    (js ks : List ℕ) (p : OcdVpiCmd) (w : World)
    → IsSized p
    → le32_to_host p.cmd_buf ≡ 1
    → le32_to_host p.nb_bits_buf ≡ length js
    → length js ≤ 4096
    → Between w
    → length ks ≡ vpi_pkt_size
    → ServedBits (length js) p w (serve_tms_seq p js ks w)
serve_tms_seq-ServedBits js ks p w z command bits fits b calls =
    let (x, xs, whole) = starts_with (image p) (omega (arith, length-image p z)) in
    rw (serve_tms_seq-served x xs js ks p w z command bits fits whole b calls)
      (served-ServedBits x xs js ks p w z command bits fits whole b calls)
