-- ===== src/Server/Poll/Edges.antt =====
-- One CMD_OSCAN1 of a client of the full protocol, from the bytes that come in to the bytes that go
-- out.
use jtag.Prelude.{
  ℕ, ◌%◌, ◌≡◌, refl, sym, ap, ap₂, ◌∙◌, true, false, List, [], ◌∷◌, ◌++◌, Option, some, length,
  arith, blit, bit_at, get_or, length-blit, length-replicate,
}
use jtag.Wire.{Bytes, OcdVpiCmd, image, of_image, header, le32_to_host, zeros, vpi_pkt_size}
use jtag.Wire.Layout.{IsSized, header-IsSized, length-image}
use jtag.Socket.{arrived}
use jtag.Server.State.{openocd_vpi, Sf0State, Server, World, on_server}
use jtag.Server.Signals.{Pins, get_pending_signals, update_signals}
use jtag.Server.Connection.{store_packet}
use jtag.Server.Packet.{process_vpi_packet, parse_packet, perform, start_oscan1}
use jtag.Server.Work.{
  empty_packet, continue_vpi_work, flush_tx, sf0_work, falling_edge, answer_oscan1,
}
use jtag.Server.Work.Oscan1.{taken, offered, seen, edge}
use jtag.Server.Work.Transmit.{taking}
use jtag.Server.Poll.{poll}
use jtag.Server.Poll.Clients.{polls}
use jtag.Server.Poll.Parts.{kept, with_inbox}
use jtag.Server.Poll.Replies.{Replying, Delivered, polls-Delivered}
use jtag.Server.Poll.Between.{
  Ready, Between, Delivered-Between, arrives, starts_with, stored-packet, poll-takes,
}

-- The world in which the second edge has been taken and TDO reported, and a poll has answered.
abbrev pub answering : ℕ → World → World
answering tdo w = poll (seen tdo (taken (poll (taken w))))

-- One exchange: a poll takes in the packet, the simulation takes the first edge, a poll asks for
-- the second, which the simulation takes, and reports TDO; a poll queues the response, and others
-- send it, each at least a byte.
unfoldable pub serve_oscan1 : OcdVpiCmd → ℕ → List ℕ → World → List (Option Pins) × World
serve_oscan1 p tdo ks w =
    let w₁ = poll (record w { inbox = arrives (image p) }) in
    (
      offered w₁ ∷ offered (poll (taken w₁)) ∷ [],
      polls (length ks) (record (answering tdo w₁) { sends = taking ks }),
    )

-- The bits of the control byte.
abbrev pub control_bit : OcdVpiCmd → ℕ → ℕ
control_bit p i = bit_at (get_or p.buffer_out 0 0) i

-- An exchange that is to start.
record Edging (tms tdi : ℕ) (w : World) : Type 0 where
  connected : w.server.connected ≡ true
  protocol : w.server.protocol_mode ≡ openocd_vpi
  no_response : w.server.tx.vpi_tx_pending ≡ false
  state : w.server.sf0.state ≡ Sf0State.send_tms
  later : w.server.sf0.tdi ≡ tdi
  mode : w.server.signals.pending_mode_select ≡ 1
  now : w.server.signals.pending_tms ≡ tms
  low : w.server.signals.pending_tdi ≡ 0
  toggle : w.server.signals.pending_tckc_toggle ≡ true
  no_pulse : w.server.signals.pending_tck_pulse ≡ false
  no_reset : w.server.signals.reset_pulses_remaining ≡ 0

-- What it comes to: the edges, and a server that differs in its signals, the exchange and the
-- response.
record Edged (tdo tms tdi : ℕ) (w : World) : Type 0 where
  first : offered w ≡ some (edge tms 0)
  second : offered (poll (taken w)) ≡ some (edge 0 tdi)
  world : answering tdo w ≡ record w {
    server = record w.server {
      signals = (answering tdo w).server.signals;
      sf0 = (answering tdo w).server.sf0;
      tx = record {
        vpi_cmd_tx = record w.server.tx.vpi_cmd_tx {
          buffer_in = blit w.server.tx.vpi_cmd_tx.buffer_in 0 (tdo % 2 ∷ []);
        };
        vpi_tx_bytes = 0;
        vpi_tx_pending = true;
      };
    };
  }
  resting : (answering tdo w).server.sf0.state ≡ Sf0State.resting
  quiet : (answering tdo w).server.signals.pending_tck_pulse ≡ false
  still : (answering tdo w).server.signals.reset_pulses_remaining ≡ 0
  taken_all : (answering tdo w).server.signals.pending_tckc_toggle ≡ false
  mode_kept : (answering tdo w).server.signals.pending_mode_select ≡ 1

Edging-Edged : (tdo tms tdi : ℕ) (w : World) → Edging tms tdi w → Edged tdo tms tdi w
unfolding poll continue_vpi_work flush_tx sf0_work get_pending_signals update_signals falling_edge
    answer_oscan1
Edging-Edged tdo tms tdi w h = ground arith

oscan1-performed :
    (p : OcdVpiCmd) (w : World)
    → le32_to_host p.cmd_buf ≡ 5
    → of_image w.server.rx.vpi_cmd_rx ≡ p
    → w.server.vpi_minimal_mode ≡ false
    → process_vpi_packet w ≡ on_server start_oscan1 w
unfolding process_vpi_packet parse_packet perform
oscan1-performed p w c e f = ground (arith, ap (λ q. le32_to_host q.cmd_buf) e)

-- The response: the lowest TDO bit in the first byte.
abbrev pub edge_answer : ℕ → OcdVpiCmd
edge_answer tdo = record (header 5 1 2) {
  buffer_in = blit (header 5 1 2).buffer_in 0 (tdo % 2 ∷ []);
}

edge_answer-IsSized : (tdo : ℕ) → IsSized (edge_answer tdo)
edge_answer-IsSized tdo =
    let z = header-IsSized 5 1 2 in
    record {
      cmd_size = z.cmd_size;
      out_size = z.out_size;
      in_size = length-blit (header 5 1 2).buffer_in 0 (tdo % 2 ∷ []) ∙ z.in_size;
      length_size = z.length_size;
      nb_bits_size = z.nb_bits_size;
    }

-- What an exchange comes to.
pub record ServedEdges (p : OcdVpiCmd) (tdo : ℕ) (w : World) (r : List (Option Pins) × World)
    : Type 0 where
  pub pins : r.0 ≡ some (edge (control_bit p 1) 0) ∷ some (edge 0 (control_bit p 0)) ∷ []
  pub wire : r.1.wire ≡ w.wire ++ image (edge_answer tdo)
  pub between : Between r.1
  pub mode : r.1.server.signals.pending_mode_select ≡ 1

module _ (x tdo : ℕ) (xs : Bytes) (ks : List ℕ) (p : OcdVpiCmd) (w : World) (z : IsSized p)
    (oscan1 : le32_to_host p.cmd_buf ≡ 5) (whole : x ∷ xs ≡ image p) (b : Between w)
    (calls : length ks ≡ vpi_pkt_size) where
  -- The world that has taken in the packet.
  abbrev edging : World
  edging = record w {
    inbox = [];
    server = empty_packet (start_oscan1 (store_packet (x ∷ xs) w.server));
  }

  poll-edging : poll (with_inbox (arrived x xs ∷ []) w) ≡ edging
  poll-edging =
      poll-takes x xs p z whole w b.receiving b.ready
      ∙ ap (on_server empty_packet) (
          oscan1-performed p (kept (x ∷ xs) [] w) oscan1
            (stored-packet x xs p z whole w.server b.ready).0
            (unfold store_packet in b.receiving.full))

  edging-Edging : Edging (control_bit p 1) (control_bit p 0) edging
  unfolding empty_packet start_oscan1 store_packet
  edging-Edging =
      let q = (stored-packet x xs p z whole w.server b.ready).0 in
      record {
        connected = b.receiving.connected;
        protocol = b.receiving.protocol;
        no_response = refl;
        state = refl;
        later = ap (λ o. control_bit o 0) q;
        mode = refl;
        now = ap (λ o. control_bit o 1) q;
        low = refl;
        toggle = refl;
        no_pulse = b.ready.no_pulse;
        no_reset = b.ready.no_reset;
      }

  edges : Edged tdo (control_bit p 1) (control_bit p 0) edging
  edges = Edging-Edged tdo (control_bit p 1) (control_bit p 0) edging edging-Edging

  -- The world whose response is queued.
  abbrev edged : World
  edged = record w {
    inbox = [];
    server = record edging.server {
      signals = (answering tdo edging).server.signals;
      sf0 = (answering tdo edging).server.sf0;
      tx = record { vpi_cmd_tx = edge_answer tdo; vpi_tx_bytes = 0; vpi_tx_pending = true };
    };
    sends = taking ks;
  }

  answering-edged : record (answering tdo edging) { sends = taking ks } ≡ edged
  unfolding empty_packet start_oscan1
  answering-edged = ap {A = World} {B = World} (λ v. record v { sends = taking ks }) edges.world

  edged-Replying : Replying edged
  unfolding empty_packet start_oscan1 store_packet
  edged-Replying = record {
    connected = b.receiving.connected;
    protocol = b.receiving.protocol;
    full = b.receiving.full;
    resting = edges.resting;
    no_sequence = b.receiving.no_sequence;
    no_scan = b.receiving.no_scan;
    empty = refl;
    silent = refl;
  }

  edged-Ready : Ready edged.server
  unfolding empty_packet start_oscan1 store_packet zeros
  edged-Ready = record {
    no_bytes = refl;
    rx_size = length-replicate {A = ℕ} 1036 0;
    lsb = b.ready.lsb;
    tms_size = b.ready.tms_size;
    tdi_size = b.ready.tdi_size;
    seq_size = b.ready.seq_size;
    no_pulse = edges.quiet;
    no_reset = edges.still;
    no_toggle = edges.taken_all;
    no_fault = (stored-packet x xs p z whole w.server b.ready).1 ∙ b.ready.no_fault;
  }

  edged-Delivered : Delivered (length ks) edged
  edged-Delivered =
      polls-Delivered ks edged edged-Replying refl refl (edge_answer-IsSized tdo) refl
        (omega (arith, calls))

  edged-ServedEdges :
      ServedEdges p tdo w
        (offered edging ∷ offered (poll (taken edging)) ∷ [], polls (length ks) edged)
  edged-ServedEdges = record {
    pins = ap₂ (λ o q. o ∷ q ∷ []) edges.first edges.second;
    wire = edged-Delivered.wire;
    between = Delivered-Between (length ks) edged edged-Replying edged-Ready edged-Delivered;
    mode =
        ap (λ (s : Server). s.signals.pending_mode_select) edged-Delivered.replied.server
        ∙ edges.mode_kept;
  }

  serve_oscan1-edged :
      serve_oscan1 p tdo ks w
      ≡ (offered edging ∷ offered (poll (taken edging)) ∷ [], polls (length ks) edged)
  unfolding serve_oscan1
  serve_oscan1-edged =
      ap (λ bs. finish (poll (record w { inbox = arrives bs }))) (sym whole)
      ∙ ap finish poll-edging
      ∙ ap (λ v. (offered edging ∷ offered (poll (taken edging)) ∷ [], polls (length ks) v))
          answering-edged
    where
      finish : World → List (Option Pins) × World
      finish v = (
        offered v ∷ offered (poll (taken v)) ∷ [],
        polls (length ks) (record (answering tdo v) { sends = taking ks }),
      )

pub serve_oscan1-ServedEdges :
    (tdo : ℕ) (ks : List ℕ) (p : OcdVpiCmd) (w : World)
    → IsSized p
    → le32_to_host p.cmd_buf ≡ 5
    → Between w
    → length ks ≡ vpi_pkt_size
    → ServedEdges p tdo w (serve_oscan1 p tdo ks w)
serve_oscan1-ServedEdges tdo ks p w z oscan1 b calls =
    let (x, xs, whole) = starts_with (image p) (omega (arith, length-image p z)) in
    rw (serve_oscan1-edged x tdo xs ks p w z oscan1 whole b calls)
      (edged-ServedEdges x tdo xs ks p w z oscan1 whole b calls)
