-- ===== src/Server/Poll/Between.antt =====
-- A connection of the full protocol between two commands: how it takes in the next packet, and that
-- the sending of a response leads back to it.
use jtag.Prelude.{ℕ, ◌<◌, ◌≡◌, refl, ap, ◌∙◌, false, List, [], ◌∷◌, length, arith, append-nil}
use jtag.Wire.{Bytes, OcdVpiCmd, image, of_image, buffer_size, vpi_pkt_size}
use jtag.Wire.Layout.{IsSized, length-image}
use jtag.Socket.{Event, arrived}
use jtag.Server.State.{Server, World, on_server}
use jtag.Server.Connection.{store_packet, landed}
use jtag.Server.Connection.Reassembly.{packet_reassembled, store_all}
use jtag.Server.Packet.{process_vpi_packet}
use jtag.Server.Work.{empty_packet}
use jtag.Server.Poll.{poll}
use jtag.Server.Poll.Clients.{polls}
use jtag.Server.Poll.Parts.{
  Receiving, kept, with_inbox, first_poll, later-whole, finish-whole, count-kept,
}
use jtag.Server.Poll.Replies.{Replying, Delivered}

-- A server between the commands of a client that sends the least significant bits first.
pub record Ready (s : Server) : Type 0 where
  pub no_bytes : s.rx.vpi_rx_bytes ≡ 0
  pub rx_size : length s.rx.vpi_cmd_rx ≡ vpi_pkt_size
  pub lsb : s.msb_first ≡ false
  pub tms_size : length s.scan.tms_buf ≡ buffer_size
  pub tdi_size : length s.scan.tdi_buf ≡ buffer_size
  pub seq_size : length s.tms_seq.buf ≡ buffer_size
  pub no_pulse : s.signals.pending_tck_pulse ≡ false
  pub no_reset : s.signals.reset_pulses_remaining ≡ 0
  pub no_toggle : s.signals.pending_tckc_toggle ≡ false
  pub no_fault : s.fault ≡ false

-- A connection between two commands.
pub record Between (w : World) : Type 0 where
  pub receiving : Receiving w
  pub silent : w.inbox ≡ []
  pub ready : Ready w.server

Ready-tx :
    (s : Server) (f : Server → Server) → Ready s → (f s ≡ record s { tx = (f s).tx }) → Ready (f s)
Ready-tx s f r e = rw e (record {
  no_bytes = r.no_bytes;
  rx_size = r.rx_size;
  lsb = r.lsb;
  tms_size = r.tms_size;
  tdi_size = r.tdi_size;
  seq_size = r.seq_size;
  no_pulse = r.no_pulse;
  no_reset = r.no_reset;
  no_toggle = r.no_toggle;
  no_fault = r.no_fault;
})

-- A connection whose response has gone out is ready for the next command.
pub Delivered-Between :
    (n : ℕ) (w : World) → Replying w → Ready w.server → Delivered n w → Between (polls n w)
Delivered-Between n w q r d =
    let e = d.replied.server in
    record {
      receiving = record {
        connected = ap (λ (s : Server). s.connected) e ∙ q.connected;
        protocol = ap (λ (s : Server). s.protocol_mode) e ∙ q.protocol;
        full = ap (λ (s : Server). s.vpi_minimal_mode) e ∙ q.full;
        no_response = d.done;
        resting = ap (λ (s : Server). s.sf0.state) e ∙ q.resting;
        no_sequence = ap (λ (s : Server). s.tms_seq.active) e ∙ q.no_sequence;
        no_scan = ap (λ (s : Server). s.scan.state) e ∙ q.no_scan;
      };
      silent = d.replied.inbox ∙ q.silent;
      ready = Ready-tx w.server (λ s. (polls n w).server) r e;
    }

-- The bytes of a packet that come in one piece.
abbrev pub arrives : Bytes → List Event
arrives [] = []
arrives (x ∷ xs) = arrived x xs ∷ []

pub starts_with : (bs : Bytes) → 0 < length bs → (x : ℕ) × (xs : Bytes) × (x ∷ xs ≡ bs)
starts_with [] h = absurd (omega arith)
starts_with (b ∷ bs) h = (b, bs, refl)

module _ (x : ℕ) (xs : Bytes) (p : OcdVpiCmd) (z : IsSized p) (whole : x ∷ xs ≡ image p) where
  size : length (x ∷ xs) ≡ vpi_pkt_size
  size = ap length whole ∙ length-image p z

  pub stored-packet :
      (s : Server)
      → Ready s
      → (of_image (store_packet (x ∷ xs) s).rx.vpi_cmd_rx ≡ p)
        × ((store_packet (x ∷ xs) s).fault ≡ s.fault)
  unfolding store_all
  stored-packet s r =
      let q =
        packet_reassembled p ((x ∷ xs) ∷ []) s z (append-nil (x ∷ xs) ∙ whole) r.no_bytes
          r.rx_size in
      (q.0, q.2)

  -- A packet that comes in one piece is processed by the next poll.
  pub poll-takes :
      (w : World)
      → Receiving w
      → Ready w.server
      → poll (with_inbox (arrived x xs ∷ []) w)
        ≡ on_server empty_packet (process_vpi_packet (kept (x ∷ xs) [] w))
  poll-takes w q r =
      let w₁ = kept (x ∷ xs) [] w in
      let count = count-kept (x ∷ xs) [] w (omega (arith, size, r.no_bytes)) in
      let full : w₁.server.rx.vpi_rx_bytes ≡ vpi_pkt_size =
        omega (arith, count, size, r.no_bytes) in
      first_poll x xs [] w q r.no_bytes (omega (arith, size)) (omega (arith, size))
      ∙ ap landed (later-whole w₁ full)
      ∙ finish-whole w₁ (omega (arith, full))
