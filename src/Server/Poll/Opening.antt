-- ===== src/Server/Poll/Opening.antt =====
-- The first packet of a client, by which `poll` finds out that it speaks the full protocol.
use jtag.Prelude.{
  ℕ, ◌-◌, ◌≡◌, refl, sym, ap, ◌∙◌, true, false, List, [], ◌∷◌, ◌++◌, length, arith, blit, blit-blit,
  blit_whole,
}
use jtag.Wire.{Bytes, OcdVpiCmd, image, zeros, minimal_size, vpi_pkt_size}
use jtag.Wire.Layout.{IsSized, length-image}
use jtag.Socket.{Event, arrived, recv, Recv, peek}
use jtag.Server.State.{ScanState, Sf0State, unknown, openocd_vpi, Server, World, on_server}
use jtag.Server.Connection.{go, landed, strict, fetch, fetched, store_minimal, store_packet}
use jtag.Server.Packet.{process_vpi_packet}
use jtag.Server.Work.{empty_packet}
use jtag.Server.Poll.{poll, poll_idle, detect_protocol, choose_protocol, serve, first_packet}
use jtag.Server.Poll.Between.{Ready, Between, arrives, poll-takes}
use jtag.Server.Poll.Parts.{Receiving, with_inbox, recv-part}

-- A client that has been accepted, and of which nothing has come in.
pub record Fresh (w : World) : Type 0 where
  pub connected : w.server.connected ≡ true
  pub protocol : w.server.protocol_mode ≡ unknown
  pub no_response : w.server.tx.vpi_tx_pending ≡ false
  pub resting : w.server.sf0.state ≡ Sf0State.resting
  pub no_sequence : w.server.tms_seq.active ≡ false
  pub no_scan : w.server.scan.state ≡ ScanState.idle
  pub silent : w.inbox ≡ []
  pub no_bytes : w.server.rx.minimal_rx_bytes ≡ 0
  pub minimal_sized : length w.server.rx.minimal_cmd_rx ≡ minimal_size

-- The server once it knows.
abbrev pub opened : Server → Server
opened s = record s {
  protocol_mode = openocd_vpi;
  vpi_minimal_mode = false;
  rx = record s.rx { minimal_rx_bytes = 0; minimal_cmd_rx = zeros minimal_size };
}

known-Ready : {s : Server} → Ready s → Ready (opened s)
known-Ready r = record {
  no_bytes = r.no_bytes;
  rx_size = r.rx_size;
  lsb = r.lsb;
  tms_size = r.tms_size;
  tdi_size = r.tdi_size;
  seq_size = r.seq_size;
  no_pulse = r.no_pulse;
  no_reset = r.no_reset;
  no_toggle = r.no_toggle;
  no_fault = r.no_fault;
}

module _ (x a b c d e f g y : ℕ) (ys : Bytes) (w : World) (o : Fresh w) where
  abbrev eight : Bytes
  eight = x ∷ a ∷ b ∷ c ∷ d ∷ e ∷ f ∷ g ∷ []

  abbrev bytes : Bytes
  bytes = eight ++ y ∷ ys

  abbrev headed : World
  headed = record w { inbox = arrived y ys ∷ []; server = store_minimal eight w.server }

  fetch-eight :
      fetch strict
        (minimal_size - w.server.rx.minimal_rx_bytes)
        store_minimal
        (with_inbox (arrived x (a ∷ b ∷ c ∷ d ∷ e ∷ f ∷ g ∷ y ∷ ys) ∷ []) w)
      ≡ go headed
  unfolding fetch fetched recv
  fetch-eight =
      ap
        (λ n.
          fetched strict store_minimal
            (recv n (arrived x (a ∷ b ∷ c ∷ d ∷ e ∷ f ∷ g ∷ y ∷ ys) ∷ [])).0
            (with_inbox (recv n (arrived x (a ∷ b ∷ c ∷ d ∷ e ∷ f ∷ g ∷ y ∷ ys) ∷ [])).1 w))
        {x = minimal_size - w.server.rx.minimal_rx_bytes} {y = 8} (omega (arith, o.no_bytes))

  abbrev chosen : World
  chosen = on_server (choose_protocol (peek 16 (arrived y ys ∷ [])).0) headed

  detect-chosen :
      detect_protocol (with_inbox (arrived x (a ∷ b ∷ c ∷ d ∷ e ∷ f ∷ g ∷ y ∷ ys) ∷ []) w)
      ≡ go chosen
  unfolding detect_protocol store_minimal peek
  detect-chosen = ground (arith, fetch-eight, o.no_bytes)

  module _ (r : Ready w.server) (size : length bytes ≡ vpi_pkt_size) where
    abbrev known : World
    known = record w { server = opened w.server }

    -- The whole packet is in the buffer, as if it had come after the detection.
    chosen-known : store_packet (y ∷ ys) chosen.server ≡ store_packet bytes known.server
    unfolding choose_protocol store_minimal store_packet peek
    chosen-known = ground (
      arith,
      size,
      o.no_bytes,
      r.no_bytes,
      r.no_fault,
      ap (λ n. blit w.server.rx.minimal_cmd_rx n eight) o.no_bytes
          ∙ blit_whole w.server.rx.minimal_cmd_rx eight (sym o.minimal_sized),
      ap (λ n. blit w.server.rx.vpi_cmd_rx n bytes) r.no_bytes
          ∙ sym (blit-blit w.server.rx.vpi_cmd_rx 0 eight (y ∷ ys)),
    )

    fetch-rest :
        fetch strict (vpi_pkt_size - chosen.server.rx.vpi_rx_bytes) store_packet chosen
        ≡ go (record w { inbox = []; server = store_packet (y ∷ ys) chosen.server })
    unfolding fetch fetched choose_protocol peek
    fetch-rest =
        ap (λ (q : Recv × List Event). fetched strict store_packet q.0 (with_inbox q.1 chosen))
          (recv-part (vpi_pkt_size - chosen.server.rx.vpi_rx_bytes) y ys [] (omega (arith, size)))

    abbrev filled : World
    filled = record w { inbox = []; server = store_packet (y ∷ ys) chosen.server }

    header_there : chosen.server.rx.vpi_rx_bytes ≡ 8
    unfolding choose_protocol peek
    header_there = refl

    packet_there : filled.server.rx.vpi_rx_bytes ≡ vpi_pkt_size
    unfolding choose_protocol peek store_packet
    packet_there = omega (arith, size)

    first_packet-filled :
        landed (first_packet chosen) ≡ on_server empty_packet (process_vpi_packet filled)
    unfolding first_packet
    first_packet-filled = ground (arith, fetch-rest, header_there, packet_there)

    poll-chosen :
        poll (with_inbox (arrived x (a ∷ b ∷ c ∷ d ∷ e ∷ f ∷ g ∷ y ∷ ys) ∷ []) w)
        ≡ landed (first_packet chosen)
    unfolding poll poll_idle serve choose_protocol peek
    poll-chosen = ground (arith, detect-chosen, o.connected, o.protocol, o.no_scan)

    pub poll-known :
        (p : OcdVpiCmd)
        → IsSized p
        → bytes ≡ image p
        → Receiving known
        → poll (with_inbox (arrives bytes) w) ≡ poll (with_inbox (arrives bytes) known)
    poll-known p z whole q =
        poll-chosen
        ∙ first_packet-filled
        ∙ ap
            (λ s. on_server empty_packet (process_vpi_packet (record w { inbox = []; server = s })))
            chosen-known
        ∙ sym (poll-takes x (a ∷ b ∷ c ∷ d ∷ e ∷ f ∷ g ∷ y ∷ ys) p z whole known q (known-Ready r))

pub known-Between :
    (w : World) → Fresh w → Ready w.server → Between (record w { server = opened w.server })
known-Between w o r = record {
  receiving = record {
    connected = o.connected;
    protocol = refl;
    full = refl;
    no_response = o.no_response;
    resting = o.resting;
    no_sequence = o.no_sequence;
    no_scan = o.no_scan;
  };
  silent = o.silent;
  ready = known-Ready r;
}

opens-bytes :
    (bs : Bytes) (p : OcdVpiCmd) (w : World)
    → IsSized p
    → bs ≡ image p
    → length bs ≡ vpi_pkt_size
    → Fresh w
    → Ready w.server
    → poll (with_inbox (arrives bs) w)
      ≡ poll (with_inbox (arrives bs) (record w { server = opened w.server }))
opens-bytes [] p w z whole l o r = absurd (omega (arith, l))
opens-bytes (x ∷ []) p w z whole l o r = absurd (omega (arith, l))
opens-bytes (x ∷ a ∷ []) p w z whole l o r = absurd (omega (arith, l))
opens-bytes (x ∷ a ∷ b ∷ []) p w z whole l o r = absurd (omega (arith, l))
opens-bytes (x ∷ a ∷ b ∷ c ∷ []) p w z whole l o r = absurd (omega (arith, l))
opens-bytes (x ∷ a ∷ b ∷ c ∷ d ∷ []) p w z whole l o r = absurd (omega (arith, l))
opens-bytes (x ∷ a ∷ b ∷ c ∷ d ∷ e ∷ []) p w z whole l o r = absurd (omega (arith, l))
opens-bytes (x ∷ a ∷ b ∷ c ∷ d ∷ e ∷ f ∷ []) p w z whole l o r = absurd (omega (arith, l))
opens-bytes (x ∷ a ∷ b ∷ c ∷ d ∷ e ∷ f ∷ g ∷ []) p w z whole l o r = absurd (omega (arith, l))
opens-bytes (x ∷ a ∷ b ∷ c ∷ d ∷ e ∷ f ∷ g ∷ y ∷ ys) p w z whole l o r =
    poll-known x a b c d e f g y ys w o r l p z whole (known-Between w o r).receiving

-- The first packet of a client, in one piece, is taken like any other of the full protocol.
pub opens :
    (p : OcdVpiCmd) (w : World)
    → IsSized p
    → Fresh w
    → Ready w.server
    → poll (with_inbox (arrives (image p)) w)
      ≡ poll (with_inbox (arrives (image p)) (record w { server = opened w.server }))
opens p w z = opens-bytes (image p) p w z refl (length-image p z)
