-- ===== src/Server/Poll/Parts.antt =====
-- Single polls of a connection of the full protocol while a packet comes in: what a part and what a
-- pause do.
use jtag.Prelude.{
  ℕ, ◌+◌, ◌-◌, ◌<◌, ◌≤◌, ◌≡◌, refl, ap, ◌∙◌, Bool, true, false, not, ◌&&◌, ltb, if◌then◌else◌, List,
  [], ◌∷◌, length, take_all, drop_all, arith,
}
use jtag.Wire.{Bytes, vpi_pkt_size}
use jtag.Socket.{Errno, Event, arrived, failed, Recv, received, recv, peek}
use jtag.Server.State.{openocd_vpi, ScanState, Sf0State, World, on_server}
use jtag.Server.Connection.{
  Flow, stop, go, ◌>>=◌, landed, strict, tolerant, fetch, fetched, store_packet,
}
use jtag.Server.Packet.{process_vpi_packet}
use jtag.Server.Work.{
  flush_tx, sf0_work, tms_work, scan_work, receive_work, packet_work, detect_follow_on, peeked,
  when_packet_full, empty_packet, continue_vpi_work,
}
use jtag.Server.Poll.{poll}

-- A connection of the full protocol with nothing to do but to receive.
pub record Receiving (w : World) : Type 0 where
  pub connected : w.server.connected ≡ true
  pub protocol : w.server.protocol_mode ≡ openocd_vpi
  pub full : w.server.vpi_minimal_mode ≡ false
  pub no_response : w.server.tx.vpi_tx_pending ≡ false
  pub resting : w.server.sf0.state ≡ Sf0State.resting
  pub no_sequence : w.server.tms_seq.active ≡ false
  pub no_scan : w.server.scan.state ≡ ScanState.idle

poll-receives : (w : World) → Receiving w → poll w ≡ landed (packet_work w)
unfolding poll continue_vpi_work flush_tx sf0_work tms_work scan_work receive_work
poll-receives w r = ground arith

-- A part that fits is taken whole.
pub recv-part :
    (n x : ℕ) (xs : Bytes) (es : List Event)
    → length (x ∷ xs) ≤ n
    → recv n (arrived x xs ∷ es) ≡ (received (x ∷ xs), es)
unfolding recv
recv-part n x xs es h = rw (take_all n (x ∷ xs) h, drop_all n (x ∷ xs) h) refl

-- What is left of a pass once the header is there.
abbrev pub later : World → Flow
later w = do
  w₃ ← detect_follow_on w
  w₄ ←
      if not w₃.server.vpi_minimal_mode && ltb w₃.server.rx.vpi_rx_bytes vpi_pkt_size
      then (fetch tolerant (vpi_pkt_size - w₃.server.rx.vpi_rx_bytes) store_packet w₃ >>= λ w.
          when_packet_full w)
      else go w₃
  stop (on_server empty_packet (process_vpi_packet w₄))

packet_work-later : (w : World) → 8 ≤ w.server.rx.vpi_rx_bytes → packet_work w ≡ later w
unfolding packet_work
packet_work-later w h = ground arith

-- The world with this to come on its connection.
abbrev pub with_inbox : List Event → World → World
with_inbox es w = record w { inbox = es }

-- Behind more than a header, neither a part nor a pause says that the command is a short one.
detect-goes :
    (w : World)
    → w.server.vpi_minimal_mode ≡ false
    → 8 < w.server.rx.vpi_rx_bytes
    → w.server.rx.vpi_rx_bytes < vpi_pkt_size
    → (x : ℕ) (xs : Bytes) (es : List Event)
    → (detect_follow_on (with_inbox (arrived x xs ∷ es) w) ≡ go (with_inbox (arrived x xs ∷ es) w))
      × (detect_follow_on (with_inbox (failed Errno.eagain ∷ es) w) ≡ go (with_inbox es w))
unfolding detect_follow_on peeked peek
detect-goes w f l u x xs es = (ground arith, ground arith)

-- What a pass does with the bytes that it has read.
abbrev pub kept : Bytes → List Event → World → World
kept xs es w = record w { inbox = es; server = store_packet xs w.server }

abbrev pub finish : World → Flow
finish w = when_packet_full w >>= λ w'. stop (on_server empty_packet (process_vpi_packet w'))

fetch-part :
    (fatal : Errno → Bool) (n x : ℕ) (xs : Bytes) (es : List Event) (w : World)
    → length (x ∷ xs) ≤ n
    → fetch fatal n store_packet (with_inbox (arrived x xs ∷ es) w) ≡ go (kept (x ∷ xs) es w)
unfolding fetch fetched
fetch-part fatal n x xs es w h =
    ap (λ (r : Recv × List Event). fetched fatal store_packet r.0 (with_inbox r.1 w))
      (recv-part n x xs es h)

fetch-gap :
    (n : ℕ) (es : List Event) (w : World)
    → fetch tolerant n store_packet (with_inbox (failed Errno.eagain ∷ es) w)
      ≡ stop (with_inbox es w)
unfolding fetch fetched recv
fetch-gap n es w = refl

module _ (w : World) (f : w.server.vpi_minimal_mode ≡ false) (l : 8 < w.server.rx.vpi_rx_bytes)
    (u : w.server.rx.vpi_rx_bytes < vpi_pkt_size) where
  pub later-part :
      (x : ℕ) (xs : Bytes) (es : List Event)
      → w.server.rx.vpi_rx_bytes + length (x ∷ xs) ≤ vpi_pkt_size
      → (later (with_inbox (arrived x xs ∷ es) w) ≡ finish (kept (x ∷ xs) es w))
        × (later (with_inbox (failed Errno.eagain ∷ arrived x xs ∷ es) w)
            ≡ finish (kept (x ∷ xs) es w))
  later-part x xs es h =
      let part =
        fetch-part tolerant (vpi_pkt_size - w.server.rx.vpi_rx_bytes) x xs es w (omega arith) in
      let goes = detect-goes w f l u x xs es in
      let gap = detect-goes w f l u x xs (arrived x xs ∷ es) in
      (ground (arith, goes, part), ground (arith, gap, part))

  pub later-gaps :
      (es : List Event)
      → later (with_inbox (failed Errno.eagain ∷ failed Errno.eagain ∷ es) w)
        ≡ stop (with_inbox es w)
  later-gaps es =
      let gap = detect-goes w f l u 0 [] (failed Errno.eagain ∷ es) in
      let next = fetch-gap (vpi_pkt_size - w.server.rx.vpi_rx_bytes) es w in
      ground (arith, gap, next)

pub kept-Receiving :
    (xs : Bytes) (es : List Event) (w : World) → Receiving w → Receiving (kept xs es w)
unfolding store_packet
kept-Receiving xs es w r = record {
  connected = r.connected;
  protocol = r.protocol;
  full = r.full;
  no_response = r.no_response;
  resting = r.resting;
  no_sequence = r.no_sequence;
  no_scan = r.no_scan;
}

pub inbox-Receiving : (es : List Event) (w : World) → Receiving w → Receiving (with_inbox es w)
inbox-Receiving es w r = record {
  connected = r.connected;
  protocol = r.protocol;
  full = r.full;
  no_response = r.no_response;
  resting = r.resting;
  no_sequence = r.no_sequence;
  no_scan = r.no_scan;
}

-- A pass that has kept a part waits for more, or has the whole packet.
pub finish-waits : (w : World) → w.server.rx.vpi_rx_bytes < vpi_pkt_size → landed (finish w) ≡ w
finish-waits w h = ground arith

pub finish-whole :
    (w : World)
    → vpi_pkt_size ≤ w.server.rx.vpi_rx_bytes
    → landed (finish w) ≡ on_server empty_packet (process_vpi_packet w)
finish-whole w h = ground arith

pub count-kept :
    (xs : Bytes) (es : List Event) (w : World)
    → w.server.rx.vpi_rx_bytes + length xs ≤ vpi_pkt_size
    → (kept xs es w).server.rx.vpi_rx_bytes ≡ w.server.rx.vpi_rx_bytes + length xs
unfolding store_packet
count-kept xs es w h = omega arith

-- A poll behind the header, by what `later` does.
pub poll-later :
    (es : List Event) (w : World) (fl : Flow)
    → Receiving w
    → 8 < w.server.rx.vpi_rx_bytes
    → later (with_inbox es w) ≡ fl
    → poll (with_inbox es w) ≡ landed fl
poll-later es w fl r l e =
    poll-receives (with_inbox es w) (inbox-Receiving es w r)
    ∙ ap landed (packet_work-later (with_inbox es w) (omega arith) ∙ e)

first_pass :
    (x : ℕ) (xs : Bytes) (es : List Event) (w : World)
    → w.server.rx.vpi_rx_bytes ≡ 0
    → fetch strict
        (vpi_pkt_size - w.server.rx.vpi_rx_bytes)
        store_packet
        (with_inbox (arrived x xs ∷ es) w)
      ≡ go (kept (x ∷ xs) es w)
    → 8 < (kept (x ∷ xs) es w).server.rx.vpi_rx_bytes
    → packet_work (with_inbox (arrived x xs ∷ es) w) ≡ later (kept (x ∷ xs) es w)
unfolding packet_work
first_pass x xs es w z e l = ground arith

-- The first poll, which reads the header as well.
pub first_poll :
    (x : ℕ) (xs : Bytes) (es : List Event) (w : World)
    → Receiving w
    → w.server.rx.vpi_rx_bytes ≡ 0
    → 8 < length (x ∷ xs)
    → length (x ∷ xs) ≤ vpi_pkt_size
    → poll (with_inbox (arrived x xs ∷ es) w) ≡ landed (later (kept (x ∷ xs) es w))
first_poll x xs es w r z l h =
    let w₀ = with_inbox (arrived x xs ∷ es) w in
    let part =
      fetch-part strict (vpi_pkt_size - w.server.rx.vpi_rx_bytes) x xs es w (omega arith) in
    let count = count-kept (x ∷ xs) es w (omega arith) in
    poll-receives w₀ (inbox-Receiving (arrived x xs ∷ es) w r)
    ∙ ap landed (first_pass x xs es w z part (omega (arith, count)))

pub later-whole : (w : World) → w.server.rx.vpi_rx_bytes ≡ vpi_pkt_size → later w ≡ finish w
unfolding detect_follow_on
later-whole w h = ground arith
