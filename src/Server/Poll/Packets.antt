-- ===== src/Server/Poll/Packets.antt =====
-- A packet of the full protocol that comes in parts, over polls.
use jtag.Prelude.{
  ℕ, suc, ◌+◌, ◌<◌, ◌≤◌, ◌≡◌, refl, sym, ap, ◌∙◌, ltb, List, [], ◌∷◌, ◌++◌, length, length-append,
  arith, map, Bool-cases, inl, inr,
}
use jtag.Wire.{Bytes, OcdVpiCmd, image, of_image, vpi_pkt_size}
use jtag.Socket.{Errno, Event, arrived, failed}
use jtag.Server.State.{Rx, Server, World, on_server}
use jtag.Server.Connection.{stop, landed, store_packet}
use jtag.Wire.Layout.{IsSized, length-image}
use jtag.Server.Connection.Reassembly.{store_all, joined, packet_reassembled}
use jtag.Server.Packet.{process_vpi_packet}
use jtag.Server.Work.{empty_packet}
use jtag.Server.Poll.{poll}
use jtag.Server.Poll.Clients.{polls}
use jtag.Server.Poll.Parts.{
  Receiving, later, with_inbox, kept, finish, later-part, later-gaps, kept-Receiving, finish-waits,
  finish-whole, count-kept, poll-later, first_poll, later-whole,
}

-- What happens on the connection while a packet comes in: nothing for a while, or some bytes.
pub data Arrival : Type 0 where
  pause : Arrival
  part : ℕ → Bytes → Arrival

abbrev pub event : Arrival → Event
event pause = failed Errno.eagain
event (part x xs) = arrived x xs

-- The bytes that come.
abbrev pub brought : List Arrival → Bytes
brought [] = []
brought (pause ∷ ars) = brought ars
brought (part x xs ∷ ars) = (x ∷ xs) ++ brought ars

-- After one more poll than so many, and `m` at most, the packet that these bytes make up has been
-- processed, at a world whose server has kept them in parts.
pub record Processed (m : ℕ) (bytes : Bytes) (w : World) : Type 0 where
  pub polls_before : ℕ
  pub in_time : polls_before < m
  pub rest : List Event
  pub parts : List Bytes
  pub whole : joined parts ≡ bytes
  pub ends :
      polls (suc polls_before) w
      ≡ on_server empty_packet
          (process_vpi_packet (record w { inbox = rest; server = store_all parts w.server }))

length-nil : (bs : Bytes) → length bs ≡ 0 → bs ≡ []
length-nil [] h = refl
length-nil (b ∷ bs) h = absurd (omega arith)

-- How the rest of a packet is collected, once a part of it has come.
abbrev Collects : List Arrival → Type 0
Collects ars =
    (w : World)
    → Receiving w
    → 8 < w.server.rx.vpi_rx_bytes
    → w.server.rx.vpi_rx_bytes < vpi_pkt_size
    → w.server.rx.vpi_rx_bytes + length (brought ars) ≡ vpi_pkt_size
    → Processed (length ars) (brought ars) (with_inbox (map event ars) w)

after_part :
    (m x : ℕ) (xs : Bytes) (ars : List Arrival) (es : List Event) (w : World)
    → poll (with_inbox es w) ≡ landed (finish (kept (x ∷ xs) (map event ars) w))
    → Receiving w
    → 8 < w.server.rx.vpi_rx_bytes + length (x ∷ xs)
    → w.server.rx.vpi_rx_bytes + length ((x ∷ xs) ++ brought ars) ≡ vpi_pkt_size
    → Collects ars
    → length ars < m
    → Processed m ((x ∷ xs) ++ brought ars) (with_inbox es w)
unfolding polls store_all
after_part m x xs ars es w e r l h ih lt =
    let n = w.server.rx.vpi_rx_bytes in
    let size = length-append (x ∷ xs) (brought ars) in
    let w₁ = kept (x ∷ xs) (map event ars) w in
    let count = count-kept (x ∷ xs) (map event ars) w (omega (arith, size)) in
    elim (Bool-cases (ltb (n + length (x ∷ xs)) vpi_pkt_size)) [
      | inl less ↦
          let short : n + length (x ∷ xs) < vpi_pkt_size = ground arith in
          let more =
            ih w₁ (kept-Receiving (x ∷ xs) (map event ars) w r) (omega (arith, count))
              (omega (arith, count)) (omega (arith, count, size)) in
          record {
            polls_before = suc more.polls_before;
            in_time = omega (arith, more.in_time);
            rest = more.rest;
            parts = (x ∷ xs) ∷ more.parts;
            whole = ap (λ ys. (x ∷ xs) ++ ys) more.whole;
            ends =
                ap (polls (suc more.polls_before)) (e ∙ finish-waits w₁ (omega (arith, count)))
                ∙ more.ends;
          }
      | inr full ↦
          let long : vpi_pkt_size ≤ n + length (x ∷ xs) = ground arith in
          let none_left : brought ars ≡ [] = length-nil (brought ars) (omega (arith, size)) in
          record {
            polls_before = 0;
            in_time = omega arith;
            rest = map event ars;
            parts = (x ∷ xs) ∷ [];
            whole = ap (λ ys. (x ∷ xs) ++ ys) (sym none_left);
            ends = e ∙ finish-whole w₁ (omega (arith, count));
          }
    ]

collect : (ars : List Arrival) → Collects ars
unfolding polls
collect [] w r l u h = absurd (omega arith)
collect (pause ∷ []) w r l u h = absurd (omega arith)
collect (pause ∷ pause ∷ ars) w r l u h =
    let more = collect ars w r l u h in
    let es = map event ars in
    record {
      polls_before = suc more.polls_before;
      in_time = omega (arith, more.in_time);
      rest = more.rest;
      parts = more.parts;
      whole = more.whole;
      ends =
          ap (polls (suc more.polls_before)) (
            poll-later (event pause ∷ event pause ∷ es) w (stop (with_inbox es w)) r l
              (later-gaps w r.full l u es))
          ∙ more.ends;
    }
collect (pause ∷ part x xs ∷ ars) w r l u h =
    let es = map event ars in
    let size = length-append (x ∷ xs) (brought ars) in
    after_part (suc (suc (length ars))) x xs ars (event pause ∷ arrived x xs ∷ es) w
      (poll-later (event pause ∷ arrived x xs ∷ es) w (finish (kept (x ∷ xs) es w)) r l
        (later-part w r.full l u x xs es (omega (arith, size))).1)
      r (omega arith) h (collect ars) (omega arith)
collect (part x xs ∷ ars) w r l u h =
    let es = map event ars in
    let size = length-append (x ∷ xs) (brought ars) in
    after_part (suc (length ars)) x xs ars (arrived x xs ∷ es) w
      (poll-later (arrived x xs ∷ es) w (finish (kept (x ∷ xs) es w)) r l
        (later-part w r.full l u x xs es (omega (arith, size))).0)
      r (omega arith) h (collect ars) (omega arith)

collect_all :
    (x : ℕ) (xs : Bytes) (ars : List Arrival) (w : World)
    → Receiving w
    → w.server.rx.vpi_rx_bytes ≡ 0
    → 8 < length (x ∷ xs)
    → length ((x ∷ xs) ++ brought ars) ≡ vpi_pkt_size
    → Processed
        (suc (length ars))
        ((x ∷ xs) ++ brought ars)
        (with_inbox (arrived x xs ∷ map event ars) w)
unfolding polls store_all
collect_all x xs ars w r z l h =
    let es = map event ars in
    let size = length-append (x ∷ xs) (brought ars) in
    let w₁ = kept (x ∷ xs) es w in
    let count = count-kept (x ∷ xs) es w (omega (arith, size)) in
    let first = first_poll x xs es w r z l (omega (arith, size)) in
    elim (Bool-cases (ltb (length (x ∷ xs)) vpi_pkt_size)) [
      | inl less ↦
          let short : length (x ∷ xs) < vpi_pkt_size = ground arith in
          let more =
            collect ars w₁ (kept-Receiving (x ∷ xs) es w r) (omega (arith, count))
              (omega (arith, count)) (omega (arith, count, size)) in
          let same =
            poll-later es w₁ (later w₁) (kept-Receiving (x ∷ xs) es w r) (omega (arith, count))
              refl in
          record {
            polls_before = more.polls_before;
            in_time = omega (arith, more.in_time);
            rest = more.rest;
            parts = (x ∷ xs) ∷ more.parts;
            whole = ap (λ ys. (x ∷ xs) ++ ys) more.whole;
            ends = ap (polls more.polls_before) (first ∙ sym same) ∙ more.ends;
          }
      | inr full ↦
          let long : vpi_pkt_size ≤ length (x ∷ xs) = ground arith in
          after_part (suc (length ars)) x xs ars (arrived x xs ∷ es) w
            (first ∙ ap landed (later-whole w₁ (omega (arith, count, size)))) r (omega arith)
            (omega arith) (collect ars) (omega arith)
    ]

store_all-keeps :
    (cs : List Bytes) (s : Server)
    → store_all cs s ≡ record s { rx = (store_all cs s).rx; fault = (store_all cs s).fault }
unfolding store_all store_packet
store_all-keeps [] s = refl
store_all-keeps (c ∷ cs) s = store_all-keeps cs (store_packet c s)

-- A packet of the full protocol is processed once and whole however it comes in: if the server has
-- nothing else to do and the 1036 bytes arrive in any parts, with any pauses between them, more
-- than 8 of them first, then after as many polls as there are parts and pauses, or fewer, the
-- server is the one that has processed the command with the fields of this packet, from a state
-- that differs from the first in the receive buffers alone, and has emptied its buffer.
pub packet_processed :
    (p : OcdVpiCmd) (x : ℕ) (xs : Bytes) (ars : List Arrival) (w : World)
    → IsSized p
    → (x ∷ xs) ++ brought ars ≡ image p
    → 8 < length (x ∷ xs)
    → Receiving w
    → w.server.rx.vpi_rx_bytes ≡ 0
    → length w.server.rx.vpi_cmd_rx ≡ vpi_pkt_size
    → (k : ℕ) × (k ≤ length ars)
      × (rest : List Event) × (rx : Rx) × (polls
            (suc k)
            (record w { inbox = arrived x xs ∷ map event ars })
          ≡ on_server empty_packet (
              process_vpi_packet (record w { inbox = rest; server = record w.server { rx = rx } })))
      × (of_image rx.vpi_cmd_rx ≡ p)
packet_processed p x xs ars w z e l r c b =
    let n : length ((x ∷ xs) ++ brought ars) ≡ vpi_pkt_size = ap length e ∙ length-image p z in
    let q = collect_all x xs ars w r c l n in
    let s = packet_reassembled p q.parts w.server z (q.whole ∙ e) c b in
    let rx = (store_all q.parts w.server).rx in
    (
      q.polls_before,
      omega (arith, q.in_time),
      q.rest,
      rx,
      q.ends
          ∙ ap
              (λ t.
                on_server empty_packet
                  (process_vpi_packet (record w { inbox = q.rest; server = t })))
              (store_all-keeps q.parts w.server
                ∙ ap (λ f. record w.server { rx = rx; fault = f }) s.2),
      s.0,
    )
