-- ===== src/Server/Response/OnTheWire.antt =====
-- What `send_minimal_response` puts on the wire.
use jtag.Prelude.{
  ℕ, zero, suc, ◌+◌, ◌<◌, ◌≡◌, refl, ap, ◌∙◌, true, inl, inr, Bool-cases, List, [], ◌∷◌, ◌++◌,
  append-nil, append_assoc, length, take, drop, take-append-drop, arith, ltb, ◌&&◌, lt→ltb,
}
use jtag.Wire.{Bytes, response_bytes}
use jtag.Socket.{Errno, Outcome, takes, fails, send}
use jtag.Server.State.{World}
use jtag.Server.Connection.{close_connection}
use jtag.Server.Response.{
  max_retries, Delivery, delivered, incomplete, lost, judge, Sending, turn, Turn, again, give_up,
  close, send_loop, conclude, send_minimal_response,
}

-- What is on the wire is a first part of what was to be sent, and all of it at `delivered`.
record Part (left wire : Bytes) (r : Sending) : Type 0 where
  rest : Bytes
  split : r.wire ++ rest ≡ wire ++ left
  whole : r.end ≡ delivered → rest ≡ []

judge-Part :
    (left wire : Bytes) (os : List Outcome)
    → Part left wire (record { outcomes = os; wire = wire; end = judge left })
judge-Part [] wire os = record { rest = []; split = refl; whole = λ _. refl }
judge-Part (x ∷ xs) wire os = record { rest = x ∷ xs; split = refl; whole = λ e. cc }

-- What a pass of the loop does once its turn is known.
abbrev after_turn : List Outcome → Bytes → Bytes → Turn → Sending
after_turn os left wire t = elim t [
  | again k r ↦ send_loop os r (drop k left) (wire ++ take k left)
  | give_up ↦ record { outcomes = os; wire = wire; end = incomplete }
  | close ↦ record { outcomes = os; wire = wire; end = lost }
]

turn_step :
    (t : Turn) (os : List Outcome) (left wire : Bytes)
    → ((k r : ℕ)
        → Part
            (drop k left)
            (wire ++ take k left)
            (send_loop os r (drop k left) (wire ++ take k left)))
    → Part left wire (after_turn os left wire t)
turn_step (again k r) os left wire ih =
    let p = ih k r in
    record {
      rest = p.rest;
      split =
          p.split
          ∙ append_assoc wire (take k left) (drop k left)
          ∙ ap (λ x. wire ++ x) (take-append-drop k left);
      whole = p.whole;
    }
turn_step give_up os left wire ih = record { rest = left; split = refl; whole = λ e. cc }
turn_step close os left wire ih = record { rest = left; split = refl; whole = λ e. cc }

send_loop-Part :
    (os : List Outcome) (retries : ℕ) (left wire : Bytes)
    → Part left wire (send_loop os retries left wire)
unfolding send_loop
send_loop-Part [] retries left wire = judge-Part left wire []
send_loop-Part (o ∷ os) retries left wire =
    elim (Bool-cases (ltb 0 (length left) && ltb retries max_retries)) [
      | inr e ↦ rw (e, send_loop) (judge-Part left wire (o ∷ os))
      | inl e ↦
          rw (e, send_loop)
            (turn_step (turn retries (send (length left) o)) os left wire
              (λ k r. send_loop-Part os r (drop k left) (wire ++ take k left)))
    ]

wire-conclude : (d : Delivery) (w : World) → (conclude d w).wire ≡ w.wire
unfolding conclude close_connection
wire-conclude d w = ground arith

-- Whatever the socket does, the bytes that `send_minimal_response` hands over are a first part of
-- the four response bytes, in order, behind what was on the wire.
pub response_is_prefix :
    (response tdo_val mode status : ℕ) (w : World)
    → (rest : Bytes) × ((send_minimal_response response tdo_val mode status w).wire ++ rest
        ≡ w.wire ++ response_bytes response tdo_val mode status)
unfolding send_minimal_response
response_is_prefix response tdo_val mode status w =
    let bytes = response_bytes response tdo_val mode status in
    let r = send_loop w.sends 0 bytes w.wire in
    let p = send_loop-Part w.sends 0 bytes w.wire in
    (
      p.rest,
      ap (λ x. x ++ p.rest) (wire-conclude r.end (record w { sends = r.outcomes; wire = r.wire }))
          ∙ p.split,
    )

-- `n` calls of `send` that would block.
abbrev pub blocked : ℕ → List Outcome → List Outcome
blocked zero os = os
blocked (suc n) os = fails Errno.eagain ∷ blocked n os

send_loop_pass :
    (o : Outcome) (os : List Outcome) (retries : ℕ) (left wire : Bytes)
    → (ltb 0 (length left) && ltb retries max_retries) ≡ true
    → send_loop (o ∷ os) retries left wire
      ≡ after_turn os left wire (turn retries (send (length left) o))
unfolding send_loop
send_loop_pass o os retries left wire e = rw (e, send_loop)

send_loop_empty :
    (os : List Outcome) (retries : ℕ) (wire : Bytes)
    → send_loop os retries [] wire ≡ record { outcomes = os; wire = wire; end = delivered }
unfolding send_loop
send_loop_empty [] retries wire = refl
send_loop_empty (o ∷ os) retries wire = refl

module _ (a b c d : ℕ) (os : List Outcome) (wire : Bytes) where
  abbrev bytes : Bytes
  bytes = a ∷ b ∷ c ∷ d ∷ []

  send_loop-takes :
      (k retries : ℕ)
      → retries < max_retries
      → send_loop (takes (4 + k) ∷ os) retries bytes wire
        ≡ record { outcomes = os; wire = wire ++ bytes; end = delivered }
  send_loop-takes k retries h =
      send_loop_pass (takes (4 + k)) os retries bytes wire (lt→ltb retries max_retries h)
      ∙ ap (after_turn os bytes wire) (turned)
      ∙ send_loop_empty os retries (wire ++ bytes)
    where
      turned : turn retries (send 4 (takes (4 + k))) ≡ again 4 retries
      turned = unfold turn send in ap (λ m. again m retries) (omega arith)

  send_loop-blocked :
      (n k retries : ℕ)
      → retries + n < max_retries
      → send_loop (blocked n (takes (4 + k) ∷ os)) retries bytes wire
        ≡ record { outcomes = os; wire = wire ++ bytes; end = delivered }
  send_loop-blocked zero k retries h = send_loop-takes k retries (omega arith)
  send_loop-blocked (suc n) k retries h =
      send_loop_pass (fails Errno.eagain) (blocked n (takes (4 + k) ∷ os)) retries bytes wire
        (lt→ltb retries max_retries (omega arith))
      ∙ ap (after_turn (blocked n (takes (4 + k) ∷ os)) bytes wire) turned
      ∙ ap (λ x. send_loop (blocked n (takes (4 + k) ∷ os)) (retries + 1) bytes x) (append-nil wire)
      ∙ send_loop-blocked n k (retries + 1) (omega arith)
    where
      turned : turn retries (send 4 (fails Errno.eagain)) ≡ again 0 (retries + 1)
      turned = unfold turn send in ground arith

-- A socket that takes the four bytes at a time after fewer than 1000 calls that would block gets
-- exactly the response, in one piece; the connection goes on in the 8-byte protocol, and nothing
-- else of the server changes.
pub response_delivered :
    (response tdo_val mode status n k : ℕ) (os : List Outcome) (w : World)
    → w.sends ≡ blocked n (takes (4 + k) ∷ os)
    → n < max_retries
    → send_minimal_response response tdo_val mode status w ≡ record w {
      server = record w.server { vpi_minimal_mode = true };
      sends = os;
      wire = w.wire ++ response_bytes response tdo_val mode status;
    }
unfolding send_minimal_response conclude response_bytes
response_delivered response tdo_val mode status n k os w e h =
    ap (λ (r : Sending). conclude r.end (record w { sends = r.outcomes; wire = r.wire }))
      (ap (λ s. send_loop s 0 (response ∷ tdo_val ∷ mode ∷ status ∷ []) w.wire) e
        ∙ send_loop-blocked response tdo_val mode status os w.wire n k 0 (omega arith))
