-- ===== src/Server/Poll/MinimalScan.antt =====
-- A whole scan of the 8-byte protocol, from the bytes that come in to the bytes that go out.
use jtag.Prelude.{
  take, length-take, ℕ, ◌+◌, ◌<◌, ◌≤◌, ◌≡◌, refl, sym, ap, ◌∙◌, true, List, [], ◌∷◌, ◌++◌, Option,
  length, map, arith, blit,
}
use jtag.Wire.{Bytes, minimal_cmd, minimal_length, minimal_size, buffer_size, zeros, response_bytes}
use jtag.Socket.{takes, Outcome}
use jtag.Server.State.{Tx, Sf0, TmsSeq, World, on_server, processing}
use jtag.Server.Signals.{Pins}
use jtag.Server.Scan.{
  bytes_of_bits, process_bits, capture, finish_bits, continue_scan, continue_scan_in,
}
use jtag.Server.Scan.Engine.{IsAt, bits_from, level}
use jtag.Server.Poll.{poll}
use jtag.Server.Poll.Clients.{polls, InReply, minimal_scan_extra_packet}
use jtag.Server.Work.{continue_vpi_work, flush_tx, sf0_work, tms_work, scan_work, after_scan}
use jtag.Server.Poll.Shifting.{simulated_all, Shifting, Shifting-Framed, AllShifted, all_shifted}
use jtag.Server.Poll.Between.{arrives}
use jtag.Server.Poll.Loading.{Waiting, Quiet, InState, starts, takes_tms, takes_tdi}
use jtag.Server.Poll.Buffered.{
  buffer_list, loaded-IsAt, clocked, finished, clocked-IsAt, clocked-legacy, clocked-pins, ReadyTdo,
  shifted-ReadyTdo,
}

-- Three polls take in the command and the buffers; for each bit there is a poll, after which the
-- simulation takes the pulse and reports TDO; one more poll takes in the last answer, and another
-- sends the TDO bytes.
unfoldable pub serve_minimal_scan :
    Bytes → Bytes → Bytes → List ℕ → World → List (Option Pins) × World
serve_minimal_scan command tms tdi tdos w =
    let w₁ = poll (record w { inbox = arrives command }) in
    let w₂ = poll (record w₁ { inbox = arrives tms }) in
    let w₃ = poll (record w₂ { inbox = arrives tdi }) in
    let (pins, w₄) = simulated_all tdos w₃ in (pins, polls 2 w₄)

-- The world behind the polls that take in the command and the buffers.
abbrev loaded : Bytes → Bytes → Bytes → World → World
loaded command tms tdi w =
    let w₁ = poll (record w { inbox = arrives command }) in
    let w₂ = poll (record w₁ { inbox = arrives tms }) in poll (record w₂ { inbox = arrives tdi })

loaded-InState :
    (n j k : ℕ) (command tms tdi : Bytes) (os : List Outcome) (w : World)
    → Waiting w
    → length command ≡ minimal_size
    → minimal_cmd command ≡ 2
    → minimal_length command ≡ n
    → 0 < n
    → n ≤ 4096
    → length tms ≡ bytes_of_bits n
    → length tdi ≡ bytes_of_bits n
    → w.sends ≡ takes (4 + j) ∷ os
    → InState n
        (bytes_of_bits n)
        processing
        (blit (zeros buffer_size) 0 tms)
        (blit (zeros buffer_size) 0 tdi)
        os
        w
        (loaded command tms tdi w)
loaded-InState n j k [] tms tdi os w q c o l p f x y e = absurd (omega (arith, c))
loaded-InState n j k (b ∷ bs) [] tdi os w q c o l p f x y e = absurd (omega (arith, x))
loaded-InState n j k (b ∷ bs) (d ∷ ds) [] os w q c o l p f x y e = absurd (omega (arith, y))
loaded-InState n j k (b ∷ bs) (d ∷ ds) (g ∷ gs) os w q c o l p f x y e =
    let w₁ = poll (record w { inbox = arrives (b ∷ bs) }) in
    let w₂ = poll (record w₁ { inbox = arrives (d ∷ ds) }) in
    let a₁ = starts b bs n j os w q c o l p f e in
    let a₂ = takes_tms d ds n (zeros buffer_size) (zeros buffer_size) os w w₁ x f a₁ in
    takes_tdi g gs n (blit (zeros buffer_size) 0 (d ∷ ds)) (zeros buffer_size) os w w₂ y f a₂

-- The poll behind the last bit keeps its answer and goes on to send the TDO bytes.
poll-finishes :
    (n : ℕ) (w : World)
    → Shifting w.server
    → 0 < n
    → n ≤ 4096
    → IsAt n n w.server
    → w.server.scan.is_legacy ≡ true
    → poll w ≡ on_server process_bits w
unfolding poll continue_vpi_work flush_tx sf0_work tms_work scan_work continue_scan continue_scan_in
    after_scan process_bits capture finish_bits
poll-finishes n w q p b a l = ground arith

Waiting-Quiet : {w : World} → Waiting w → Quiet w
Waiting-Quiet q = record { no_pulse = q.no_pulse; no_reset = q.no_reset; no_toggle = q.no_toggle }

-- A scan whose buffers have come.
module _ (t k n : ℕ) (ts : List ℕ) (tms tdi : Bytes) (os : List Outcome) (v w : World)
    (a : InState n
      (bytes_of_bits n)
      processing
      (blit (zeros buffer_size) 0 tms)
      (blit (zeros buffer_size) 0 tdi)
      (takes (bytes_of_bits n + k) ∷ os)
      v
      w)
    (q : Waiting v) (bits : length (t ∷ ts) ≡ n) (fits : n ≤ 4096) where
  abbrev script : List Outcome
  script = takes (bytes_of_bits n + k) ∷ os

  abbrev answer : Bytes
  answer = response_bytes 0 v.server.signals.current_tdo v.server.signals.current_mode 0

  quiet : Quiet v
  quiet = Waiting-Quiet q

  loaded-Shifting : Shifting w.server
  loaded-Shifting = record {
    connected = a.connected;
    protocol = a.protocol;
    no_response = a.no_response;
    resting = a.resting;
    no_sequence = a.no_sequence;
    processing = a.loaded.state;
  }

  shifted : AllShifted (t ∷ ts) w
  shifted =
      all_shifted (t ∷ ts) 0 (length (t ∷ ts)) w loaded-Shifting (omega arith) (omega (arith, bits))
        (loaded-IsAt t n ts tms tdi script answer v w a.loaded quiet bits fits)

  abbrev behind : World
  behind = clocked t n ts tms tdi script answer v w a.loaded quiet bits fits

  abbrev last : World
  last = finished t n ts tms tdi script answer v w a.loaded quiet bits fits

  tdo : ReadyTdo t n ts tms tdi script answer v w a.loaded quiet bits fits
  tdo = shifted-ReadyTdo t n ts tms tdi script answer v w a.loaded quiet bits fits shifted

  poll-last : poll behind ≡ last
  poll-last =
      poll-finishes (length (t ∷ ts)) behind (Shifting-Framed shifted.framed loaded-Shifting)
        (omega arith) (omega (arith, bits))
        (clocked-IsAt t n ts tms tdi script answer v w a.loaded quiet bits fits)
        (clocked-legacy t n ts tms tdi script answer v w a.loaded quiet bits fits)

  last-InReply : InReply last
  last-InReply = record {
    connected = tdo.framed.connected ∙ a.connected;
    mode = tdo.framed.protocol ∙ a.protocol;
    minimal = tdo.framed.minimal ∙ a.minimal;
    state = tdo.state;
    none_sent = tdo.none_sent;
    bytes_fit = omega (arith, tdo.count);
    some_bytes = omega (arith, tdo.count, bits);
    no_response = ap (λ (x : Tx). x.vpi_tx_pending) tdo.framed.tx ∙ a.no_response;
    resting = ap (λ (x : Sf0). x.state) tdo.framed.sf0 ∙ a.resting;
    no_sequence = ap (λ (x : TmsSeq). x.active) tdo.framed.tms_seq ∙ a.no_sequence;
  }

  record Answered (r : List (Option Pins) × World) : Type 0 where
    pins :
        r.0 ≡ buffer_list v.server.msb_first tms tdi v.server.signals.pending_mode_select 0 (t ∷ ts)
    wire : r.1.wire ≡ w.wire ++ take (bytes_of_bits n) last.server.scan.tdo_buf
    extra : r.1.server.tx.vpi_tx_pending ≡ true

  answers_lem :
      length tms ≡ bytes_of_bits n
      → length tdi ≡ bytes_of_bits n
      → Answered (let (pins, w') = simulated_all (t ∷ ts) w in (pins, polls 2 w'))
  unfolding polls
  answers_lem x y =
      let sent =
        minimal_scan_extra_packet k os last last-InReply
          (a.loaded.script ∙ ap (λ m. takes (m + k) ∷ os) (sym tdo.count)) in
      rw (shifted.rounds, poll-last)
        (record {
          pins = clocked-pins t n ts tms tdi script answer v w a.loaded quiet bits fits x y;
          wire = sent.0 ∙ ap (λ m. w.wire ++ take m last.server.scan.tdo_buf) tdo.count;
          extra = sent.2;
        })

-- A whole scan of the 8-byte protocol: a client that is between two commands sends a CMD_SCAN_CHAIN
-- for 1 to 4096 bits and then as many TMS and TDI bytes as hold them, each of the three in one
-- piece, to a server that has nothing else to do and whose last scan was not one of the full
-- protocol, and its socket takes what it is given. Then the simulation is asked for exactly one
-- pulse for each bit, in order, with the TMS and TDI bits of these bytes in the bit order that is
-- set; and the client gets the response of four bytes and, right behind it, as many bytes as it has
-- sent for TMS, whose bits in that order are the TDO values that came back. Behind these a packet of
-- the full protocol waits to be sent.
pub minimal_scan_served :
    (t j k : ℕ) (ts : List ℕ) (command tms tdi : Bytes) (os : List Outcome) (w : World)
    → Waiting w
    → length command ≡ minimal_size
    → minimal_cmd command ≡ 2
    → minimal_length command ≡ length (t ∷ ts)
    → length (t ∷ ts) ≤ 4096
    → length tms ≡ bytes_of_bits (length (t ∷ ts))
    → length tdi ≡ bytes_of_bits (length (t ∷ ts))
    → w.sends ≡ takes (4 + j) ∷ takes (bytes_of_bits (length (t ∷ ts)) + k) ∷ os
    → let (pins, w') = serve_minimal_scan command tms tdi (t ∷ ts) w in
      let g = w.server.signals in
      (pins ≡ buffer_list w.server.msb_first tms tdi g.pending_mode_select 0 (t ∷ ts))
      × ((tdo : Bytes) × (length tdo ≡ length tms)
          × (bits_from w.server.msb_first tdo 0 (length (t ∷ ts)) ≡ map level (t ∷ ts))
          × (w'.wire ≡ w.wire ++ response_bytes 0 g.current_tdo g.current_mode 0 ++ tdo))
      × (w'.server.tx.vpi_tx_pending ≡ true)
unfolding serve_minimal_scan
minimal_scan_served t j k ts command tms tdi os w q c o l f x y e =
    let n = length (t ∷ ts) in
    let g = w.server.signals in
    let a =
      loaded-InState n j k command tms tdi (takes (bytes_of_bits n + k) ∷ os) w q c o l
        (omega arith) f x y e in
    let v = loaded command tms tdi w in
    let r = answers_lem t k n ts tms tdi os w v a q refl f x y in
    let out = tdo t k n ts tms tdi os w v a q refl f in
    let bytes = last t k n ts tms tdi os w v a q refl f in
    (
      r.pins,
      (
        take (bytes_of_bits n) bytes.server.scan.tdo_buf,
        length-take (bytes_of_bits n) bytes.server.scan.tdo_buf ∙ omega (arith, out.size, x),
        out.answers,
        r.wire ∙ ap (λ bs. bs ++ take (bytes_of_bits n) bytes.server.scan.tdo_buf) a.loaded.wire,
      ),
      r.extra,
    )
