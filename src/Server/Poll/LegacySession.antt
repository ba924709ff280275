-- ===== src/Server/Poll/LegacySession.antt =====
-- A client of the legacy mode whose commands are served one after the other.
use jtag.Prelude.{
  ℕ, ◌+◌, ◌<◌, ◌≤◌, ◌≡◌, refl, sym, ap, ap₂, ◌∙◌, Bool, List, [], ◌∷◌, ◌++◌, Option, length, map,
  arith, blit, drop, append-nil, append_assoc,
}
use jtag.Wire.{Bytes, be32_to_host, buffer_size, zeros, response_bytes}
use jtag.Socket.{takes, Outcome}
use jtag.Server.State.{World, processing, receiving_tms}
use jtag.Server.Signals.{Pins}
use jtag.Server.Scan.{bytes_of_bits}
use jtag.Server.Poll.{poll}
use jtag.Server.Poll.Between.{arrives}
use jtag.Server.Poll.LegacyLoading.{Listening, poll-bytes, scan-scanning}
use jtag.Server.Poll.LegacyScan.{InState, scanning-InState, takes_tms, takes_tdi}
use jtag.Server.Poll.LegacyServed.{answers_lem}
use jtag.Server.Poll.LegacyCalls.{
  BufferCall, LegacyCall, scan_buffers, reset_jtag, set_port, ask_oscan1, num_bits, IsCommand,
  IsLegacyCall, command_polled, serve_buffers, serve_legacy, legacy_session, legacy_pins,
  tdo_behind, IsReply,
}
use jtag.Server.Poll.LegacyReplies.{One, Listening-sends, set_port-One, oscan1-One, reset-One}

-- The world behind the polls that take in the command and the buffers of a scan.
abbrev loaded : BufferCall → List Outcome → World → World
loaded c os w =
    let w₁ = command_polled c.command os w in
    let w₂ = poll (record w₁ { inbox = arrives c.tms }) in
    poll (record w₂ { inbox = arrives c.tdi })

module _ (n room : ℕ) (command : Bytes) (os : List Outcome) (w : World) (a : Listening w)
    (h : IsCommand 2 command) (l : be32_to_host (drop 4 command) ≡ n) (p : 0 < n)
    (fits : n ≤ 4096) where
  abbrev before : World
  before = record w { sends = takes (4 + room) ∷ os }

  before-Listening : Listening before
  before-Listening = Listening-sends (takes (4 + room) ∷ os) w a

  abbrev begun : World
  begun = poll (record before { inbox = arrives command })

  begun-InState : InState n 0 receiving_tms (zeros buffer_size) (zeros buffer_size) os before begun
  begun-InState =
      rw
        (
          poll-bytes command before before-Listening h.0,
          scan-scanning room os command before before-Listening refl n h.1 l p fits,
        )
        (scanning-InState n os command before before-Listening h.0)

  -- Behind the TMS and the TDI bytes.
  loaded-InState :
      (tms tdi : Bytes)
      → length tms ≡ bytes_of_bits n
      → length tdi ≡ bytes_of_bits n
      → InState n
          (bytes_of_bits n)
          processing
          (blit (zeros buffer_size) 0 tms)
          (blit (zeros buffer_size) 0 tdi)
          os
          before
          (poll (record (poll (record begun { inbox = arrives tms })) { inbox = arrives tdi }))
  loaded-InState [] tdi x y = absurd (omega (arith, x))
  loaded-InState (d ∷ ds) [] x y = absurd (omega (arith, y))
  loaded-InState (d ∷ ds) (g ∷ gs) x y =
      let w₂ = poll (record begun { inbox = arrives (d ∷ ds) }) in
      let b =
        takes_tms d ds n (zeros buffer_size) (zeros buffer_size) os before begun x fits
          begun-InState in
      takes_tdi g gs n (blit (zeros buffer_size) 0 (d ∷ ds)) (zeros buffer_size) os before w₂ y fits
        b

scan-One :
    (c : BufferCall) (w : World)
    → IsLegacyCall (scan_buffers c)
    → Listening w
    → One (scan_buffers c) w (serve_legacy (scan_buffers c) w)
unfolding serve_buffers
scan-One c w (h, l, x, y) a =
    let n = num_bits c in
    let os = takes (bytes_of_bits n + c.tdo_room) ∷ [] in
    let fits : n ≤ 4096 = omega (arith, l, h.2) in
    let v : World = record w { sends = takes (4 + c.room) ∷ os } in
    let quiet = (Listening-sends (takes (4 + c.room) ∷ os) w a).quiet in
    let s = loaded-InState n c.room c.command os w a h l (omega arith) fits c.tms c.tdi x y in
    let r =
      answers_lem c.tdo c.tdo_room n c.tdos c.tms c.tdi [] v (loaded c (takes (4 + c.room) ∷ os) w)
        s quiet refl fits x y in
    record {
      pins = r.pins;
      reply = response_bytes 0 w.server.signals.current_tdo 0 0 ++ r.tdo_out;
      replied = (r.tdo_out, refl, r.size, r.bits_out);
      wire =
          r.wire
          ∙ append_assoc w.wire (response_bytes 0 w.server.signals.current_tdo 0 0) r.tdo_out;
      listens = r.listens;
      mode = r.mode;
      seen = r.seen;
      msb = r.msb;
    }

serve_legacy-One :
    (c : LegacyCall) (w : World) → IsLegacyCall c → Listening w → One c w (serve_legacy c w)
serve_legacy-One (scan_buffers c) w h a = scan-One c w h a
serve_legacy-One (reset_jtag bytes room) w h a = reset-One bytes room w h a
serve_legacy-One (set_port bytes room) w h a = set_port-One bytes room w h a
serve_legacy-One (ask_oscan1 bytes room) w h a = oscan1-One bytes room w h a

pub data AllLegacyCalls : List LegacyCall → Type 0 where
  no_calls : AllLegacyCalls []
  call_then :
      {c : LegacyCall} {cs : List LegacyCall}
      → IsLegacyCall c
      → AllLegacyCalls cs
      → AllLegacyCalls (c ∷ cs)

-- The replies to commands in a row, of which each may be told the TDO value of the one before.
pub data AllReplied : Bool → ℕ → List LegacyCall → List Bytes → Type 0 where
  no_replies : {m : Bool} {tdo : ℕ} → AllReplied m tdo [] []
  reply_then :
      {m : Bool} {tdo : ℕ} {c : LegacyCall} {cs : List LegacyCall} {r : Bytes} {more : List Bytes}
      → IsReply m tdo c r
      → AllReplied m (tdo_behind tdo c) cs more
      → AllReplied m tdo (c ∷ cs) (r ∷ more)

abbrev pub joined : List Bytes → Bytes
joined [] = []
joined (r ∷ more) = r ++ joined more

record Served (cs : List LegacyCall) (m : Bool) (mode tdo : ℕ) (w : World)
    (r : List (List (Option Pins)) × World) : Type 0 where
  pins : r.0 ≡ map (legacy_pins m mode) cs
  replies : List Bytes
  replied : AllReplied m tdo cs replies
  wire : r.1.wire ≡ w.wire ++ joined replies
  listens : Listening r.1

legacy_session-Served :
    (cs : List LegacyCall) (m : Bool) (mode tdo : ℕ) (w : World)
    → AllLegacyCalls cs
    → Listening w
    → w.server.msb_first ≡ m
    → w.server.signals.pending_mode_select ≡ mode
    → w.server.signals.current_tdo ≡ tdo
    → Served cs m mode tdo w (legacy_session cs w)
unfolding legacy_session
legacy_session-Served [] m mode tdo w no_calls a e f g = record {
  pins = refl;
  replies = [];
  replied = no_replies;
  wire = sym (append-nil w.wire);
  listens = a;
}
legacy_session-Served (c ∷ cs) m mode tdo w (call_then h hs) a e f g =
    let one = serve_legacy-One c w h a in
    let rest =
      legacy_session-Served cs m mode (tdo_behind tdo c) (serve_legacy c w).1 hs one.listens
        (one.msb ∙ e) (one.mode ∙ f) (one.seen ∙ ap (λ x. tdo_behind x c) g) in
    record {
      pins = ap₂ ◌∷◌ (one.pins ∙ ap₂ (λ x y. legacy_pins x y c) e f) rest.pins;
      replies = one.reply ∷ rest.replies;
      replied = reply_then (rw (sym e, sym g) one.replied) rest.replied;
      wire =
          rest.wire
          ∙ ap (λ bs. bs ++ joined rest.replies) one.wire
          ∙ append_assoc w.wire one.reply (joined rest.replies);
      listens = rest.listens;
    }

-- A whole session of the legacy mode: a client that is between two commands sends scans of 1 to 4096
-- bits with as many TMS and TDI bytes as hold them, resets, and the commands that are only
-- acknowledged, one after the other, each command and each buffer in one piece, and the socket takes
-- what it is given; the simulation takes what is asked for once after each poll while pulses of a
-- command are to come, and the next command comes in only behind the last of them (the reply to a
-- reset is out before that). Then the simulation is asked for exactly the pulses of all the commands, in
-- order: for a scan one for each bit, with the TMS and TDI bits of the bytes in the bit order that
-- is set, for a reset seven with TMS high, for CMD_SET_PORT (3) and CMD_OSCAN1 (5) none. The client gets one reply for each
-- command, in order and with nothing in between: four bytes with the TDO value that was reported
-- last, or 0 for CMD_SET_PORT, and behind those of a scan as many bytes as it has sent for TMS,
-- whose bits in that order are the TDO values that came back; and the server listens for more.
pub legacy_session_served :
    (cs : List LegacyCall) (w : World)
    → AllLegacyCalls cs
    → Listening w
    → let (pins, w') = legacy_session cs w in
      (pins ≡ map (legacy_pins w.server.msb_first w.server.signals.pending_mode_select) cs)
      × ((replies : List Bytes) × AllReplied w.server.msb_first w.server.signals.current_tdo cs
            replies
          × (w'.wire ≡ w.wire ++ joined replies))
      × Listening w'
legacy_session_served cs w h a =
    let r =
      legacy_session-Served cs w.server.msb_first w.server.signals.pending_mode_select
        w.server.signals.current_tdo w h a refl refl refl in
    (r.pins, (r.replies, r.replied, r.wire), r.listens)
