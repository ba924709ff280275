-- ===== src/Server/Poll/LegacyReplies.antt =====
-- What the commands of the legacy mode other than a scan come to.
use jtag.Prelude.{
  ℕ, zero, suc, ◌+◌, ◌≡◌, refl, ◌∙◌, true, false, List, [], ◌∷◌, ◌++◌, Option, length, arith,
}
use jtag.Wire.{Bytes, minimal_size, response_bytes}
use jtag.Socket.{recv, takes, Outcome}
use jtag.Server.State.{ScanState, legacy_8byte, Signals, World}
use jtag.Server.Connection.{fetch, fetched}
use jtag.Server.Work.Oscan1.{taken}
use jtag.Server.Poll.{poll, poll_idle, serve, legacy_work}
use jtag.Server.Poll.Sequence.{poll_and_take}
use jtag.Server.Signals.{Pins, get_pending_signals, request_pulse}
use jtag.Server.Packet.{start_reset}
use jtag.Server.Packet.Reset.{take_pins, start_reset-AllTaken, AllTaken}
use jtag.Server.Legacy.{process_command}
use jtag.Server.Poll.LegacyLoading.{
  Listening, poll-bytes, taken_in, reset-started, set_port-acknowledged, oscan1-acknowledged,
}
use jtag.Server.Poll.LegacyCalls.{
  LegacyCall, reset_jtag, set_port, ask_oscan1, IsCommand, command_polled, serve_legacy_reset,
  serve_legacy, legacy_pins, tdo_behind, IsReply,
}

-- What one command comes to.
pub record One (c : LegacyCall) (w : World) (r : List (Option Pins) × World) : Type 0 where
  pub pins : r.0 ≡ legacy_pins w.server.msb_first w.server.signals.pending_mode_select c
  pub reply : Bytes
  pub replied : IsReply w.server.msb_first w.server.signals.current_tdo c reply
  pub wire : r.1.wire ≡ w.wire ++ reply
  pub listens : Listening r.1
  pub mode : r.1.server.signals.pending_mode_select ≡ w.server.signals.pending_mode_select
  pub seen : r.1.server.signals.current_tdo ≡ tdo_behind w.server.signals.current_tdo c
  pub msb : r.1.server.msb_first ≡ w.server.msb_first

-- A listening connection with other calls of `send` to come.
pub Listening-sends :
    (os : List Outcome) (w : World) → Listening w → Listening (record w { sends = os })
Listening-sends os w a = record {
  connected = a.connected;
  protocol = a.protocol;
  no_scan = a.no_scan;
  no_bytes = a.no_bytes;
  sized = a.sized;
  silent = a.silent;
  quiet = record {
    no_pulse = a.quiet.no_pulse;
    no_reset = a.quiet.no_reset;
    no_toggle = a.quiet.no_toggle;
  };
  no_fault = a.no_fault;
}

-- A connection behind a command that leaves all but the buffer and the signals alone.
taken_in-Listening :
    (bytes wire : Bytes) (g : Signals) (os : List Outcome) (w : World)
    → Listening w
    → length bytes ≡ minimal_size
    → g.pending_tck_pulse ≡ false
    → g.reset_pulses_remaining ≡ 0
    → g.pending_tckc_toggle ≡ false
    → Listening (record (taken_in bytes w) {
      server = record (taken_in bytes w).server { signals = g };
      sends = os;
      wire = wire;
    })
taken_in-Listening bytes wire g os w a l p r t = record {
  connected = a.connected;
  protocol = a.protocol;
  no_scan = a.no_scan;
  no_bytes = refl;
  sized = l;
  silent = refl;
  quiet = record { no_pulse = p; no_reset = r; no_toggle = t };
  no_fault = a.no_fault;
}

acknowledged-One :
    (tdo room : ℕ) (bytes : Bytes) (w : World)
    → Listening w
    → length bytes ≡ minimal_size
    → process_command bytes (taken_in bytes (record w { sends = takes (4 + room) ∷ [] }))
      ≡ record (taken_in bytes w) { sends = []; wire = w.wire ++ response_bytes 0 tdo 0 0 }
    → command_polled bytes (takes (4 + room) ∷ []) w
      ≡ record (taken_in bytes w) { sends = []; wire = w.wire ++ response_bytes 0 tdo 0 0 }
acknowledged-One tdo room bytes w a l e =
    poll-bytes bytes (record w { sends = takes (4 + room) ∷ [] })
      (Listening-sends (takes (4 + room) ∷ []) w a) l
    ∙ e

pub set_port-One :
    (bytes : Bytes) (room : ℕ) (w : World)
    → IsCommand 3 bytes
    → Listening w
    → One (set_port bytes room) w (serve_legacy (set_port bytes room) w)
set_port-One bytes room w (l, c, h) a =
    let script = takes (4 + room) ∷ [] in
    let done =
      set_port-acknowledged room [] bytes (record w { sends = script }) (Listening-sends script w a)
        refl c h in
    rw (acknowledged-One 0 room bytes w a l done) (record {
      pins = refl;
      reply = response_bytes 0 0 0 0;
      replied = refl;
      wire = refl;
      listens =
          taken_in-Listening bytes (w.wire ++ response_bytes 0 0 0 0) w.server.signals [] w a l
            a.quiet.no_pulse a.quiet.no_reset a.quiet.no_toggle;
      mode = refl;
      seen = refl;
      msb = refl;
    })

pub oscan1-One :
    (bytes : Bytes) (room : ℕ) (w : World)
    → IsCommand 5 bytes
    → Listening w
    → One (ask_oscan1 bytes room) w (serve_legacy (ask_oscan1 bytes room) w)
oscan1-One bytes room w (l, c, h) a =
    let script = takes (4 + room) ∷ [] in
    let tdo = w.server.signals.current_tdo in
    let done =
      oscan1-acknowledged room [] bytes (record w { sends = script }) (Listening-sends script w a)
        refl c h in
    rw (acknowledged-One tdo room bytes w a l done) (record {
      pins = refl;
      reply = response_bytes 0 tdo 0 0;
      replied = refl;
      wire = refl;
      listens =
          taken_in-Listening bytes (w.wire ++ response_bytes 0 tdo 0 0) w.server.signals [] w a l
            a.quiet.no_pulse a.quiet.no_reset a.quiet.no_toggle;
      mode = refl;
      seen = refl;
      msb = refl;
    })

next-tdo : (g : Signals) → (get_pending_signals g).1.current_tdo ≡ g.current_tdo
unfolding get_pending_signals
next-tdo g = ground arith

take_pins-tdo : (n : ℕ) (g : Signals) → (take_pins n g).1.current_tdo ≡ g.current_tdo
unfolding take_pins
take_pins-tdo zero g = refl
take_pins-tdo (suc n) g = take_pins-tdo n (get_pending_signals g).1 ∙ next-tdo g

-- A poll of a connection between two commands with nothing to come changes nothing, whatever is
-- pending for the simulation.
poll-idles :
    (w : World)
    → w.server.connected ≡ true
    → w.server.protocol_mode ≡ legacy_8byte
    → w.server.scan.state ≡ ScanState.idle
    → w.server.rx.cmd_bytes_received ≡ 0
    → w.inbox ≡ []
    → poll w ≡ w
unfolding poll poll_idle serve legacy_work fetch fetched recv
poll-idles w c p i n e = ground arith

pulled :
    (n : ℕ) (w : World)
    → w.server.connected ≡ true
    → w.server.protocol_mode ≡ legacy_8byte
    → w.server.scan.state ≡ ScanState.idle
    → w.server.rx.cmd_bytes_received ≡ 0
    → w.inbox ≡ []
    → let (pins, g) = take_pins n w.server.signals in
      poll_and_take n w ≡ (pins, record w { server = record w.server { signals = g } })
unfolding poll_and_take take_pins
pulled zero w c p i e s = refl
pulled (suc n) w c p i e s = rw (poll-idles w c p i e s, pulled n (taken w) c p i e s) refl

module _ (bytes : Bytes) (room : ℕ) (w : World) (h : IsCommand 0 bytes) (a : Listening w) where
  abbrev script : List Outcome
  script = takes (4 + room) ∷ []

  abbrev resetting : World
  resetting = record (taken_in bytes w) {
    server = start_reset (taken_in bytes w).server;
    sends = [];
    wire = w.wire ++ response_bytes 0 w.server.signals.current_tdo 0 0;
  }

  polled-resetting : command_polled bytes script w ≡ resetting
  polled-resetting =
      let v : World = record w { sends = script } in
      let b = Listening-sends script w a in
      poll-bytes bytes v b h.0 ∙ reset-started room [] bytes v b refl h.1 h.2

  abbrev pulses : List (Option Pins) × Signals
  pulses = take_pins 7 resetting.server.signals

  all_taken : AllTaken 6 resetting.server.signals pulses
  all_taken = start_reset-AllTaken (taken_in bytes w).server a.quiet.no_toggle

  resetting-pulled : poll_and_take 6 (taken resetting) ≡ (
    (take_pins 6 (taken resetting).server.signals).0,
    record resetting { server = record resetting.server { signals = pulses.1 } },
  )
  unfolding take_pins start_reset
  resetting-pulled = pulled 6 (taken resetting) a.connected a.protocol a.no_scan refl refl

  pub reset-One : One (reset_jtag bytes room) w (serve_legacy (reset_jtag bytes room) w)
  unfolding serve_legacy_reset take_pins
  reset-One =
      rw (polled-resetting, resetting-pulled)
        (record {
          pins = all_taken.pins ∙ (unfold start_reset request_pulse in refl);
          reply = response_bytes 0 w.server.signals.current_tdo 0 0;
          replied = refl;
          wire = refl;
          listens =
              unfold start_reset in
              taken_in-Listening bytes resetting.wire pulses.1 [] w a h.0 all_taken.pulse
                all_taken.left all_taken.toggle;
          mode = all_taken.mode_kept ∙ (unfold start_reset request_pulse in refl);
          seen =
              take_pins-tdo 7 resetting.server.signals ∙ (unfold start_reset request_pulse in refl);
          msb = unfold start_reset in refl;
        })
