-- ===== src/Server/Poll/LegacyServed.antt =====
-- One scan of a client of the legacy mode, from the bytes that come in to the bytes that go out.
use jtag.Prelude.{
  ℕ, ◌+◌, ◌<◌, ◌≤◌, ◌≡◌, refl, ap, ◌∙◌, true, false, List, ◌∷◌, ◌++◌, Option, length, length-take,
  map, arith, blit, take, min, sub32,
}
use jtag.Wire.{Bytes, buffer_size, zeros, response_bytes}
use jtag.Socket.{takes, Outcome, send}
use jtag.Server.State.{Rx, idle, sending_tdo, processing, legacy_8byte, Signals, World}
use jtag.Server.Signals.{Pins}
use jtag.Server.Connection.{next_outcome}
use jtag.Server.Scan.{bytes_of_bits, continue_scan, continue_scan_in, tdo_sent}
use jtag.Server.Scan.Engine.{IsAt, bits_from, level, last_or}
use jtag.Server.Poll.{poll}
use jtag.Server.Poll.Clients.{polls}
use jtag.Server.Poll.Shifting.{simulated_all, AllShifted, all_polled}
use jtag.Server.Poll.Loading.{Quiet}
use jtag.Server.Poll.LegacyLoading.{Listening}
use jtag.Server.Poll.Buffered.{
  buffer_list, loaded-IsAt, clocked, finished, clocked-IsAt, clocked-pins, ReadyTdo,
  shifted-ReadyTdo,
}
use jtag.Server.Poll.LegacyScan.{
  InState, LegacyShifting, LegacyShifting-Framed, legacy-Shifts, poll-processes,
}

-- The TDO bytes go out, on a socket that takes them.
sends-tdo :
    (m k : ℕ) (os : List Outcome) (w : World)
    → w.server.connected ≡ true
    → w.server.protocol_mode ≡ legacy_8byte
    → w.server.scan.state ≡ sending_tdo
    → w.server.scan.bytes_sent ≡ 0
    → w.server.scan.num_bytes ≡ m
    → 0 < m
    → m ≤ 512
    → w.server.fault ≡ false
    → w.sends ≡ takes (m + k) ∷ os
    → poll w ≡ record w {
      server = record w.server { scan = record w.server.scan { bytes_sent = m; state = idle } };
      sends = os;
      wire = w.wire ++ take m w.server.scan.tdo_buf;
    }
unfolding poll continue_scan continue_scan_in next_outcome send tdo_sent
sends-tdo m k os w c o s b n p h f e = ground (
  arith,
  ap (λ i. w.wire ++ take i w.server.scan.tdo_buf)
      {x = min (m + k) (sub32 w.server.scan.num_bytes w.server.scan.bytes_sent)} {y = m}
      (omega arith),
)

-- What a scan comes to.
pub record ServedBuffers (t : ℕ) (ts : List ℕ) (tms tdi : Bytes) (v : World)
    (r : List (Option Pins) × World) : Type 0 where
  pub pins :
      r.0 ≡ buffer_list v.server.msb_first tms tdi v.server.signals.pending_mode_select 0 (t ∷ ts)
  pub tdo_out : Bytes
  pub size : length tdo_out ≡ length tms
  pub bits_out : bits_from v.server.msb_first tdo_out 0 (length (t ∷ ts)) ≡ map level (t ∷ ts)
  pub wire : r.1.wire ≡ v.wire ++ response_bytes 0 v.server.signals.current_tdo 0 0 ++ tdo_out
  pub listens : Listening r.1
  pub mode : r.1.server.signals.pending_mode_select ≡ v.server.signals.pending_mode_select
  pub seen : r.1.server.signals.current_tdo ≡ last_or v.server.signals.current_tdo (t ∷ ts)
  pub msb : r.1.server.msb_first ≡ v.server.msb_first

-- A scan whose buffers have come.
module _ (t k n : ℕ) (ts : List ℕ) (tms tdi : Bytes) (os : List Outcome) (v w : World)
    (a : InState n
      (bytes_of_bits n)
      processing
      (blit (zeros buffer_size) 0 tms)
      (blit (zeros buffer_size) 0 tdi)
      (takes (bytes_of_bits n + k) ∷ os)
      v
      w)
    (q : Quiet v) (bits : length (t ∷ ts) ≡ n) (fits : n ≤ 4096) where
  abbrev script : List Outcome
  script = takes (bytes_of_bits n + k) ∷ os

  abbrev answer : Bytes
  answer = response_bytes 0 v.server.signals.current_tdo 0 0

  loaded-LegacyShifting : LegacyShifting w.server
  loaded-LegacyShifting = record {
    connected = a.connected;
    protocol = a.protocol;
    state = a.loaded.state;
  }

  shifted : AllShifted (t ∷ ts) w
  shifted =
      all_polled LegacyShifting legacy-Shifts (t ∷ ts) 0 (length (t ∷ ts)) w loaded-LegacyShifting
        (omega arith) (omega (arith, bits))
        (loaded-IsAt t n ts tms tdi script answer v w a.loaded q bits fits)

  abbrev behind : World
  behind = clocked t n ts tms tdi script answer v w a.loaded q bits fits

  abbrev last : World
  last = finished t n ts tms tdi script answer v w a.loaded q bits fits

  tdo : ReadyTdo t n ts tms tdi script answer v w a.loaded q bits fits
  tdo = shifted-ReadyTdo t n ts tms tdi script answer v w a.loaded q bits fits shifted

  behind-IsAt : IsAt (length (t ∷ ts)) (length (t ∷ ts)) behind.server
  behind-IsAt = clocked-IsAt t n ts tms tdi script answer v w a.loaded q bits fits

  poll-last : poll behind ≡ last
  poll-last =
      poll-processes behind
        (LegacyShifting-Framed w.server behind.server shifted.framed loaded-LegacyShifting)

  -- The world behind the last poll.
  abbrev sent : World
  sent = record last {
    server = record last.server {
      scan = record last.server.scan { bytes_sent = bytes_of_bits n; state = idle };
    };
    sends = os;
    wire = last.wire ++ take (bytes_of_bits n) last.server.scan.tdo_buf;
  }

  poll-sent : poll last ≡ sent
  poll-sent =
      sends-tdo (bytes_of_bits n) k os last (tdo.framed.connected ∙ a.connected)
        (tdo.framed.protocol ∙ a.protocol) tdo.state tdo.none_sent tdo.count (omega (arith, bits))
        (omega arith) tdo.safe a.loaded.script

  sent-Listening : Listening sent
  sent-Listening = record {
    connected = tdo.framed.connected ∙ a.connected;
    protocol = tdo.framed.protocol ∙ a.protocol;
    no_scan = refl;
    no_bytes = ap (λ (x : Rx). x.cmd_bytes_received) tdo.framed.rx ∙ a.no_bytes;
    sized = ap (λ (x : Rx). length x.cmd_buf) tdo.framed.rx ∙ a.sized;
    silent = a.silent;
    quiet = record {
      no_pulse = tdo.no_pulse;
      no_reset = ap (λ (x : Signals). x.reset_pulses_remaining) tdo.quiet ∙ behind-IsAt.no_reset;
      no_toggle = ap (λ (x : Signals). x.pending_tckc_toggle) tdo.quiet ∙ behind-IsAt.no_toggle;
    };
    no_fault = tdo.safe;
  }

  pub answers_lem :
      length tms ≡ bytes_of_bits n
      → length tdi ≡ bytes_of_bits n
      → ServedBuffers t ts tms tdi v
          (let (pins, w') = simulated_all (t ∷ ts) w in (pins, polls 2 w'))
  unfolding polls
  answers_lem x y =
      rw (shifted.rounds, poll-last, poll-sent)
        (record {
          pins = clocked-pins t n ts tms tdi script answer v w a.loaded q bits fits x y;
          tdo_out = take (bytes_of_bits n) last.server.scan.tdo_buf;
          size =
              length-take (bytes_of_bits n) last.server.scan.tdo_buf ∙ omega (arith, tdo.size, x);
          bits_out = tdo.answers;
          wire = ap (λ bs. bs ++ take (bytes_of_bits n) last.server.scan.tdo_buf) a.loaded.wire;
          listens = sent-Listening;
          mode = tdo.mode;
          seen = tdo.seen;
          msb = tdo.framed.msb ∙ a.loaded.msb;
        })
