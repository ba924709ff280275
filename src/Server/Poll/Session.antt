-- ===== src/Server/Poll/Session.antt =====
-- A client of the full protocol whose scans, resets, TMS sequences and OScan1 exchanges are served
-- one after the other.
use jtag.Prelude.{
  replicate, some, ℕ, ◌≤◌, ◌≡◌, refl, sym, ap, ap₂, ◌∙◌, false, List, [], ◌∷◌, ◌++◌, Option, map,
  length, append_assoc, append-nil,
}
use jtag.Wire.{Bytes, OcdVpiCmd, image, header, le32_to_host, vpi_pkt_size}
use jtag.Wire.Layout.{IsSized}
use jtag.Server.Packet.Reset.{reset_pins}
use jtag.Server.Work.Oscan1.{edge}
use jtag.Server.Poll.Edges.{control_bit, edge_answer, serve_oscan1, serve_oscan1-ServedEdges}
use jtag.Server.Poll.Sequencing.{serve_tms_seq, serve_tms_seq-ServedBits}
use jtag.Server.Work.TmsSequence.{tms_list}
use jtag.Server.Poll.Resetting.{serve_reset, serve_reset-ServedReset}
use jtag.Server.State.{World}
use jtag.Server.Signals.{Pins}
use jtag.Server.Packet.FullScan.{scan_list}
use jtag.Server.Scan.{bytes_of_bits}
use jtag.Server.Scan.Engine.{bits_from, level}
use jtag.Server.Poll.Requests.{AsksScan}
use jtag.Server.Poll.Between.{Between, Ready}
use jtag.Server.Poll.Opening.{Fresh, opened, opens, known-Between}
use jtag.Server.Poll.Scanning.{serve_scan, serve_scan-Served}

-- A scan that a client asks for: the command, the packet, the TDO values that the device answers
-- with, and how much the socket takes of the response at each call.
pub record ScanCall : Type 0 where
  pub command : ℕ
  pub packet : OcdVpiCmd
  pub tdo : ℕ
  pub tdos : List ℕ
  pub calls : List ℕ

-- A command of a client; a reset has its packet, and how much the socket takes of the response, an
-- OScan1 exchange also the TDO value; for a TMS sequence the first list has an entry for each bit.
pub data Call : Type 0 where
  scan : ScanCall → Call
  reset : OcdVpiCmd → List ℕ → Call
  oscan1 : OcdVpiCmd → ℕ → List ℕ → Call
  sequence : OcdVpiCmd → List ℕ → List ℕ → Call

abbrev pub num_bits : ScanCall → ℕ
num_bits c = length (c.tdo ∷ c.tdos)

-- The packet asks for what the call says, and there are enough calls of `send`.
abbrev pub IsCall : Call → Type 0
IsCall (scan c) = AsksScan c.command (num_bits c) c.packet × (length c.calls ≡ vpi_pkt_size)
IsCall (reset p ks) = IsSized p × (le32_to_host p.cmd_buf ≡ 0) × (length ks ≡ vpi_pkt_size)
IsCall (oscan1 p tdo ks) = IsSized p × (le32_to_host p.cmd_buf ≡ 5) × (length ks ≡ vpi_pkt_size)
IsCall (sequence p js ks) =
    IsSized p
    × (le32_to_host p.cmd_buf ≡ 1)
    × (le32_to_host p.nb_bits_buf ≡ length js)
    × (length js ≤ 4096)
    × (length ks ≡ vpi_pkt_size)

abbrev pub serve_call : Call → World → List (Option Pins) × World
serve_call (scan c) w = serve_scan c.packet (c.tdo ∷ c.tdos) c.calls w
serve_call (reset p ks) w = serve_reset p ks w
serve_call (oscan1 p tdo ks) w = serve_oscan1 p tdo ks w
serve_call (sequence p js ks) w = serve_tms_seq p js ks w

-- The pulses of the commands, and the world behind them.
unfoldable pub session : List Call → World → List (List (Option Pins)) × World
session [] w = ([], w)
session (c ∷ cs) w =
    let (pins, w₁) = serve_call c w in let (later, w₂) = session cs w₁ in (pins ∷ later, w₂)

-- The pulses that a command asks for, in the mode that is set.
abbrev pub asked_pins : ℕ → Call → List (Option Pins)
asked_pins mode (scan c) =
    scan_list c.command (num_bits c) c.packet.buffer_out mode 0 (c.tdo ∷ c.tdos)
asked_pins mode (reset p ks) = replicate 7 (some (reset_pins mode))
asked_pins mode (oscan1 p tdo ks) =
    some (edge (control_bit p 1) 0) ∷ some (edge 0 (control_bit p 0)) ∷ []
asked_pins mode (sequence p js ks) = tms_list mode p.buffer_out 0 (length js)

-- The mode that a command leaves: an OScan1 exchange sets cJTAG.
abbrev pub mode_after : ℕ → Call → ℕ
mode_after mode (scan c) = mode
mode_after mode (reset p ks) = mode
mode_after mode (oscan1 p tdo ks) = 1
mode_after mode (sequence p js ks) = mode

-- The pulses of commands in a row.
abbrev pub all_pins : ℕ → List Call → List (List (Option Pins))
all_pins mode [] = []
all_pins mode (c ∷ cs) = asked_pins mode c ∷ all_pins (mode_after mode c) cs

-- The response: a header with the command and the lengths, and for a scan the TDO values of the
-- device.
abbrev pub IsAnswer : Call → OcdVpiCmd → Type 0
IsAnswer (scan c) answer =
    (answer ≡ record (header c.command (bytes_of_bits (num_bits c)) (num_bits c)) {
      buffer_in = answer.buffer_in;
    })
    × (bits_from false answer.buffer_in 0 (num_bits c) ≡ map level (c.tdo ∷ c.tdos))
IsAnswer (reset p ks) answer = answer ≡ header 0 0 0
IsAnswer (oscan1 p tdo ks) answer = answer ≡ edge_answer tdo
IsAnswer (sequence p js ks) answer = answer ≡ header 1 0 0

-- Of a list of commands, in order.
pub data AllCalls : List Call → Type 0 where
  no_calls : AllCalls []
  call_then : {c : Call} {cs : List Call} → IsCall c → AllCalls cs → AllCalls (c ∷ cs)

pub data AllAnswered : List Call → List OcdVpiCmd → Type 0 where
  no_answers : AllAnswered [] []
  answer_then :
      {c : Call} {cs : List Call} {a : OcdVpiCmd} {more : List OcdVpiCmd}
      → IsAnswer c a
      → AllAnswered cs more
      → AllAnswered (c ∷ cs) (a ∷ more)

abbrev pub images : List OcdVpiCmd → Bytes
images [] = []
images (a ∷ more) = image a ++ images more

record Served (cs : List Call) (mode : ℕ) (w : World) (r : List (List (Option Pins)) × World)
    : Type 0 where
  pins : r.0 ≡ all_pins mode cs
  answers : List OcdVpiCmd
  answered : AllAnswered cs answers
  wire : r.1.wire ≡ w.wire ++ images answers
  between : Between r.1

-- What one command comes to.
pub record One (c : Call) (w : World) (r : List (Option Pins) × World) : Type 0 where
  pub pins : r.0 ≡ asked_pins w.server.signals.pending_mode_select c
  pub answer : OcdVpiCmd
  pub answered : IsAnswer c answer
  pub wire : r.1.wire ≡ w.wire ++ image answer
  pub between : Between r.1
  pub mode :
      r.1.server.signals.pending_mode_select ≡ mode_after w.server.signals.pending_mode_select c

pub serve_call-One : (c : Call) (w : World) → IsCall c → Between w → One c w (serve_call c w)
serve_call-One (scan c) w (asks, calls) b =
    let one = serve_scan-Served c.command c.tdo c.tdos c.calls c.packet w asks b calls in
    record {
      pins = one.pins;
      answer = one.answer;
      answered = (one.head, one.bits);
      wire = one.wire;
      between = one.between;
      mode = one.mode;
    }
serve_call-One (reset p ks) w (sized, command, calls) b =
    let one = serve_reset-ServedReset ks p w sized command b calls in
    record {
      pins = one.pins;
      answer = header 0 0 0;
      answered = refl;
      wire = one.wire;
      between = one.between;
      mode = one.mode;
    }
serve_call-One (oscan1 p tdo ks) w (sized, command, calls) b =
    let one = serve_oscan1-ServedEdges tdo ks p w sized command b calls in
    record {
      pins = one.pins;
      answer = edge_answer tdo;
      answered = refl;
      wire = one.wire;
      between = one.between;
      mode = one.mode;
    }
serve_call-One (sequence p js ks) w (sized, command, bits, fits, calls) b =
    let one = serve_tms_seq-ServedBits js ks p w sized command bits fits b calls in
    record {
      pins = one.pins;
      answer = header 1 0 0;
      answered = refl;
      wire = one.wire;
      between = one.between;
      mode = one.mode;
    }

session-Served :
    (cs : List Call) (mode : ℕ) (w : World)
    → AllCalls cs
    → Between w
    → w.server.signals.pending_mode_select ≡ mode
    → Served cs mode w (session cs w)
unfolding session
session-Served [] mode w no_calls b m = record {
  pins = refl;
  answers = [];
  answered = no_answers;
  wire = sym (append-nil w.wire);
  between = b;
}
session-Served (c ∷ cs) mode w (call_then s more) b m =
    let one = serve_call-One c w s b in
    let rest =
      session-Served cs (mode_after mode c) (serve_call c w).1 more one.between
        (one.mode ∙ ap (λ g. mode_after g c) m) in
    record {
      pins = ap₂ ◌∷◌ (one.pins ∙ ap (λ g. asked_pins g c) m) rest.pins;
      answers = one.answer ∷ rest.answers;
      answered = answer_then one.answered rest.answered;
      wire =
          rest.wire
          ∙ ap (λ bs. bs ++ images rest.answers) one.wire
          ∙ append_assoc w.wire (image one.answer) (images rest.answers);
      between = rest.between;
    }

-- A connection that is about to get these commands: between two commands, or new, and then what it
-- gets first says that its client speaks the full protocol.
pub data Awaits {A : Type 0} : List A → World → Type 0 where
  next : {cs : List A} {w : World} → Between w → Awaits cs w
  first : {c : A} {cs : List A} {w : World} → Fresh w → Ready w.server → Awaits (c ∷ cs) w

serve_call-opens :
    (c : Call) (w : World)
    → IsCall c
    → Fresh w
    → Ready w.server
    → serve_call c w ≡ serve_call c (record w { server = opened w.server })
unfolding serve_scan serve_reset serve_oscan1 serve_tms_seq
serve_call-opens (scan c) w (asks, calls) o r = rw (opens c.packet w asks.sized o r) refl
serve_call-opens (reset p ks) w (sized, command, calls) o r = rw (opens p w sized o r) refl
serve_call-opens (oscan1 p tdo ks) w (sized, command, calls) o r = rw (opens p w sized o r) refl
serve_call-opens (sequence p js ks) w (sized, command, bits, fits, calls) o r =
    rw (opens p w sized o r) refl

session-opens :
    (c : Call) (cs : List Call) (w : World)
    → IsCall c
    → Fresh w
    → Ready w.server
    → session (c ∷ cs) w ≡ session (c ∷ cs) (record w { server = opened w.server })
unfolding session
session-opens c cs w s o r = rw (serve_call-opens c w s o r) refl

-- A whole session: a client of the full protocol that is new or between two commands sends scans,
-- each of 1 to 4096 bits, resets, TMS sequences of at most 4096 bits and OScan1 exchanges one after
-- the other, each packet in one piece, to a server that takes the least significant bit first and
-- has nothing else to do, and waits for each response, of which the socket takes some bytes at each
-- call; while pulses or edges of a command are to come the simulation takes what is asked for once
-- after each poll, and the client's next packet comes in only behind the last of them (for a reset
-- or a TMS sequence the response may be out before that). Then the
-- simulation is asked for exactly the pulses and edges of all the commands, in order: for a scan TMS
-- and TDI of its packet, for a reset seven times TMS high, for a TMS sequence the bits of its packet
-- with TDI low, for an exchange two edges, the first with the TMS bit of its control byte on TMS (pin
-- 1, which is TMSC), the second with the TDI bit on TDI (pin 2) and TMS low, whereupon the mode is
-- cJTAG. The client
-- gets one response for each command, in order and with nothing in between, for a scan with its
-- command, its lengths and the TDO values that came back, for an exchange with the TDO bit; and the
-- server is ready for more.
pub session_served :
    (cs : List Call) (w : World)
    → AllCalls cs
    → Awaits cs w
    → let (pins, w') = session cs w in
      (pins ≡ all_pins w.server.signals.pending_mode_select cs)
      × ((answers : List OcdVpiCmd) × AllAnswered cs answers × (w'.wire ≡ w.wire ++ images answers))
      × Between w'
session_served cs w a (next b) =
    let r = session-Served cs w.server.signals.pending_mode_select w a b refl in
    (r.pins, (r.answers, r.answered, r.wire), r.between)
session_served (c ∷ cs) w (call_then s more) (first o r) = rw (session-opens c cs w s o r) (
    let q =
      session-Served (c ∷ cs) w.server.signals.pending_mode_select
        (record w { server = opened w.server }) (call_then s more) (known-Between w o r) refl in
    (q.pins, (q.answers, q.answered, q.wire), q.between))
