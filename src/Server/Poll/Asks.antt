-- ===== src/Server/Poll/Asks.antt =====
-- What a client of the full protocol may ask of a device behind the server, what that means for the
-- device, and the polls of such a session.
use jtag.Prelude.{ℕ, suc, ◌≤◌, ◌≡◌, List, [], ◌∷◌, Option, some, length, replicate}
use jtag.Wire.{OcdVpiCmd, le32_to_host, vpi_pkt_size}
use jtag.Wire.Layout.{IsSized}
use jtag.Server.State.{World}
use jtag.Server.Signals.{Pins}
use jtag.Server.Packet.FullScan.{scan_pins}
use jtag.Server.Packet.Reset.{reset_pins}
use jtag.Server.Work.Oscan1.{edge}
use jtag.Server.Work.TmsSequence.{tms_list}
use jtag.Server.Poll.Requests.{AsksScan}
use jtag.Server.Poll.Edges.{control_bit}
use jtag.Server.Poll.Resetting.{serve_reset}
use jtag.Server.Poll.Sequencing.{serve_tms_seq}
use jtag.Server.Poll.Device.{
  scan_pulses, driven, all_driven, answers, attached_scan, attached_oscan1,
}
use jtag.Server.Poll.Session.{Call, scan, reset, oscan1, sequence}

-- What a client asks for, and how much the socket takes of the response at each call: a scan has
-- its command and the number of the bits behind its first, a TMS sequence an entry for each bit.
pub data Ask : Type 0 where
  ask_scan : ℕ → ℕ → OcdVpiCmd → List ℕ → Ask
  ask_reset : OcdVpiCmd → List ℕ → Ask
  ask_oscan1 : OcdVpiCmd → List ℕ → Ask
  ask_sequence : OcdVpiCmd → List ℕ → List ℕ → Ask

abbrev pub IsAsk : Ask → Type 0
IsAsk (ask_scan c m p ks) = AsksScan c (suc m) p × (length ks ≡ vpi_pkt_size)
IsAsk (ask_reset p ks) = IsSized p × (le32_to_host p.cmd_buf ≡ 0) × (length ks ≡ vpi_pkt_size)
IsAsk (ask_oscan1 p ks) = IsSized p × (le32_to_host p.cmd_buf ≡ 5) × (length ks ≡ vpi_pkt_size)
IsAsk (ask_sequence p js ks) =
    IsSized p
    × (le32_to_host p.cmd_buf ≡ 1)
    × (le32_to_host p.nb_bits_buf ≡ length js)
    × (length js ≤ 4096)
    × (length ks ≡ vpi_pkt_size)

pub data AllAsks : List Ask → Type 0 where
  no_asks : AllAsks []
  ask_then : {a : Ask} {more : List Ask} → IsAsk a → AllAsks more → AllAsks (a ∷ more)

-- The pulses and edges that the packet stands for, in the mode that is set.
abbrev pub pulses_of : ℕ → Ask → List (Option Pins)
pulses_of mode (ask_scan c m p ks) = scan_pulses c (suc m) p.buffer_out mode 0 (suc m)
pulses_of mode (ask_reset p ks) = replicate 7 (some (reset_pins mode))
pulses_of mode (ask_oscan1 p ks) =
    some (edge (control_bit p 1) 0) ∷ some (edge 0 (control_bit p 0)) ∷ []
pulses_of mode (ask_sequence p js ks) = tms_list mode p.buffer_out 0 (length js)

abbrev pub mode_behind : ℕ → Ask → ℕ
mode_behind mode (ask_oscan1 p ks) = 1
mode_behind mode (ask_scan c m p ks) = mode
mode_behind mode (ask_reset p ks) = mode
mode_behind mode (ask_sequence p js ks) = mode

abbrev pub all_pulses : ℕ → List Ask → List (List (Option Pins))
all_pulses mode [] = []
all_pulses mode (a ∷ more) = pulses_of mode a ∷ all_pulses (mode_behind mode a) more

module _ {D : Type 0} (clock : Pins → D → D) (tdo : D → ℕ) where
  -- The command, the polls and the device.
  abbrev pub attend : Ask → World → D → (List (Option Pins) × World) × D
  attend (ask_scan c m p ks) w d = attached_scan clock tdo p (suc m) ks w d
  attend (ask_reset p ks) w d = let r = serve_reset p ks w in (r, all_driven clock tdo r.0 d)
  attend (ask_oscan1 p ks) w d = attached_oscan1 clock tdo p ks w d
  attend (ask_sequence p js ks) w d =
      let r = serve_tms_seq p js ks w in (r, all_driven clock tdo r.0 d)

  unfoldable pub attend_all : List Ask → World → D → (List (List (Option Pins)) × World) × D
  attend_all [] w d = (([], w), d)
  attend_all (a ∷ more) w d =
      let ((pins, w₁), d₁) = attend a w d in
      let ((later, w₂), d₂) = attend_all more w₁ d₁ in ((pins ∷ later, w₂), d₂)

  -- The device once the packets have been carried out on it directly.
  abbrev pub device_behind : ℕ → List Ask → D → D
  device_behind mode [] d = d
  device_behind mode (a ∷ more) d =
      device_behind (mode_behind mode a) more (all_driven clock tdo (pulses_of mode a) d)

  -- The command with what the device answers when the packet is carried out on it directly.
  abbrev pub call_of : ℕ → Ask → D → Call
  call_of mode (ask_scan c m p ks) d =
      let d₁ = driven clock tdo (some (scan_pins c (suc m) p.buffer_out mode 0)) d in
      scan (record {
        command = c;
        packet = p;
        tdo = tdo d₁;
        tdos = answers clock tdo (scan_pulses c (suc m) p.buffer_out mode 1 m) d₁;
        calls = ks;
      })
  call_of mode (ask_reset p ks) d = reset p ks
  call_of mode (ask_oscan1 p ks) d =
      oscan1 p (tdo (all_driven clock tdo (pulses_of mode (ask_oscan1 p ks)) d)) ks
  call_of mode (ask_sequence p js ks) d = sequence p js ks

  abbrev pub calls_of : ℕ → List Ask → D → List Call
  calls_of mode [] d = []
  calls_of mode (a ∷ more) d =
      call_of mode a d
      ∷ calls_of (mode_behind mode a) more (all_driven clock tdo (pulses_of mode a) d)
