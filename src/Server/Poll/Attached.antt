-- ===== src/Server/Poll/Attached.antt =====
-- A session of a client of the full protocol with a device that the simulation drives.
use jtag.Prelude.{ℕ, ◌≡◌, List, ◌++◌, Option}
use jtag.Wire.{OcdVpiCmd}
use jtag.Server.State.{World}
use jtag.Server.Signals.{Pins}
use jtag.Server.Poll.Between.{Between}
use jtag.Server.Poll.Session.{AllAnswered, images}
use jtag.Server.Poll.Asks.{Ask, all_pulses, device_behind, calls_of}

-- What a session comes to, in terms of the packets and the device alone.
record Transparent {D : Type 0} (clock : Pins → D → D) (tdo : D → ℕ) (asks : List Ask) (mode : ℕ)
    (w : World) (d : D) (r : (List (List (Option Pins)) × World) × D) : Type 0 where
  pins : r.0.0 ≡ all_pulses mode asks
  device : r.1 ≡ device_behind clock tdo mode asks d
  replies : List OcdVpiCmd
  answered : AllAnswered (calls_of clock tdo mode asks d) replies
  wire : r.0.1.wire ≡ w.wire ++ images replies
  between : Between r.0.1
