-- ===== src/Tests/Devices.antt =====
-- A session with a device behind the server, at concrete inputs.
use jtag.Prelude.{ℕ, suc, ◌%◌, ◌≡◌, refl, List, [], ◌∷◌, replicate}
use jtag.Wire.{header}
use jtag.Server.Signals.{Pins}
use jtag.Server.Poll.Between.{Between}
use jtag.Server.Poll.Asks.{Ask, ask_scan, ask_reset, ask_oscan1, ask_sequence, device_behind}
use jtag.Tests.Packets.{ten_bits, nine_bits, three_each}

-- A device that counts what it is handed, and drives the parity of the count.
count : Pins → ℕ → ℕ
count p d = suc d

parity : ℕ → ℕ
parity d = d % 2

asked : List Ask
asked =
    ask_reset (header 0 0 0) three_each
    ∷ ask_scan 2 9 ten_bits three_each
    ∷ ask_sequence nine_bits (replicate 9 0) three_each
    ∷ ask_oscan1 (header 5 1 2) three_each
    ∷ []

-- The device is handed seven pulses, ten, nine, and two edges.
counted : device_behind count parity 0 asked 0 ≡ 28
unfolding count asked
counted = refl
