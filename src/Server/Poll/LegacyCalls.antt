-- ===== src/Server/Poll/LegacyCalls.antt =====
-- The commands of a client of the legacy mode, the polls that serve them, and what they ask for.
use jtag.Prelude.{
  ℕ, ◌+◌, ◌≤◌, ◌≡◌, Bool, List, [], ◌∷◌, ◌++◌, Option, some, length, map, drop, get_or, replicate,
}
use jtag.Wire.{Bytes, be32_to_host, minimal_size, response_bytes}
use jtag.Socket.{takes, Outcome}
use jtag.Server.State.{World}
use jtag.Server.Signals.{Pins}
use jtag.Server.Packet.Reset.{reset_pins}
use jtag.Server.Work.Oscan1.{taken, offered}
use jtag.Server.Poll.Sequence.{poll_and_take}
use jtag.Server.Scan.{bytes_of_bits}
use jtag.Server.Scan.Engine.{bits_from, level, last_or}
use jtag.Server.Poll.{poll}
use jtag.Server.Poll.Clients.{polls}
use jtag.Server.Poll.Shifting.{simulated_all}
use jtag.Server.Poll.Between.{arrives}
use jtag.Server.Poll.Buffered.{buffer_list}

-- A scan that a client asks for: the command, the bytes of TMS and TDI, the TDO values that the
-- device answers with, and how much more than the response and the TDO bytes the socket would take.
pub record BufferCall : Type 0 where
  pub command : Bytes
  pub tms : Bytes
  pub tdi : Bytes
  pub tdo : ℕ
  pub tdos : List ℕ
  pub room : ℕ
  pub tdo_room : ℕ

pub data LegacyCall : Type 0 where
  scan_buffers : BufferCall → LegacyCall
  reset_jtag : Bytes → ℕ → LegacyCall
  set_port : Bytes → ℕ → LegacyCall
  ask_oscan1 : Bytes → ℕ → LegacyCall

abbrev pub num_bits : BufferCall → ℕ
num_bits c = length (c.tdo ∷ c.tdos)

-- Eight bytes with this command and a length that is not out of range.
abbrev pub IsCommand : ℕ → Bytes → Type 0
IsCommand cmd bytes =
    (length bytes ≡ minimal_size) × (get_or bytes 0 0 ≡ cmd) × (be32_to_host (drop 4 bytes) ≤ 4096)

abbrev pub IsLegacyCall : LegacyCall → Type 0
IsLegacyCall (scan_buffers c) =
    IsCommand 2 c.command
    × (be32_to_host (drop 4 c.command) ≡ num_bits c)
    × (length c.tms ≡ bytes_of_bits (num_bits c))
    × (length c.tdi ≡ bytes_of_bits (num_bits c))
IsLegacyCall (reset_jtag bytes room) = IsCommand 0 bytes
IsLegacyCall (set_port bytes room) = IsCommand 3 bytes
IsLegacyCall (ask_oscan1 bytes room) = IsCommand 5 bytes

-- A poll that takes in these bytes and may send a response.
abbrev pub command_polled : Bytes → List Outcome → World → World
command_polled bytes os w = poll (record w { inbox = arrives bytes; sends = os })

-- Three polls take in the command and the buffers; for each bit there is a poll, after which the
-- simulation takes the pulse and reports TDO; one more poll takes in the last answer, and another
-- sends the TDO bytes.
unfoldable pub serve_buffers : BufferCall → World → List (Option Pins) × World
serve_buffers c w =
    let w₁ =
      command_polled c.command
        (takes (4 + c.room) ∷ takes (bytes_of_bits (num_bits c) + c.tdo_room) ∷ []) w in
    let w₂ = poll (record w₁ { inbox = arrives c.tms }) in
    let w₃ = poll (record w₂ { inbox = arrives c.tdi }) in
    let (pins, w₄) = simulated_all (c.tdo ∷ c.tdos) w₃ in (pins, polls 2 w₄)

-- A poll takes in the command and answers it; the simulation takes what is asked for once after this
-- poll and once after each of six more.
unfoldable pub serve_legacy_reset : Bytes → ℕ → World → List (Option Pins) × World
serve_legacy_reset bytes room w =
    let w₁ = command_polled bytes (takes (4 + room) ∷ []) w in
    let (pins, w₂) = poll_and_take 6 (taken w₁) in (offered w₁ ∷ pins, w₂)

abbrev pub serve_legacy : LegacyCall → World → List (Option Pins) × World
serve_legacy (scan_buffers c) w = serve_buffers c w
serve_legacy (reset_jtag bytes room) w = serve_legacy_reset bytes room w
serve_legacy (set_port bytes room) w = ([], command_polled bytes (takes (4 + room) ∷ []) w)
serve_legacy (ask_oscan1 bytes room) w = ([], command_polled bytes (takes (4 + room) ∷ []) w)

unfoldable pub legacy_session : List LegacyCall → World → List (List (Option Pins)) × World
legacy_session [] w = ([], w)
legacy_session (c ∷ cs) w =
    let (pins, w₁) = serve_legacy c w in
    let (later, w₂) = legacy_session cs w₁ in (pins ∷ later, w₂)

-- The pulses that a command asks for, with the bit order and in the mode that are set.
abbrev pub legacy_pins : Bool → ℕ → LegacyCall → List (Option Pins)
legacy_pins msb_first mode (scan_buffers c) =
    buffer_list msb_first c.tms c.tdi mode 0 (c.tdo ∷ c.tdos)
legacy_pins msb_first mode (reset_jtag bytes room) = replicate 7 (some (reset_pins mode))
legacy_pins msb_first mode (set_port bytes room) = []
legacy_pins msb_first mode (ask_oscan1 bytes room) = []

-- The TDO value that was reported last.
abbrev pub tdo_behind : ℕ → LegacyCall → ℕ
tdo_behind tdo (scan_buffers c) = last_or tdo (c.tdo ∷ c.tdos)
tdo_behind tdo (reset_jtag bytes room) = tdo
tdo_behind tdo (set_port bytes room) = tdo
tdo_behind tdo (ask_oscan1 bytes room) = tdo

-- What the client gets: four bytes, with the TDO value that was reported last, and for a scan the
-- TDO bytes behind them.
abbrev pub IsReply : Bool → ℕ → LegacyCall → Bytes → Type 0
IsReply msb_first tdo (scan_buffers c) reply =
    (out : Bytes) × (reply ≡ response_bytes 0 tdo 0 0 ++ out)
    × (length out ≡ length c.tms)
    × (bits_from msb_first out 0 (num_bits c) ≡ map level (c.tdo ∷ c.tdos))
IsReply msb_first tdo (reset_jtag bytes room) reply = reply ≡ response_bytes 0 tdo 0 0
IsReply msb_first tdo (set_port bytes room) reply = reply ≡ response_bytes 0 0 0 0
IsReply msb_first tdo (ask_oscan1 bytes room) reply = reply ≡ response_bytes 0 tdo 0 0
