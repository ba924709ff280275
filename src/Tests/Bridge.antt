-- ===== src/Tests/Bridge.antt =====
-- The server and the clients of vpi/ at concrete inputs.
use jtag.Prelude.{
  ℕ, zero, suc, ◌≡◌, ◌≢◌, refl, ◌+◌, ◌*◌, ◌^◌, ◌%◌, true, false, List, [], ◌∷◌, ◌++◌, map, bit_at,
  some, get_or, arith,
}
use jtag.Wire.{Bytes}
use jtag.Client.{hold_tms, send_tco, shift_data, reset_tap, read_idcode}
use jtag.Client.Collect.{bits_of}
use jtag.Client.Connect.{connect_to_vpi}
use jtag.Client.Plain.{jtag_vpi_connect, reset_test, jtag_read_idcode, clients_agree}
use jtag.Client.Shift.{Line, exchange}
use jtag.Bridge.{Signal, tck, tdi, tdo, idcode, Simulator, Bridge, over}
use jtag.Bridge.Scan.{clock_all, scan_levels, shift_data-clocks}
use jtag.Bridge.Identify.{read_idcode_garbled}
use jtag.Bridge.Thread.{Thread, serve_client}
use jtag.Bridge.Thread.Answers.{Command, whole, answers, serve_client-answers}

-- A design that puts on TDO what TDI was at the last rising edge but one.
record Bypass : Type 0 where
  tdi_pin : ℕ
  held : ℕ
  tdo_pin : ℕ

get_pin : Signal → Bypass → ℕ
get_pin tdo d = d.tdo_pin
get_pin idcode d = 0x1dead3ff
get_pin s d = 0

put_pin : Signal → ℕ → Bypass → Bypass
put_pin tdi n d = record d { tdi_pin = n }
put_pin tck (suc n) d = record d { held = d.tdi_pin; tdo_pin = d.held }
put_pin s n d = d

abbrev bypass : Simulator
bypass = record { Design = Bypass; vpi_get_value = get_pin; vpi_put_value = put_pin }

blank : Bytes
blank = 0 ∷ []

clear : (i : ℕ) → get_or blank i 0 ≡ 0
unfolding blank
clear zero = refl
clear (suc i) = refl

abbrev fresh : Bridge bypass
fresh = record {
  resp = record { response = 0; tdo_val = 1; mode = 0; status = 0 };
  design = record { tdi_pin = 0; held = 0; tdo_pin = 0 };
  overrun = false;
}

-- Five bits through the bypass register come out one pulse later.
five_bits : (clock_all bypass (scan_levels (0x13 ∷ []) 0 5) fresh.design).0 ≡ 0 ∷ 1 ∷ 1 ∷ 0 ∷ 0 ∷ []
unfolding clock_all get_pin put_pin bit_at
five_bits = refl

shift_data-clocks_example :
    let (tdos, d) = clock_all bypass (scan_levels (0x13 ∷ []) 0 5) fresh.design in
    let (r, fault, b') = shift_data (over bypass) (0x13 ∷ []) 5 (some blank) fresh in
    ((buf' : Bytes) × (r ≡ some (some buf')) × (bits_of buf' 0 5 ≡ tdos))
    × (fault ≡ false)
    × (b'.design ≡ d)
    × (b'.overrun ≡ fresh.overrun)
shift_data-clocks_example =
    shift_data-clocks bypass (0x13 ∷ []) 5 blank fresh clear (omega arith)
      (unfold blank in omega arith)

read_idcode_garbled_example :
    ((read_idcode (over bypass) fresh).0
      ≡ 2
        + 256 * fresh.resp.tdo_val
        + 65536 * fresh.resp.mode
        + 2 ^ 24 * (bypass.vpi_get_value idcode fresh.design % 256))
    × ((read_idcode (over bypass) fresh).0 ≢ bypass.vpi_get_value idcode fresh.design)
    × ((read_idcode (over bypass) fresh).1.overrun ≡ true)
read_idcode_garbled_example = read_idcode_garbled bypass fresh (unfold get_pin in refl)

commands : List Command
commands =
    record { cmd = 1; tms_val = 0; tdi_val = 1; pad = 0 }
    ∷ record { cmd = 9; tms_val = 0; tdi_val = 0; pad = 0 }
    ∷ []

thread : Thread bypass
thread = record { bridge = fresh; cmd = 0 ∷ 0 ∷ 0 ∷ 0 ∷ []; wire = []; open_socks = 1 }

serve_client-answers_example :
    let s' = serve_client bypass (map whole commands) thread in
    (s'.wire ≡ thread.wire ++ (answers bypass commands thread.bridge).0)
    × (s'.bridge ≡ (answers bypass commands thread.bridge).1)
    × (s'.open_socks ≡ thread.open_socks)
serve_client-answers_example = serve_client-answers bypass commands thread (unfold thread in refl)

-- Six answers for the reset, and one for the IDCODE.
answering : Line
answering = record {
  sent = [];
  answers =
      (1 ∷ 0 ∷ 0 ∷ 0 ∷ [])
      ∷ (1 ∷ 0 ∷ 0 ∷ 0 ∷ [])
      ∷ (1 ∷ 0 ∷ 0 ∷ 0 ∷ [])
      ∷ (1 ∷ 0 ∷ 0 ∷ 0 ∷ [])
      ∷ (1 ∷ 0 ∷ 0 ∷ 0 ∷ [])
      ∷ (1 ∷ 0 ∷ 0 ∷ 0 ∷ [])
      ∷ (0xff ∷ 0xd3 ∷ 0xea ∷ 0x1d ∷ [])
      ∷ [];
}

clients_agree_example :
    (jtag_vpi_connect true (false ∷ true ∷ []) ≡ (connect_to_vpi true (false ∷ true ∷ [])).0)
    × (reset_test exchange answering ≡ (reset_tap exchange answering).1)
    × (jtag_read_idcode exchange answering ≡ read_idcode exchange answering)
clients_agree_example =
    clients_agree exchange true (false ∷ true ∷ []) answering
      (unfold answering reset_tap hold_tms send_tco exchange in refl)
