-- ===== src/Tests/Client.antt =====
-- The client of vpi/jtag_vpi_advanced.cpp at concrete inputs.
use jtag.Wire.{Bytes}
use jtag.Prelude.{
  false, List, ℕ, ◌≡◌, ◌++◌, ◌+◌, ◌*◌, ◌^◌, ◌<◌, [], ◌∷◌, true, some, replicate, length, arith,
}
use jtag.Client.{display_idcode, shift_data, reset_tap, is_some}
use jtag.Client.Shift.{Line, exchange, bit_cmds, shift_data-sent, reset_tap_lem, display_idcode_lem}

-- Six answers, of which two have TDO high.
answered_line : Line
answered_line = record {
  sent = [];
  answers =
      (0 ∷ 1 ∷ 0 ∷ 0 ∷ []) ∷ (0 ∷ 0 ∷ 0 ∷ 0 ∷ []) ∷ replicate 3 (0 ∷ 0 ∷ 0 ∷ 0 ∷ [])
      ++ (0 ∷ 1 ∷ 0 ∷ 0 ∷ []) ∷ [];
}

shift_data-sent_example :
    let (r, fault, l') =
      shift_data exchange
        (0x2b ∷ [])
        (length answered_line.answers)
        (some (0 ∷ []))
        answered_line in
    (l'.sent ≡ answered_line.sent ++ bit_cmds (0x2b ∷ []) 0 (length answered_line.answers))
    × (is_some r ≡ true)
    × (fault ≡ false)
shift_data-sent_example =
    shift_data-sent (0x2b ∷ []) (some (0 ∷ [])) answered_line (unfold answered_line in omega arith)
      (unfold answered_line in omega arith)

reset_tap_lem_example :
    let (ok, l') = reset_tap exchange answered_line in
    (ok ≡ true)
    × (l'.sent
        ≡ answered_line.sent ++ (replicate 5 (1 ∷ 1 ∷ 0 ∷ 0 ∷ []) ++ (1 ∷ 0 ∷ 0 ∷ 0 ∷ []) ∷ []))
reset_tap_lem_example = reset_tap_lem answered_line (unfold answered_line in omega arith)

display_idcode_lem_example :
    let d = display_idcode 0x1dead3ff in
    (d.version * 2 ^ 28 + d.partnum * 2 ^ 12 + d.mfg_id * 2 + d.fixed ≡ 0x1dead3ff)
    × (d.version < 2 ^ 4)
    × (d.partnum < 2 ^ 16)
    × (d.mfg_id < 2 ^ 11)
    × (d.fixed < 2)
display_idcode_lem_example = display_idcode_lem 0x1dead3ff (omega arith)

-- Three bits in a buffer of one byte.
tdos : List ℕ
tdos = 1 ∷ 0 ∷ 1 ∷ []

blank : Bytes
blank = 0 ∷ []
