-- ===== src/Client/Main.antt =====
-- `main` of vpi/jtag_vpi_advanced.cpp behind the connection: its five tests and the exit code.
-- Pauses and messages are left out.
use jtag.Prelude.{ℕ, Bool, true, false, List, Option, ◌==◌}
use jtag.Wire.{Bytes}
use jtag.Client.{reset_tap, read_idcode, get_mode, set_client_mode, pulse_tck}
use jtag.Client.Connect.{connect_to_vpi}

module _ {L : Type 0} (exchange : Bytes → L → Option Bytes × L) where
  -- Tests 3 and 4, whose results are not looked at; `rest i` is what call `i` of `get_mode` leaves
  -- unset.
  unfoldable pub mode_tests : (ℕ → Bytes) → L → L
  unfolding get_mode set_client_mode
  mode_tests rest l =
      let l₁ = (get_mode exchange (rest 0) l).1 in
      let l₂ = (set_client_mode exchange 1 l₁).1 in
      let l₃ = (get_mode exchange (rest 1) l₂).1 in
      let l₄ = (set_client_mode exchange 0 l₃).1 in (get_mode exchange (rest 2) l₄).1

  unfoldable pub later_tests : (ℕ → Bytes) → L → ℕ × L
  unfolding mode_tests pulse_tck
  later_tests rest l =
      let (ok, l') = pulse_tck exchange 100 (mode_tests rest l) in
      elim ok [ true ↦ (0, l') | false ↦ (1, l') ]

  unfoldable pub run_tests : (ℕ → Bytes) → L → ℕ × L
  unfolding reset_tap read_idcode later_tests
  run_tests rest l =
      let (ok, l₁) = reset_tap exchange l in
      elim ok [
        | true ↦
            let (idcode, l₂) = read_idcode exchange l₁ in
            elim (idcode == 0) [ true ↦ (1, l₂) | false ↦ later_tests rest l₂ ]
        | false ↦ (1, l₁)
      ]

  -- The exit code of the program.
  unfoldable pub client_main : Bool → List Bool → (ℕ → Bytes) → L → ℕ × L
  unfolding connect_to_vpi run_tests
  client_main socket_made rs rest l = elim (connect_to_vpi socket_made rs).0 [
    | true ↦ run_tests rest l
    | false ↦ (1, l)
  ]
