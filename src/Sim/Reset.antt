-- ===== src/Sim/Reset.antt =====
-- The reset phases of the loop of sim/sim_vpi_main.cpp: SIM_RESET_SYSTEM, SIM_RESET_JTAG_INIT and
-- SIM_RESET_JTAG_PULSE.
use jtag.Prelude.{
  ℕ, zero, suc, ◌≡◌, refl, ap, ap₂, arith, ◌∙◌, Bool, true, false, ◌&&◌, List, [], ◌∷◌, ◌==◌,
  if◌then◌else◌, replicate,
}
use jtag.Server.State.{World}
use jtag.Server.Poll.{poll}
use jtag.Sim.{
  SimState, reset_system, reset_jtag_init, reset_jtag_pulse, sim_idle, Inputs, Outputs, Driver, Sim,
  start, hold_reset, init_jtag, pulse_jtag, end_pulse, act, set_clk, advance, drive, half_cycles,
}

-- The state is one of the reset.
abbrev pub in_reset : SimState → Bool
in_reset reset_system = true
in_reset reset_jtag_init = true
in_reset reset_jtag_pulse = true
in_reset _ = false

-- A pass in these states, which looks at neither the server nor the device.
abbrev reset_act : SimState → Driver → Driver
reset_act reset_system d = hold_reset d
reset_act reset_jtag_init d = init_jtag d
reset_act reset_jtag_pulse d = pulse_jtag d
reset_act _ d = d

abbrev reset_pass : Driver → Driver
reset_pass d = advance (reset_act d.state (set_clk d))

-- `n` such passes: whether all begin in the reset, the inputs and the end.
resets : ℕ → Driver → Bool × List Inputs × Driver
resets zero d = (true, [], d)
resets (suc n) d =
    let d' = reset_pass d in
    let (all, seen, last) = resets n d' in (in_reset d.state && all, d'.inputs ∷ seen, last)

act-reset :
    (st : SimState) (o : Outputs) (s : Sim)
    → in_reset st ≡ true
    → (act st o s).driver ≡ reset_act st s.driver
unfolding act
act-reset st o s h = ground arith

drive-reset :
    (o : Outputs) (s : Sim)
    → in_reset s.driver.state ≡ true
    → (drive o s).driver ≡ reset_pass s.driver
unfolding drive
drive-reset o s h =
    ap advance
      (act-reset s.driver.state o (record { driver = set_clk s.driver; world = poll s.world }) h)

both : (a b : Bool) → a && b ≡ true → (a ≡ true) × (b ≡ true)
both a b h = ground arith

module _ {D : Type 0} (outputs : D → Outputs) (eval : Inputs → D → D) where
  -- While the reset lasts, the loop does what `resets` does.
  half_cycles-resets :
      (n : ℕ) (s : Sim) (d : D)
      → (resets n s.driver).0 ≡ true
      → let (seen, last) = half_cycles outputs eval n s d in
        (seen ≡ (resets n s.driver).1) × (last.driver ≡ (resets n s.driver).2)
  unfolding half_cycles resets
  half_cycles-resets zero s d h = (refl, refl)
  half_cycles-resets (suc n) s d h =
      let s' = drive (outputs d) s in
      let step = drive-reset (outputs d) s (both _ _ h).0 in
      let rest =
        half_cycles-resets n s' (eval s'.driver.inputs d)
          (ap (λ e. (resets n e).0) step ∙ (both _ _ h).1) in
      (
        ap₂ (λ e is. e.inputs ∷ is) step (rest.0 ∙ ap (λ e. (resets n e).1) step),
        rest.1 ∙ ap (λ e. (resets n e).2) step,
      )

-- The TMS levels at the rising edges of TCK, where `tck` is its level before.
unfoldable pub tms_at_edges : ℕ → List Inputs → List ℕ
tms_at_edges tck [] = []
tms_at_edges tck (i ∷ is) =
    let rest = tms_at_edges i.jtag_pin0_i is in
    if tck == 0 && i.jtag_pin0_i == 1 then i.jtag_pin1_i ∷ rest else rest

module _ {D : Type 0} (outputs : D → Outputs) (eval : Inputs → D → D) where
  -- From the start of the loop, whatever the clients and the device do, 91 half clock cycles make
  -- the reset: they show the device exactly five rising edges of TCK, all with TMS high, which take
  -- the TAP to its reset state; then the reset lines are released, TCK and TMS are low and the loop
  -- is in SIM_IDLE.
  pub reset_sequence :
      (mode : ℕ) (w : World) (d : D)
      → let (seen, last) =
          half_cycles outputs eval 91 (record { driver = start mode; world = w }) d in
        (tms_at_edges 0 seen ≡ replicate 5 1)
        × (last.driver.state ≡ sim_idle)
        × (last.driver.inputs.rst_n ≡ 1)
        × (last.driver.inputs.jtag_trst_n_i ≡ 1)
        × (last.driver.inputs.jtag_pin0_i ≡ 0)
        × (last.driver.inputs.jtag_pin1_i ≡ 0)
  unfolding start resets hold_reset init_jtag pulse_jtag end_pulse set_clk advance tms_at_edges
  reset_sequence mode w d =
      let r =
        half_cycles-resets outputs eval 91 (record { driver = start mode; world = w }) d refl in
      (
        ap (tms_at_edges 0) r.0,
        ap (λ e. e.state) r.1,
        ap (λ e. e.inputs.rst_n) r.1,
        ap (λ e. e.inputs.jtag_trst_n_i) r.1,
        ap (λ e. e.inputs.jtag_pin0_i) r.1,
        ap (λ e. e.inputs.jtag_pin1_i) r.1,
      )
