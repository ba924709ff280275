-- ===== src/Sim/Running.antt =====
-- The loop of sim/sim_vpi_main.cpp after the reset: SIM_IDLE, SIM_VPI_ACTIVE and SIM_VPI_PROCESSING.
use jtag.Prelude.{
  ℕ, zero, suc, ◌+◌, ◌/◌, ◌%◌, ◌^◌, ◌<◌, ◌≡◌, refl, ap, ap₂, ◌∙◌, Bool, true, false, not, ◌&&◌,
  ◌||◌, List, [], ◌∷◌, if◌then◌else◌, arith, map,
}
use jtag.Server.State.{Signals}
use jtag.Server.Signals.{get_pending_signals, update_signals}
use jtag.Server.Poll.{poll}
use jtag.Sim.{
  SimState, sim_idle, vpi_active, vpi_processing, shutdown, Inputs, Outputs, Driver, Sim, act,
  set_clk, advance, drive, half_cycles, level, request, request_connected, look_for_work,
  await_request, process_request, drive_pins, rest_pins, hold_reset, init_jtag, pulse_jtag,
  end_pulse,
}
use jtag.Sim.Reset.{tms_at_edges}

-- After the reset.
abbrev pub running : SimState → Bool
running sim_idle = true
running vpi_active = true
running vpi_processing = true
running _ = false

-- What a pass does to the clock.
act-clock :
    (st : SimState) (o : Outputs) (s : Sim)
    → ((act st o s).driver.inputs.clk ≡ s.driver.inputs.clk)
      × ((act st o s).driver.cycle_count ≡ s.driver.cycle_count)
      × ((act st o s).driver.clk_pulse_phase ≡ s.driver.clk_pulse_phase)
unfolding act hold_reset init_jtag pulse_jtag end_pulse look_for_work await_request process_request
    drive_pins rest_pins
act-clock st o s = ground arith

-- A pass without a TCKC edge.
act-low :
    (st : SimState) (o : Outputs) (s : Sim)
    → running st ≡ true
    → s.driver.state ≡ st
    → s.driver.inputs.jtag_pin0_i ≡ 0
    → s.world.server.signals.pending_tckc_toggle ≡ false
    → ((act st o s).driver.inputs.jtag_pin0_i ≡ 0) × (running (act st o s).driver.state ≡ true)
unfolding act look_for_work await_request process_request drive_pins rest_pins request
    request_connected get_pending_signals update_signals
act-low st o s r e z t = ground arith

-- Neither at its end nor about to be.
abbrev pub is_open : Driver → Bool
is_open d = not d.finish && not (ends d.state)
  where
    ends : SimState → Bool
    ends shutdown = true
    ends _ = false

act-open :
    (st : SimState) (o : Outputs) (s : Sim)
    → s.driver.state ≡ st
    → is_open s.driver ≡ true
    → is_open (act st o s).driver ≡ true
unfolding act hold_reset init_jtag pulse_jtag end_pulse look_for_work await_request process_request
    drive_pins rest_pins
act-open st o s e h = ground arith

-- The levels of the clock in `n` half cycles.
abbrev pub alternating : Bool → ℕ → List ℕ
alternating phase zero = []
alternating phase (suc n) = level phase ∷ alternating (not phase) n

pub drive-clock :
    (o : Outputs) (s : Sim)
    → let d = s.driver in
      let e = (drive o s).driver in
      (e.inputs.clk ≡ level d.clk_pulse_phase)
      × (e.cycle_count
          ≡ (if d.clk_pulse_phase then (d.cycle_count + 1) % 2 ^ 64 else d.cycle_count))
      × (e.clk_pulse_phase ≡ not d.clk_pulse_phase)
unfolding drive set_clk advance
drive-clock o s =
    ground (
      arith,
      act-clock s.driver.state o (record { driver = set_clk s.driver; world = poll s.world }),
    )

pub drive-open :
    (o : Outputs) (s : Sim) → is_open s.driver ≡ true → is_open (drive o s).driver ≡ true
unfolding drive set_clk advance
drive-open o s h =
    act-open s.driver.state o (record { driver = set_clk s.driver; world = poll s.world }) refl h

-- The poll that a pass begins with leaves no TCKC edge for it.
abbrev pub has_edge : Sim → Bool
has_edge s = (poll s.world).server.signals.pending_tckc_toggle

drive-low :
    (o : Outputs) (s : Sim)
    → running s.driver.state ≡ true
    → s.driver.inputs.jtag_pin0_i ≡ 0
    → has_edge s ≡ false
    → ((drive o s).driver.inputs.jtag_pin0_i ≡ 0) × (running (drive o s).driver.state ≡ true)
unfolding drive set_clk advance
drive-low o s r z t =
    act-low s.driver.state o (record { driver = set_clk s.driver; world = poll s.world }) r refl z t

module _ {D : Type 0} (outputs : D → Outputs) (eval : Inputs → D → D) where
  -- The clock of the device has a duty cycle of one half: in `n` half cycles it alternates, and
  -- `cycle_count`, which starts as a number of 64 bits, counts its high levels modulo 2 ^ 64.
  pub clock_alternates :
      (n : ℕ) (s : Sim) (d : D)
      → s.driver.cycle_count < 2 ^ 64
      → let (seen, last) = half_cycles outputs eval n s d in
        (map (λ i. i.clk) seen ≡ alternating s.driver.clk_pulse_phase n)
        × (last.driver.cycle_count
            ≡ (s.driver.cycle_count + (n + level s.driver.clk_pulse_phase) / 2) % 2 ^ 64)
  unfolding half_cycles
  clock_alternates zero s d h = (refl, ground arith)
  clock_alternates (suc n) s d h =
      let s' = drive (outputs d) s in
      let c = drive-clock (outputs d) s in
      let rest = clock_alternates n s' (eval s'.driver.inputs d) (ground (arith, c)) in
      (ap₂ ◌∷◌ c.0 (rest.0 ∙ ap (λ p. alternating p n) c.2), ground (arith, c, rest))

  -- Whether a TCKC edge is asked for in one of `n` passes.
  unfoldable pub asks_for_edge : ℕ → Sim → D → Bool
  asks_for_edge zero s d = false
  asks_for_edge (suc n) s d =
      let s' = drive (outputs d) s in
      let rest = asks_for_edge n s' (eval s'.driver.inputs d) in if has_edge s then true else rest

  -- After the reset, as long as no client asks for a TCKC edge, the device is never shown a rising
  -- edge of TCK, whatever pulses the clients ask for: the loop sets TCK high and low again without
  -- an evaluation in between.
  pub tck_never_rises :
      (n : ℕ) (s : Sim) (d : D)
      → running s.driver.state ≡ true
      → s.driver.inputs.jtag_pin0_i ≡ 0
      → asks_for_edge n s d ≡ false
      → tms_at_edges 0 (half_cycles outputs eval n s d).0 ≡ []
  unfolding half_cycles tms_at_edges asks_for_edge
  tck_never_rises zero s d r z h = refl
  tck_never_rises (suc n) s d r z h =
      let s' = drive (outputs d) s in
      let quiet : (has_edge s ≡ false) × (asks_for_edge n s' (eval s'.driver.inputs d) ≡ false) =
        ground (arith, h) in
      let p = drive-low (outputs d) s r z quiet.0 in
      let rest = tck_never_rises n s' (eval s'.driver.inputs d) p.1 p.0 quiet.1 in
      ground (arith, p, rest)

-- What the server has for a pass, after its poll.
abbrev pub offered : Sim → Signals
offered s = (poll s.world).server.signals

abbrev pub has_request : Signals → Bool
has_request g = g.pending_tck_pulse || g.pending_tckc_toggle

-- A pulse or an edge that is pending in SIM_VPI_ACTIVE is lost: with a client connected and no
-- reset pulses left, the pass takes it from the server, goes to SIM_VPI_PROCESSING and changes no
-- pin but the clock.
pub request_lost :
    (o : Outputs) (s : Sim)
    → s.driver.state ≡ vpi_active
    → (poll s.world).server.connected ≡ true
    → (offered s).reset_pulses_remaining ≡ 0
    → has_request (offered s) ≡ true
    → ((drive o s).driver.inputs ≡ record s.driver.inputs { clk = level s.driver.clk_pulse_phase })
      × ((drive o s).driver.state ≡ vpi_processing)
      × (has_request (drive o s).world.server.signals ≡ false)
unfolding drive set_clk advance act await_request request request_connected get_pending_signals
    update_signals
request_lost o s e c r p = ground arith

-- The same in SIM_VPI_PROCESSING, where only one pass of four acts: in the others the request is
-- taken from the server, TCK, TMS and TDI go low, and the request is gone.
pub request_skipped :
    (k : ℕ) (o : Outputs) (s : Sim)
    → s.driver.state ≡ vpi_processing
    → s.driver.clk_div_counter ≡ suc k
    → (poll s.world).server.connected ≡ true
    → (offered s).reset_pulses_remaining ≡ 0
    → has_request (offered s) ≡ true
    → ((drive o s).driver.inputs ≡ record s.driver.inputs {
      clk = level s.driver.clk_pulse_phase;
      jtag_pin0_i = 0;
      jtag_pin1_i = 0;
      jtag_pin2_i = 0;
    })
      × ((drive o s).driver.state ≡ vpi_active)
      × (has_request (drive o s).world.server.signals ≡ false)
unfolding drive set_clk advance act process_request rest_pins request request_connected
    get_pending_signals
request_skipped k o s e h c r p = ground arith
