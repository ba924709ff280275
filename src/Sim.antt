-- ===== src/Sim.antt =====
-- The main loop of sim/sim_vpi_main.cpp: one half clock cycle polls the VPI server, moves a state
-- machine that drives the pins, and evaluates the device under test. The device is a parameter;
-- traces and messages are left out.
mod State
pub mod Reset
pub mod Running
pub mod Safe
pub mod Options
pub mod Timeout
pub mod Program
unfoldable pub use State.*
use jtag.Prelude.{
  ℕ, zero, suc, ◌+◌, ◌%◌, ◌^◌, Bool, true, false, not, Option, none, some, List, [], ◌∷◌, leb, ◌==◌,
  if◌then◌else◌,
}
use jtag.Server.State.{World, on_server}
use jtag.Server.Signals.{Pins, get_pending_signals, update_signals}
use jtag.Server.Poll.{poll}

-- SIM_RESET_SYSTEM
unfoldable pub hold_reset : Driver → Driver
hold_reset d =
    let low = record d.inputs {
      rst_n = 0;
      jtag_trst_n_i = 0;
      jtag_pin0_i = 0;
      jtag_pin1_i = 0;
      jtag_pin2_i = 0;
    } in
    let count = d.reset_cycle_count + 1 in
    if leb system_reset_cycles count
    then record d {
      inputs = record low { rst_n = 1; jtag_trst_n_i = 1 };
      state = reset_jtag_init;
      reset_cycle_count = 0;
    }
    else record d { inputs = low; reset_cycle_count = count }

-- SIM_RESET_JTAG_INIT
unfoldable pub init_jtag : Driver → Driver
init_jtag d = record d {
  inputs = record d.inputs { jtag_pin1_i = 1; jtag_pin2_i = 0 };
  reset_tck_cycles = 0;
  state = reset_jtag_pulse;
}

-- The falling edge in SIM_RESET_JTAG_PULSE, the last of which ends the reset.
unfoldable pub end_pulse : Driver → Driver
end_pulse d =
    let count = d.reset_tck_cycles + 1 in
    let low = record d {
      inputs = record d.inputs { jtag_pin0_i = 0 };
      tck_clk_counter = 0;
      tck_pulse_phase = false;
      reset_tck_cycles = count;
    } in
    if leb jtag_reset_tck_cycles count
    then record low { inputs = record low.inputs { jtag_pin1_i = 0 }; state = sim_idle }
    else low

-- SIM_RESET_JTAG_PULSE
unfoldable pub pulse_jtag : Driver → Driver
unfolding end_pulse
pulse_jtag d =
    let count = d.tck_clk_counter + 1 in
    if leb tck_clk_ratio count
    then if d.tck_pulse_phase then end_pulse d else record d {
      inputs = record d.inputs { jtag_pin0_i = 1 };
      tck_clk_counter = 0;
      tck_pulse_phase = true;
    }
    else record d { tck_clk_counter = count }

-- TDO is pin 3, pulled high where its output is off.
unfoldable pub tdo_value : Outputs → ℕ
tdo_value o = if o.jtag_pin3_oen == 0 then o.jtag_pin3_o else 1

-- TMSC is pin 1 in cJTAG mode.
unfoldable pub tdo_after : ℕ → Outputs → ℕ
unfolding tdo_value
tdo_after mode_sel o =
    if mode_sel == 1 then if o.jtag_pin1_oen == 0 then o.jtag_pin1_o else 1 else tdo_value o

abbrev pub report : ℕ → Outputs → World → World
report tdo o = on_server (λ s. record s {
  signals = update_signals tdo o.jtag_pin3_oen o.idcode o.active_mode s.signals;
})

-- `get_pending_signals` on the server of the loop.
unfoldable pub request : World → Option Pins × World
request w =
    let (p, g) = get_pending_signals w.server.signals in
    (p, on_server (λ s. record s { signals = g }) w)

-- `is_client_connected() && get_pending_signals(...)`
unfoldable pub request_connected : World → Option Pins × World
unfolding request
request_connected w = if w.server.connected then request w else (none, w)

-- SIM_IDLE
unfoldable pub look_for_work : Option Pins × World → Driver → Sim
look_for_work (some _, w) d = record { driver = record d { state = vpi_active }; world = w }
look_for_work (none, w) d = record { driver = d; world = w }

-- SIM_VPI_ACTIVE, after the report of TDO
unfoldable pub await_request : Option Pins × World → Driver → Sim
await_request (some _, w) d = record { driver = record d { state = vpi_processing }; world = w }
await_request (none, w) d = record { driver = d; world = w }

-- A request whose turn it is, in SIM_VPI_PROCESSING. The pulse of `tck_pulse` sets pin 0 to 1 and
-- then to 0 with no evaluation in between.
unfoldable pub drive_pins : Pins → Outputs → Sim → Sim
unfolding tdo_after
drive_pins p o s =
    let set = record s.driver.inputs {
      jtag_pin1_i = p.tms;
      jtag_pin2_i = p.tdi;
      mode_select = p.mode_sel;
    } in
    if p.tckc_toggle
    then record {
      driver = record s.driver {
        tckc_state = not s.driver.tckc_state;
        inputs = record set { jtag_pin0_i = level (not s.driver.tckc_state) };
      };
      world = report (tdo_after p.mode_sel o) o s.world;
    }
    else if p.tck_pulse
    then record {
      driver = record s.driver { inputs = record set { jtag_pin0_i = 0 } };
      world = report (tdo_after p.mode_sel o) o s.world;
    }
    else record s { driver = record s.driver { inputs = set } }

-- The other branch of SIM_VPI_PROCESSING.
unfoldable pub rest_pins : Sim → Sim
rest_pins s = record s {
  driver = record s.driver {
    inputs = record s.driver.inputs { jtag_pin0_i = 0; jtag_pin1_i = 0; jtag_pin2_i = 0 };
  };
}

-- SIM_VPI_PROCESSING acts on a request once in four passes through this state, and goes back to
-- SIM_VPI_ACTIVE.
unfoldable pub process_request : Option Pins × World → Outputs → Driver → Sim
unfolding drive_pins rest_pins
process_request (p, w) o d =
    let s : Sim = record {
      driver = record d { state = vpi_active; clk_div_counter = (d.clk_div_counter + 1) % 4 };
      world = w;
    } in
    turn p (d.clk_div_counter == 0) s
  where
    turn : Option Pins → Bool → Sim → Sim
    turn (some q) true s = drive_pins q o s
    turn _ _ s = rest_pins s

-- The `switch`.
unfoldable pub act : SimState → Outputs → Sim → Sim
unfolding hold_reset init_jtag pulse_jtag request request_connected look_for_work await_request
    process_request tdo_value
act reset_system o s = record s { driver = hold_reset s.driver }
act reset_jtag_init o s = record s { driver = init_jtag s.driver }
act reset_jtag_pulse o s = record s { driver = pulse_jtag s.driver }
act sim_idle o s = look_for_work (request s.world) s.driver
act vpi_active o s = await_request (request_connected (report (tdo_value o) o s.world)) s.driver
act vpi_processing o s = process_request (request_connected s.world) o s.driver
act shutdown o s = record s { driver = record s.driver { finish = true } }

-- `top->clk` for this half cycle.
unfoldable pub set_clk : Driver → Driver
set_clk d = record d { inputs = record d.inputs { clk = level d.clk_pulse_phase } }

-- The counting behind the `switch`; `cycle_count` has 64 bits.
unfoldable pub advance : Driver → Driver
advance d = record d {
  cycle_count = if d.clk_pulse_phase then (d.cycle_count + 1) % 2 ^ 64 else d.cycle_count;
  clk_pulse_phase = not d.clk_pulse_phase;
}

-- A pass of the loop up to the evaluation of the device, whose outputs are still the old ones.
unfoldable pub drive : Outputs → Sim → Sim
unfolding poll act set_clk advance
drive o s =
    let acted = act s.driver.state o (record { driver = set_clk s.driver; world = poll s.world }) in
    record acted { driver = advance acted.driver }

-- `n` passes through the body of the loop on a device with state `D`: the inputs that it is
-- evaluated with, and what there is after the last. When the loop ends, by `$finish` in the device
-- or by the timeout, is not here but in `main_loop` of Sim/Timeout, whose passes are the first of
-- these.
unfoldable pub half_cycles :
    {D : Type 0} → (D → Outputs) → (Inputs → D → D) → ℕ → Sim → D → List Inputs × Sim
unfolding drive
half_cycles outputs eval zero s d = ([], s)
half_cycles outputs eval (suc n) s d =
    let s' = drive (outputs d) s in
    let (seen, last) = half_cycles outputs eval n s' (eval s'.driver.inputs d) in
    (s'.driver.inputs ∷ seen, last)
