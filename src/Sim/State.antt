-- ===== src/Sim/State.antt =====
-- The variables of the loop of sim/sim_vpi_main.cpp, the pins of the device under test, and their
-- values before the first pass.
use jtag.Prelude.{ℕ, Bool, false, if◌then◌else◌}
use jtag.Server.State.{World}

-- `vpi_sim_state_t`
pub data SimState : Type 0 where
  reset_system reset_jtag_init reset_jtag_pulse sim_idle vpi_active vpi_processing shutdown :
      SimState

-- The inputs of the device that the loop sets.
pub record Inputs : Type 0 where
  pub clk : ℕ
  pub rst_n : ℕ
  pub jtag_trst_n_i : ℕ
  pub jtag_pin0_i : ℕ
  pub jtag_pin1_i : ℕ
  pub jtag_pin2_i : ℕ
  pub mode_select : ℕ

-- Its outputs that the loop reads.
pub record Outputs : Type 0 where
  pub jtag_pin1_o : ℕ
  pub jtag_pin1_oen : ℕ
  pub jtag_pin3_o : ℕ
  pub jtag_pin3_oen : ℕ
  pub idcode : ℕ
  pub active_mode : ℕ

-- The variables of the loop, and `finish`, which is `gotFinish`. `clk_div_counter` and `tckc_state`
-- are the static ones of SIM_VPI_PROCESSING.
pub record Driver : Type 0 where
  pub state : SimState
  pub reset_cycle_count : ℕ
  pub reset_tck_cycles : ℕ
  pub tck_clk_counter : ℕ
  pub clk_pulse_phase : Bool
  pub tck_pulse_phase : Bool
  pub clk_div_counter : ℕ
  pub tckc_state : Bool
  pub cycle_count : ℕ
  pub finish : Bool
  pub inputs : Inputs

pub record Sim : Type 0 where
  pub driver : Driver
  pub world : World

abbrev pub system_reset_cycles : ℕ
system_reset_cycles = 50

abbrev pub jtag_reset_tck_cycles : ℕ
jtag_reset_tck_cycles = 5

-- `TCK_PERIOD / CLK_PERIOD`
abbrev pub tck_clk_ratio : ℕ
tck_clk_ratio = 4

abbrev pub level : Bool → ℕ
level b = if b then 1 else 0

-- The loop's variables and the pins before the first pass, with the mode of the command line.
unfoldable pub start : ℕ → Driver
start mode = record {
  state = reset_system;
  reset_cycle_count = 0;
  reset_tck_cycles = 0;
  tck_clk_counter = 0;
  clk_pulse_phase = false;
  tck_pulse_phase = false;
  clk_div_counter = 0;
  tckc_state = false;
  cycle_count = 0;
  finish = false;
  inputs = record {
    clk = 0;
    rst_n = 0;
    jtag_trst_n_i = 0;
    jtag_pin0_i = 0;
    jtag_pin1_i = 0;
    jtag_pin2_i = 0;
    mode_select = mode;
  };
}
