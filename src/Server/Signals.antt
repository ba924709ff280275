-- ===== src/Server/Signals.antt =====
-- `get_pending_signals`, `update_signals` and `set_mode` of sim/jtag_vpi_server.cpp: what the
-- simulation loop reads from the server and writes to it.
use jtag.Prelude.{
  ℕ, ◌-◌, Bool, true, false, not, ◌&&◌, ◌||◌, Option, none, some, ltb, ◌==◌, if◌then◌else◌,
}
use jtag.Server.State.{Signals}

-- What `get_pending_signals` writes through its pointers.
pub record Pins : Type 0 where
  pub tms : ℕ
  pub tdi : ℕ
  pub mode_sel : ℕ
  pub tck_pulse : Bool
  pub tckc_toggle : Bool

-- `none` is the result `false`, which leaves the caller's variables alone. Where the caller hands
-- in no `tckc_toggle` pointer, it does not see that field.
unfoldable pub get_pending_signals : Signals → Option Pins × Signals
get_pending_signals s =
    if ltb 0 reset_pulses_remaining
    then (
      some (record {
        tms = 1;
        tdi = 0;
        mode_sel = pending_mode_select;
        tck_pulse = true;
        tckc_toggle = false;
      }),
      record s { reset_pulses_remaining = reset_pulses_remaining - 1 },
    )
    else if not (pending_tck_pulse || pending_tckc_toggle) && pending_mode_select == current_mode
    then (none, s)
    else (
      some (record {
        tms = pending_tms;
        tdi = pending_tdi;
        mode_sel = pending_mode_select;
        tck_pulse = pending_tck_pulse;
        tckc_toggle = pending_tckc_toggle;
      }),
      record s {
        pending_tck_pulse = false;
        tckc_toggle_consumed = pending_tckc_toggle || tckc_toggle_consumed;
        pending_tckc_toggle = false;
      },
    )
  where
    open s use {
      reset_pulses_remaining, pending_tck_pulse, pending_tckc_toggle, pending_mode_select,
      current_mode, pending_tms, pending_tdi, tckc_toggle_consumed,
    }

-- the overload with `tdo_en`
unfoldable pub update_signals : ℕ → ℕ → ℕ → ℕ → Signals → Signals
update_signals tdo tdo_en idcode mode s = record s {
  current_tdo = tdo;
  current_tdo_en = tdo_en;
  current_idcode = idcode;
  current_mode = mode;
}

-- the overload without
unfoldable pub update_signals_no_enable : ℕ → ℕ → ℕ → Signals → Signals
update_signals_no_enable tdo idcode mode s = record s {
  current_tdo = tdo;
  current_idcode = idcode;
  current_mode = mode;
}

unfoldable pub set_mode : ℕ → Signals → Signals
set_mode mode s = record s { pending_mode_select = mode }

-- `pending_tms`, `pending_tdi` and a pulse to go with them
unfoldable pub request_pulse : ℕ → ℕ → Signals → Signals
request_pulse tms tdi s = record s {
  pending_tms = tms;
  pending_tdi = tdi;
  pending_tck_pulse = true;
}
