-- ===== src/Bridge.antt =====
-- The VPI module of vpi/jtag_vpi.c: a server inside a Verilog simulator that answers the 4-byte
-- commands of the clients of vpi/ by reading and writing signals. The simulator is a parameter:
-- its state, and what `vpi_get_value` and `vpi_put_value` do to a signal. Messages are left out.
pub mod Thread
pub mod Scan
pub mod Identify
use jtag.Prelude.{ℕ, ◌%◌, Bool, true, [], ◌∷◌, Option, some, get_or, u8, ◌==◌, if◌then◌else◌}
use jtag.Wire.{Bytes}

-- The signals that `jtag_vpi_init` looks up, by their names under `jtag_tb.dut`.
pub data Signal : Type 0 where
  tck tms tdi tdo trst_n mode_select tco clk rst_n idcode debug_req active_mode : Signal

-- The simulator, of which nothing is assumed.
pub record Simulator : Type 1 where
  pub Design : Type 0
  pub vpi_get_value : Signal → Design → ℕ
  pub vpi_put_value : Signal → ℕ → Design → Design

-- `jtag_resp_t`
pub record Resp : Type 0 where
  pub response : ℕ
  pub tdo_val : ℕ
  pub mode : ℕ
  pub status : ℕ

unfoldable pub resp_image : Resp → Bytes
resp_image r = r.response ∷ r.tdo_val ∷ r.mode ∷ r.status ∷ []

module _ (v : Simulator) where
  open v use {Design, vpi_get_value, vpi_put_value}

  -- The answer, which the thread keeps from one command to the next, the simulated design, and
  -- whether a store has left the answer.
  pub record Bridge : Type 0 where
    pub resp : Resp
    pub design : Design
    pub overrun : Bool

  unfoldable pub read_signal : Signal → Design → ℕ
  read_signal s d = vpi_get_value s d

  unfoldable pub write_signal : Signal → ℕ → Design → Design
  write_signal s n d = vpi_put_value s n d

  unfoldable pub pulse_tck : Design → Design
  unfolding write_signal
  pulse_tck d = write_signal tck 0 (write_signal tck 1 d)

  -- Command 1: TMS, TDI and a pulse.
  unfoldable pub set_and_pulse : ℕ → ℕ → Design → Design
  unfolding write_signal pulse_tck
  set_and_pulse tms_val tdi_val d =
      pulse_tck (write_signal tdi (tdi_val % 2) (write_signal tms (tms_val % 2) d))

  -- Command 2 stores the four bytes of the IDCODE from the last byte of the answer on: the first
  -- lands in `status`, the others behind the structure.
  unfoldable pub store_idcode : Bridge → Bridge
  unfolding read_signal
  store_idcode b = record b {
    resp = record b.resp { response = 2; status = u8 (read_signal idcode b.design) };
    overrun = true;
  }

  unfoldable pub process_vpi_command : Bytes → Bridge → Bridge
  unfolding read_signal write_signal set_and_pulse store_idcode
  process_vpi_command cmd b =
      let code = get_or cmd 0 0 in
      let tms_val = get_or cmd 1 0 in
      let tdi_val = get_or cmd 2 0 in
      let pad = get_or cmd 3 0 in
      if code == 1
      then (let d = set_and_pulse tms_val tdi_val b.design in
          record b {
            design = d;
            resp = record b.resp { response = 1; tdo_val = read_signal tdo d % 2 };
          })
      else if code == 2
      then store_idcode b
      else if code == 3
      then record b {
        resp = record b.resp { response = 3; mode = read_signal active_mode b.design % 2 };
      }
      else if code == 4
      then record b {
        design = write_signal mode_select (pad % 2) b.design;
        resp = record b.resp { response = 4 };
      }
      else if code == 5
      then record b {
        resp = record b.resp { response = 5; tdo_val = read_signal tdo b.design % 2 };
      }
      else if code == 6
      then record b {
        resp = record b.resp { response = 6; status = read_signal debug_req b.design % 2 };
      }
      else record b { resp = record b.resp { response = 255 } }

  -- A connection to this server, seen from a client that sends whole commands.
  unfoldable pub over : Bytes → Bridge → Option Bytes × Bridge
  unfolding process_vpi_command resp_image
  over cmd b = let b' = process_vpi_command cmd b in (some (resp_image b'.resp), b')
