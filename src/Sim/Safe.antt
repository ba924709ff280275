-- ===== src/Sim/Safe.antt =====
-- The invariant of the server under the loop of sim/sim_vpi_main.cpp.
use mathlib.Core.Path.{subst}
use jtag.Prelude.{arith, ℕ, zero, suc, ◌≡◌, sym, true, ◌⊎◌, inl, inr}
use jtag.Server.State.{World, Server, Signals}
use jtag.Server.Packet.{parse_packet}
use jtag.Server.Poll.{poll}
use jtag.Server.Valid.{IsValid}
use jtag.Server.Valid.Commands.{is_overlong}
use jtag.Server.Valid.Flows.{Processed}
use jtag.Server.Valid.Polls.{poll-Good}
use jtag.Sim.{
  SimState, Inputs, Outputs, Sim, act, set_clk, drive, half_cycles, request, request_connected,
  look_for_work, await_request, process_request, drive_pins, rest_pins,
}

signals-IsValid : (g : Signals) (s : Server) → IsValid s → IsValid (record s { signals = g })
signals-IsValid g s v = record {
  scan_valid = v.scan_valid;
  tms_valid = v.tms_valid;
  rx_valid = v.rx_valid;
  tx_valid = v.tx_valid;
  safe = v.safe;
}

-- A pass touches only the signals of the server that it has polled.
act-signals :
    (st : SimState) (o : Outputs) (s : Sim)
    → (act st o s).world.server
      ≡ record s.world.server { signals = (act st o s).world.server.signals }
unfolding act look_for_work await_request process_request drive_pins rest_pins request
    request_connected
act-signals st o s = ground arith

act-IsValid :
    (st : SimState) (o : Outputs) (s : Sim)
    → IsValid s.world.server
    → IsValid (act st o s).world.server
act-IsValid st o s v =
    subst (λ x. IsValid x) (sym (act-signals st o s))
      (signals-IsValid (act st o s).world.server.signals s.world.server v)

drive-IsValid :
    (o : Outputs) (s : Sim) → IsValid (poll s.world).server → IsValid (drive o s).world.server
unfolding drive
drive-IsValid o s v =
    act-IsValid s.driver.state o (record { driver = set_clk s.driver; world = poll s.world }) v

-- One of the first `n` passes polls while the server is valid and processes, in a valid state, a
-- command with more than 4096 bits that the code does not check.
pub data Overran {D : Type 0} (outputs : D → Outputs) (eval : Inputs → D → D)
    : ℕ → Sim → D → Type 0 where
  now :
      {n : ℕ} {s : Sim} {d : D} (w : World)
      → IsValid w.server
      → is_overlong w.server.vpi_minimal_mode (parse_packet w.server) ≡ true
      → Processed w (poll s.world)
      → Overran outputs eval (suc n) s d
  later :
      {n : ℕ} {s : Sim} {d : D}
      → Overran outputs eval n (drive (outputs d) s) (eval (drive (outputs d) s).driver.inputs d)
      → Overran outputs eval (suc n) s d

-- The whole simulation keeps the server's invariant: however long the loop runs, whatever the
-- clients, the sockets and the device do, a valid server is valid at the end, with no array left
-- and no index past its array, unless a command with more than 4096 bits that the code does not
-- check was processed on the way.
pub loop_is_safe :
    {D : Type 0} (outputs : D → Outputs) (eval : Inputs → D → D) (n : ℕ) (s : Sim) (d : D)
    → IsValid s.world.server
    → IsValid (half_cycles outputs eval n s d).1.world.server ⊎ Overran outputs eval n s d
unfolding half_cycles
loop_is_safe outputs eval zero s d v = inl v
loop_is_safe outputs eval (suc n) s d v =
    let s' = drive (outputs d) s in
    elim (poll-Good s.world v) [
      | inl u ↦
          elim (loop_is_safe outputs eval n s' (eval s'.driver.inputs d)
            (drive-IsValid (outputs d) s u)) [ inl x ↦ inl x | inr x ↦ inr (later x) ]
      | inr (w, u, h, p) ↦ inr (now w u h p)
    ]
