-- ===== src/Sim/Program.antt =====
-- `main` of sim/sim_vpi_main.cpp around its loop: the server's socket, the command line, the loop,
-- and the exit code.
use jtag.Prelude.{ℕ, ◌+◌, ◌*◌, ◌≤◌, ◌<◌, Bool, true, false, List, length, if◌then◌else◌, Text}
use jtag.Server.State.{World}
use jtag.Server.Setup.{Listener, Calls, init, destroy}
use jtag.Sim.{Inputs, Outputs}
use jtag.Sim.Options.{Options, defaults, Parsed, run, help, aborted, parse_args, begin}
use jtag.Sim.Timeout.{max_cycles, main_loop}

-- How a run of the program ends, if it does: with an exit code, or by an exception that nothing
-- catches.
pub data Ending : Type 0 where
  exits : ℕ → Ending
  terminates : Ending
  goes_on : Ending

-- `global_exit_code`, which `vl_finish` sets to 1 when the device calls `$finish`.
unfoldable pub final_code : Bool → ℕ
final_code device_finished = if device_finished then 1 else 0

-- A `return` runs the destructor of the server. Where an exception is not caught it need not run, and
-- the sockets are left as they are.
unfoldable pub returned : Ending × World → Listener → Ending × World × Listener
unfolding destroy
returned (exits code, w) l = let (w', l') = destroy w l in (exits code, w', l')
returned (terminates, w) l = (terminates, w, l)
returned (goes_on, w) l = (goes_on, w, l)

module _ {D : Type 0} (outputs : D → Outputs) (eval : Inputs → D → D) (finished : D → Bool) where
  -- The loop and what follows it, for the passes for which the wall clock's answers are given, and
  -- what the loop leaves of the server.
  unfoldable pub run_loop : Options → List Bool → World → D → Ending × World
  unfolding main_loop begin final_code
  run_loop o lates w d =
      let (ended, s, d') = main_loop outputs eval finished o.timeout_seconds lates (begin o w) d in
      (if ended then exits (final_code (finished d')) else goes_on, s.world)

  unfoldable pub run_parsed : Parsed → List Bool → World → D → Ending × World
  unfolding run_loop
  run_parsed (run o) lates w d = run_loop o lates w d
  run_parsed help lates w d = (exits 0, w)
  run_parsed aborted lates w d = (terminates, w)

  -- `main`, with the server and the listening socket that it leaves.
  unfoldable pub sim_main :
      Calls → List Text → List Bool → Listener → World → D → Ending × World × Listener
  unfolding init returned run_parsed
  sim_main c argv lates l w d =
      let (ready, l') = init c l in
      if ready
      then returned (run_parsed (parse_args argv defaults) lates w d) l'
      else returned (exits 1, w) l'

-- A run with a timeout of at least a second, and the passes for it.
abbrev pub IsTimed : Parsed → List Bool → Type 0
IsTimed (run o) lates =
    (0 < o.timeout_seconds) × (2 * max_cycles o.timeout_seconds + 2 ≤ length lates)
IsTimed p lates = Unit {0}

-- How the program is meant to end where the device does not end it.
abbrev pub outcome : Bool → Parsed → Ending
outcome false p = exits 1
outcome true (run o) = exits 0
outcome true help = exits 0
outcome true aborted = terminates
