-- ===== src/Tests/Program.antt =====
-- The command line of sim/sim_vpi_main.cpp and the end of its loop, at concrete inputs.
use jtag.Prelude.{
  ℕ, suc, replicate, length-replicate, ◌≡◌, refl, true, false, [], ◌∷◌, ◌++◌, List, Bool, codes,
  stoull, stoi, arith, length, pos, Text,
}
use jtag.Server.State.{World, new_server}
use jtag.Server.Setup.{Listener}
use jtag.Sim.{Inputs, Outputs, start}
use jtag.Sim.Options.{
  defaults, parse_args, word, with_timeout, with_debug, run, aborted, spellings_agree,
}
use jtag.Sim.Timeout.{max_cycles, main_loop, loop_terminates}

-- A line that sets three options.
three_options :
    parse_args (codes "--quiet" ∷ codes "--timeout=60" ∷ codes "--debug" ∷ codes "2" ∷ []) defaults
    ≡ run (record defaults { verbose = false; timeout_seconds = 60; debug_level = pos 2 })
unfolding parse_args word with_timeout with_debug defaults stoull stoi
three_options = refl

-- A value that is no number ends the program.
no_number : parse_args (codes "--timeout" ∷ codes "soon" ∷ codes "--help" ∷ []) defaults ≡ aborted
unfolding parse_args word with_timeout with_debug defaults stoull stoi
no_number = refl

spellings_agree_example :
    let v = codes "12" in
    let rest = codes "--help" ∷ [] in
    (parse_args (codes "--proto" ∷ v ∷ rest) defaults
      ≡ parse_args ((codes "--proto=" ++ v) ∷ rest) defaults)
    × (parse_args (codes "--timeout" ∷ v ∷ rest) defaults
        ≡ parse_args ((codes "--timeout=" ++ v) ∷ rest) defaults)
    × (parse_args (codes "--debug" ∷ v ∷ rest) defaults
        ≡ parse_args ((codes "--debug=" ++ v) ∷ rest) defaults)
    × (parse_args (codes "-d" ∷ v ∷ rest) defaults
        ≡ parse_args (codes "--debug" ∷ v ∷ rest) defaults)
spellings_agree_example = spellings_agree (codes "12") (codes "--help" ∷ []) defaults

-- The wall clock as it answers when it is stopped.
stopped_clock : ℕ → List Bool
stopped_clock n = replicate n false

length-stopped_clock : (n : ℕ) → length (stopped_clock n) ≡ n
unfolding stopped_clock
length-stopped_clock n = length-replicate n false

-- A device without signals, which counts its evaluations and never calls `$finish`.
silent : ℕ → Outputs
silent d = record {
  jtag_pin1_o = 0;
  jtag_pin1_oen = 0;
  jtag_pin3_o = 0;
  jtag_pin3_oen = 0;
  idcode = 0;
  active_mode = 0;
}

counting : Inputs → ℕ → ℕ
counting i d = suc d

never : ℕ → Bool
never d = false

alone : World
alone = record { server = new_server; inbox = []; accepts = []; sends = []; wire = [] }

-- A timeout of one second.
loop_terminates_example :
    (main_loop silent counting never 1
      (stopped_clock 200000002)
      (record { driver = start 0; world = alone })
      0).0
    ≡ true
unfolding max_cycles
loop_terminates_example =
    loop_terminates silent counting never 1 0 alone 0 (stopped_clock 200000002) (omega arith)
      (omega (arith, length-stopped_clock 200000002))

closed : Listener
closed = record { server_sock = false; open_socks = 0 }

one_second : List Text
one_second = codes "--quiet" ∷ codes "--timeout=1" ∷ []
