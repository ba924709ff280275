-- ===== src/Bench.antt =====
-- The drivers of the test benches, sim/sim_main.cpp and sim/sim_system_main.cpp, which are alike:
-- they evaluate the bench until it calls `$finish`, ask it for its status, and make that the exit
-- code. The Verilated bench is a parameter; traces, messages and the time are left out.
use jtag.Prelude.{
  ℕ, zero, suc, ◌+◌, ◌≡◌, refl, ◌∙◌, replicate, ◌++◌, Bool, true, false, List, [], ◌∷◌, Option,
  none, some, ◌==◌, if◌then◌else◌, arith,
}

-- What an evaluation does: it goes on, or it calls `$finish`, whereupon the handler asks
-- `get_verification_status_dpi` for the status; `none` is an exception.
pub data Evaluated : Type 0 where
  goes_on : Evaluated
  finishes : Option ℕ → Evaluated

-- `gotFinish`, `global_exit_code` and `contextp->time()`
pub record Context : Type 0 where
  pub got_finish : Bool
  pub exit_code : ℕ
  pub time : ℕ

unfoldable pub fresh_context : Context
fresh_context = record { got_finish = false; exit_code = 0; time = 0 }

-- The status that the handler settles on: 1 where it cannot get one.
unfoldable pub status_of : Bool → Option ℕ → ℕ
status_of has_top none = 1
status_of has_top (some status) = if has_top then status else 1

-- `vl_finish`
unfoldable pub vl_finish : Bool → Option ℕ → Context → Context
unfolding status_of
vl_finish has_top answer c = record c { exit_code = status_of has_top answer; got_finish = true }

abbrev handled : Evaluated → Context → Context
handled goes_on c = c
handled (finishes answer) c = vl_finish true answer c

-- A pass of the loop.
unfoldable pub pass : Evaluated → Context → Context
unfolding vl_finish
pass e c = let c' = handled e c in record c' { time = c'.time + 1 }

-- The loop, with what the evaluations to come do.
unfoldable pub simulate : List Evaluated → Context → Context
unfolding pass
simulate [] c = c
simulate (e ∷ es) c = elim c.got_finish [ true ↦ c | false ↦ simulate es (pass e c) ]

pub data Verdict : Type 0 where
  passed failed timeout error : Verdict

-- The last message.
unfoldable pub verdict : ℕ → Verdict
verdict code =
    if code == 0 then passed else if code == 1 then failed else if code == 2 then timeout else error

simulate-done :
    (es : List Evaluated) (code time : ℕ)
    → let c : Context = record { got_finish = true; exit_code = code; time = time } in
      simulate es c ≡ c
unfolding simulate
simulate-done [] code time = refl
simulate-done (e ∷ es) code time = refl

-- A run ends with the first evaluation that calls `$finish`: its time counts the evaluations up to
-- that one, the exit code is the status that the bench gives, or 1 where that fails, and what would
-- come later does not matter.
pub simulate-first :
    (k : ℕ) (answer : Option ℕ) (es : List Evaluated) (code time : ℕ)
    → simulate
        (replicate k goes_on ++ finishes answer ∷ es)
        (record { got_finish = false; exit_code = code; time = time })
      ≡ record { got_finish = true; exit_code = status_of true answer; time = time + k + 1 }
unfolding simulate pass vl_finish
simulate-first zero answer es code time =
    simulate-done es (status_of true answer) (time + 1) ∙ ground arith
simulate-first (suc k) answer es code time =
    simulate-first k answer es code (time + 1) ∙ ground arith
