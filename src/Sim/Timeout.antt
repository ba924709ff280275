-- ===== src/Sim/Timeout.antt =====
-- How the loop of sim/sim_vpi_main.cpp ends: `$finish` in the device, or the timeout of the command
-- line, by the wall clock or by counted cycles.
use jtag.Prelude.{
  ℕ, ◌+◌, ◌*◌, ◌%◌, ◌^◌, ◌≤◌, ◌<◌, ◌≡◌, Bool, true, false, ◌&&◌, ◌||◌, List, [], ◌∷◌, ltb, length,
  arith, refl, inl, inr, Bool-cases,
}
use jtag.Server.State.{World}
use jtag.Sim.{Sim, Inputs, Outputs, Driver, drive, half_cycles, start, level}
use jtag.Sim.Running.{drive-clock}

-- `timeout_seconds * 100000000ULL`, on 64 bits
unfoldable pub max_cycles : ℕ → ℕ
max_cycles timeout_seconds = timeout_seconds * 100000000 % 2 ^ 64

-- `late` is `now >= deadline`.
unfoldable pub timeout_reached : ℕ → Bool → ℕ → Bool
unfolding max_cycles
timeout_reached timeout_seconds late cycle_count =
    ltb 0 timeout_seconds && (late || ltb (max_cycles timeout_seconds) cycle_count)

module _ {D : Type 0} (outputs : D → Outputs) (eval : Inputs → D → D) (finished : D → Bool) where
  -- The passes for which the wall clock's answers are given, whether the loop has ended by then, and
  -- what there is. `finished` says whether the device has called `$finish`.
  unfoldable pub main_loop : ℕ → List Bool → Sim → D → Bool × Sim × D
  unfolding timeout_reached
  main_loop timeout_seconds [] s d = (s.driver.finish || finished d, s, d)
  main_loop timeout_seconds (late ∷ lates) s d = elim (s.driver.finish || finished d) [
    | true ↦ (true, s, d)
    | false ↦
        let s' = drive (outputs d) s in
        let d' = eval s'.driver.inputs d in
        elim (timeout_reached timeout_seconds late s'.driver.cycle_count) [
          | true ↦ (true, s', d')
          | false ↦ main_loop timeout_seconds lates s' d'
        ]
  ]

  -- The half cycles that have passed.
  abbrev halves : Driver → ℕ
  halves e = 2 * e.cycle_count + level e.clk_pulse_phase

  -- `max_cycles` is a multiple of 256, so that the count passes it before it wraps around.
  max_cycles-below : (t : ℕ) → max_cycles t + 1 < 2 ^ 64
  unfolding max_cycles
  max_cycles-below t = omega arith

  loop-ends :
      (t : ℕ) (lates : List Bool) (s : Sim) (d : D)
      → 0 < t
      → s.driver.cycle_count ≤ max_cycles t
      → 2 * max_cycles t + 2 ≤ halves s.driver + length lates
      → (main_loop t lates s d).0 ≡ true
  unfolding main_loop timeout_reached
  loop-ends t [] s d p c h = absurd (ground arith)
  loop-ends t (late ∷ lates) s d p c h =
      let s' = drive (outputs d) s in
      let d' = eval s'.driver.inputs d in
      let step = drive-clock (outputs d) s in
      let counts : halves s'.driver ≡ halves s.driver + 1 =
        ground (arith, step, max_cycles-below t) in
      ground (arith, counts, loop-ends t lates s' d')

module _ {D : Type 0} (outputs : D → Outputs) (eval : Inputs → D → D) (finished : D → Bool) where
  -- The passes of the loop are the first passes through its body.
  main_loop-half_cycles :
      (t : ℕ) (lates : List Bool) (s : Sim) (d : D)
      → (n : ℕ) × (n ≤ length lates)
        × ((main_loop outputs eval finished t lates s d).1 ≡ (half_cycles outputs eval n s d).1)
  unfolding main_loop half_cycles
  main_loop-half_cycles t [] s d = (0, omega arith, refl)
  main_loop-half_cycles t (late ∷ lates) s d =
      let s' = drive (outputs d) s in
      let d' = eval s'.driver.inputs d in
      let (n, h, e) = main_loop-half_cycles t lates s' d' in
      elim (Bool-cases (s.driver.finish || finished d)) [
        | inl stopped ↦ (0, omega arith, ground (arith, stopped))
        | inr on ↦ elim (Bool-cases (timeout_reached t late s'.driver.cycle_count)) [
          | inl over ↦ (1, omega arith, ground (arith, on, over))
          | inr more ↦ (n + 1, omega arith, ground (arith, on, more, e))
        ]
      ]

-- With a timeout of at least one second the loop ends, whatever the clients, the device and the wall
-- clock do: after two passes for each of the `max_cycles` cycles and two more at the latest.
pub loop_terminates :
    {D : Type 0} (outputs : D → Outputs) (eval : Inputs → D → D) (finished : D → Bool) (t mode : ℕ)
    (w : World) (d : D) (lates : List Bool)
    → 0 < t
    → 2 * max_cycles t + 2 ≤ length lates
    → (main_loop outputs eval finished t lates (record { driver = start mode; world = w }) d).0
      ≡ true
unfolding start
loop_terminates outputs eval finished t mode w d lates p h =
    loop-ends outputs eval finished t lates (record { driver = start mode; world = w }) d p
      (omega arith) (omega arith)
