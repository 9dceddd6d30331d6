-- ===== src/Simulation/MainCycle.antt =====
-- The main cycle of `Simulation::run`, which stops at the end time or when no event is left.
use partsim.Prelude.{
  ℕ, zero, suc, ◌<◌, ◌≡◌, refl, sym, ap, ◌∙◌, true, [], ◌⊎◌, inl, inr, arith, Bool-cases,
}
use partsim.Prelude.Int.{◌≤ℤ◌, ◌<ℤ◌, ltb_ℤ}
use partsim.Prelude.Action.{Outcome, return, throw, no_more_events_in_queue}
use partsim.Tick.{Tick}
use partsim.Event.Order.{IsValid}
use partsim.Simulation.{World, Callbacks, with_sim, sim_step, main_cycle}
use partsim.Simulation.Step.{IsOrderly}
use partsim.Simulation.Order.{Took, StepOutcome, sim_step-outcome}
use partsim.Simulation.Reach.{Reaches, here, step}

-- How the main cycle ends: at the end time, or with no event left, in a world that the steps reach.
abbrev pub CycleOutcome :
    {A : Type 0} → Callbacks A → Tick → World A → Outcome (Unit {0}) × World A → Type 0
CycleOutcome c end_tick w (return _, w') =
    Reaches c w w' × IsValid w'.sim × (end_tick ≤ℤ w'.sim.glob_time)
CycleOutcome c end_tick w (throw x, w') =
    Reaches c w w' × (x ≡ no_more_events_in_queue) × (w'.sim.event_queue ≡ [])

-- Each step before the end time leaves less work.
abbrev pub Falls : {A : Type 0} → Callbacks A → (World A → Type 0) → Tick → (World A → ℕ) → Type 0
Falls {A} c inv end_tick work =
    (t : Tick) (w u : World A)
    → IsValid w.sim
    → inv w
    → w.sim.glob_time <ℤ end_tick
    → sim_step c w ≡ (return t, u)
    → work u < work w

module _ {A : Type 0} (c : Callbacks A) (inv : World A → Type 0) (orderly : IsOrderly c inv)
    (work : World A → ℕ) (end_tick : Tick) (falls : Falls c inv end_tick work) where
  -- `globTime = sim_step()` writes the time that the step has set.
  time_is_set :
      (t : Tick) (u : World A)
      → u.sim.glob_time ≡ t
      → with_sim (record u.sim { glob_time = t }) u ≡ u
  time_is_set t u e = ap (λ x. with_sim (record u.sim { glob_time = x }) u) (sym e)

  more :
      (t : Tick) (w u : World A) (r : Outcome (Unit {0}) × World A)
      → sim_step c w ≡ (return t, u)
      → CycleOutcome c end_tick u r
      → CycleOutcome c end_tick w r
  more t w u (return _, w') e (reach, v, late) = (step t w u w' e reach, v, late)
  more t w u (throw x, w') e (reach, why, empty) = (step t w u w' e reach, why, empty)

  goes_on :
      (fuel : ℕ) (t : Tick) (w u : World A)
      → ltb_ℤ w.sim.glob_time end_tick ≡ true
      → sim_step c w ≡ (return t, u)
      → u.sim.glob_time ≡ t
      → main_cycle c (suc fuel) end_tick w ≡ main_cycle c fuel end_tick u
  unfolding main_cycle
  goes_on fuel t w u early e clock =
      rw (early, main_cycle) (rw e (ap (main_cycle c fuel end_tick) (time_is_set t u clock)))

  gives_up :
      (fuel : ℕ) (w : World A)
      → ltb_ℤ w.sim.glob_time end_tick ≡ true
      → sim_step c w ≡ (throw no_more_events_in_queue, w)
      → main_cycle c (suc fuel) end_tick w ≡ (throw no_more_events_in_queue, w)
  unfolding main_cycle
  gives_up fuel w early e = rw (early, main_cycle) (rw e)

  Step-cases :
      (w : World A) (r : Outcome Tick × World A)
      → r ≡ sim_step c w
      → StepOutcome c inv w r
      → ((sim_step c w ≡ (throw no_more_events_in_queue, w)) × (w.sim.event_queue ≡ []))
        ⊎ ((t : Tick) × (u : World A) × (sim_step c w ≡ (return t, u)) × Took c t w u × inv u)
  Step-cases w (throw x, w') e (why, same, empty) =
      inl (sym e ∙ (λ i. (throw (why i), same i)), empty)
  Step-cases w (return t, u) e (took, held) = inr (t, u, sym e, took, held)

  cycle_lem :
      (fuel : ℕ) (w : World A)
      → IsValid w.sim
      → inv w
      → work w < fuel
      → CycleOutcome c end_tick w (main_cycle c fuel end_tick w)
  unfolding main_cycle
  cycle_lem zero w v holds h = absurd (omega arith)
  cycle_lem (suc fuel) w v holds h = elim (Bool-cases (ltb_ℤ w.sim.glob_time end_tick)) [
    | inr late ↦ rw (late, main_cycle) (here w, v, ground arith)
    | inl early ↦
        elim (Step-cases w (sim_step c w) refl (sim_step-outcome c inv w orderly v holds)) [
          | inl (e, empty) ↦ rw (gives_up fuel w early e) (here w, refl, empty)
          | inr (t, u, e, took, held) ↦ rw (goes_on fuel t w u early e took.clock) (
              more t w u (main_cycle c fuel end_tick u) e (
                cycle_lem fuel u took.valid held
                  (omega (arith, falls t w u v holds (ground arith) e))))
        ]
  ]

-- The main cycle of a run, in a program with an invariant that holds at first, under which the
-- handlers of the next event return, keep the queue well formed and leave the clock alone, where
-- each step before the end time leaves less work and the fuel is more than the work: it does not
-- run out of fuel. It ends in a world that the steps of the engine reach, either with the clock at
-- the end time or later, or with the exception of an empty queue, and then the queue is empty.
pub main_cycle-outcome :
    {A : Type 0} (c : Callbacks A) (inv : World A → Type 0) (work : World A → ℕ) (fuel : ℕ)
    (end_tick : Tick) (w : World A)
    → IsOrderly c inv
    → Falls c inv end_tick work
    → IsValid w.sim
    → inv w
    → work w < fuel
    → CycleOutcome c end_tick w (main_cycle c fuel end_tick w)
main_cycle-outcome c inv work fuel end_tick w orderly falls v holds h =
    cycle_lem c inv orderly work end_tick falls fuel w v holds h
