-- ===== src/Simulation/Reach.antt =====
-- The worlds that the engine reaches, one step after another.
use partsim.Prelude.{◌≡◌, subst}
use partsim.Prelude.Int.{◌≤ℤ◌, int_laws}
use partsim.Prelude.Action.{return}
use partsim.Tick.{Tick}
use partsim.Event.Order.{IsValid}
use partsim.Simulation.{World, Callbacks, sim_step}
use partsim.Simulation.Step.{IsOrderly}
use partsim.Simulation.Order.{Took, StepOutcome, sim_step-outcome}

-- `w'` is reached from `w` by steps that return.
pub data Reaches {A : Type 0} (c : Callbacks A) : World A → World A → Type 0 where
  here : (w : World A) → Reaches c w w
  step :
      (t : Tick) (w u w' : World A) → sim_step c w ≡ (return t, u) → Reaches c u w' → Reaches c w w'

module _ {A : Type 0} (c : Callbacks A) (inv : World A → Type 0) (orderly : IsOrderly c inv) where
  step-Took :
      (t : Tick) (w u : World A)
      → IsValid w.sim
      → inv w
      → sim_step c w ≡ (return t, u)
      → Took c t w u × inv u
  step-Took t w u v holds e =
      subst (StepOutcome c inv w) e (sim_step-outcome c inv w orderly v holds)

  reached :
      (w w' : World A)
      → Reaches c w w'
      → IsValid w.sim
      → inv w
      → IsValid w'.sim × inv w' × (w.sim.glob_time ≤ℤ w'.sim.glob_time)
  reached w w' (here _) v holds = (v, holds, omega int_laws)
  reached w w' (step t _ u _ e rest) v holds =
      let (took, held) = step-Took t w u v holds e in
      let (valid, still, later) = reached u w' rest took.valid held in
      let first : w.sim.glob_time ≤ℤ u.sim.glob_time = rw took.clock took.forward in
      (valid, still, omega (int_laws, first, later))

-- Every world that the engine reaches from a well-formed queue, in a program with an invariant that
-- holds at first, under which the handlers of the next event return, keep the queue well formed and
-- leave the clock alone, has a well-formed queue, keeps the invariant, and its clock is not before
-- the one it started from.
pub reaches-IsValid :
    {A : Type 0} (c : Callbacks A) (inv : World A → Type 0) (w w' : World A)
    → IsOrderly c inv
    → IsValid w.sim
    → inv w
    → Reaches c w w'
    → IsValid w'.sim × inv w' × (w.sim.glob_time ≤ℤ w'.sim.glob_time)
reaches-IsValid c inv w w' orderly v holds r = reached c inv orderly w w' r v holds
