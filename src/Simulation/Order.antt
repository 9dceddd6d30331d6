-- ===== src/Simulation/Order.antt =====
-- Events happen in the order of the queue, and time never runs backwards.
use partsim.Prelude.{ℕ, ◌≡◌, ◌==◌, ◌&&◌, not, refl, true, false, [], Option-cases, inl, inr, arith}
use partsim.Prelude.Int.{◌≤ℤ◌}
use partsim.Prelude.Action.{Outcome, return, throw, no_more_events_in_queue}
use partsim.Tick.{Tick}
use partsim.PriorityList.{front}
use partsim.PriorityList.Order.{contains}
use partsim.PriorityList.Elements.{front_least, front-contains, front-none}
use partsim.Event.{less}
use partsim.Event.Order.{IsValid, less-IsStrictWeak}
use partsim.Simulation.{World, Callbacks, sim_step, delete_if_disposable}
use partsim.Simulation.Step.{
  IsOrderly, given, stepped, after_handler, sim_step_lem, stepped-IsValid, stepped-clock,
}
use partsim.Event.Drop.{contains-dropped}
use partsim.Prelude.Action.{◌>>◌}

-- What a step that returns `t` has done. It took the event `event` out of the queue, and ran its
-- handler and its probes in the world `handed_to`, where the clock is at the time of the event.
pub record Took {A : Type 0} (c : Callbacks A) (t : Tick) (w w' : World A) : Type 0 where
  pub event : ℕ
  pub queued : contains event w.sim.event_queue ≡ true
  pub its_time : (w.sim.events event).time ≡ t
  pub first : (z : ℕ) → contains z w.sim.event_queue ≡ true → less w.sim.events z event ≡ false
  pub forward : w.sim.glob_time ≤ℤ t
  pub handed_to : World A
  pub out :
      (z : ℕ)
      → contains z handed_to.sim.event_queue ≡ (contains z w.sim.event_queue && not (z == event))
  pub at_its_time : handed_to.sim.glob_time ≡ t
  pub same_rest : handed_to.rest ≡ w.rest
  pub ran : w' ≡ (delete_if_disposable event ((c.doit event >> c.probe event) handed_to).1).1
  pub clock : w'.sim.glob_time ≡ t
  pub valid : IsValid w'.sim

abbrev pub StepOutcome :
    {A : Type 0} → Callbacks A → (World A → Type 0) → World A → Outcome Tick × World A → Type 0
StepOutcome c inv w (throw x, w') =
    (x ≡ no_more_events_in_queue) × (w' ≡ w) × (w.sim.event_queue ≡ [])
StepOutcome c inv w (return t, w') = Took c t w w' × inv w'

-- `sim_step` from a well-formed queue, in a program with an invariant that holds, under which the
-- handlers of the next event return, keep the queue well formed and leave the clock alone: on an
-- empty queue it throws `NoMoreEventsInQueue` and changes nothing; otherwise it takes a queued
-- event that no queued event precedes out of the queue, and only this one, moves the clock to its
-- time, which is not before the clock, runs its handler and its probes there, deletes it if it is
-- disposable, returns its time, and leaves a well-formed queue and the invariant.
pub sim_step-outcome :
    {A : Type 0} (c : Callbacks A) (inv : World A → Type 0) (w : World A)
    → IsOrderly c inv
    → IsValid w.sim
    → inv w
    → StepOutcome c inv w (sim_step c w)
unfolding sim_step stepped after_handler
sim_step-outcome c inv w orderly v holds = elim (Option-cases (front w.sim.event_queue)) [
  | inl n ↦ rw (n, sim_step) (refl, refl, front-none w.sim.event_queue n)
  | inr (e, f) ↦
      let good = orderly.handles e w v holds f in
      rw (sim_step_lem c e w v f good) (
        record {
          event = e;
          queued = front-contains e w.sim.event_queue f;
          its_time = refl;
          first = λ z q.
              front_least (less w.sim.events) (less-IsStrictWeak w.sim.events) e z w.sim.event_queue
                v.sorted f q;
          forward = v.future e (front-contains e w.sim.event_queue f);
          handed_to = given e w;
          out = λ z. contains-dropped e w.sim z v;
          at_its_time = ground arith;
          same_rest = refl;
          ran = refl;
          clock = stepped-clock c e w v f good;
          valid = stepped-IsValid c e w v f good;
        },
        orderly.keeps e w v holds f,
      )
]
