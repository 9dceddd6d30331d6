-- ===== src/Simulation/Step.antt =====
-- One step of the engine: `Simulation::sim_step` and `Event::action`.
use partsim.Prelude.{
  ℕ, ◌≡◌, ◌≢◌, refl, ap, subst, ◌∙◌, inl, inr, Bool, true, false, some, arith, Bool-cases, ◌==◌,
  if◌then◌else◌, ==_iff,
}
use partsim.Prelude.Int.{◌≤ℤ◌}
use partsim.Prelude.Action.{Outcome, return, pure, ◌>>◌}
use partsim.Tick.{Tick, max_tick}
use partsim.PriorityList.{front}
use partsim.PriorityList.Order.{contains}
use partsim.PriorityList.Elements.{IsSorted-ext, front_least}
use partsim.Event.{Event, Sim, cmp, less, store, drop, restore_priority}
use partsim.Event.Order.{IsValid, less-IsStrictWeak}
use partsim.Event.Drop.{
  dropped, dropped-IsValid, contains-dropped, prioritised, prioritised-IsValid,
}
use partsim.Simulation.{
  World, Callbacks, with_sim, action, step_event, sim_step, delete_if_disposable,
}

pub cmp-time_le : (a b : Event) → cmp a b ≡ true → a.time ≤ℤ b.time
unfolding cmp
cmp-time_le a b h = ground arith

pub not_cmp-time_le : (a b : Event) → cmp a b ≡ false → b.time ≤ℤ a.time
unfolding cmp
not_cmp-time_le a b h = ground arith

-- The clock may move up to the time of the next event.
pub advance-IsValid :
    (t : Tick) (s : Sim)
    → IsValid s
    → ((z : ℕ) → contains z s.event_queue ≡ true → t ≤ℤ (s.events z).time)
    → IsValid (record s { glob_time = t })
advance-IsValid t s v h = record {
  sorted = v.sorted;
  flags = v.flags;
  future = h;
  ordered = v.ordered;
  finite = v.finite;
  unposted = v.unposted;
  unique = v.unique;
}

-- `_lastTime` is no part of the key.
abbrev stamped : ℕ → Sim → Sim
stamped e s = store e (record (s.events e) { last_time = (s.events e).time }) s

less-stamped : (e : ℕ) (s : Sim) (a b : ℕ) → less s.events a b ≡ less (stamped e s).events a b
unfolding cmp
less-stamped e s a b = elim (Bool-cases (a == e)) [
  | inl x ↦ elim (Bool-cases (b == e)) [
    | inl y ↦ rw (x, y, (==_iff a e).0 x, (==_iff b e).0 y)
    | inr y ↦ rw (x, y, (==_iff a e).0 x)
  ]
  | inr x ↦ elim (Bool-cases (b == e)) [ inl y ↦ rw (x, y, (==_iff b e).0 y) | inr y ↦ rw (x, y) ]
]

stamped-IsValid : (e : ℕ) (s : Sim) → IsValid s → IsValid (stamped e s)
stamped-IsValid e s v = record {
  sorted =
      IsSorted-ext (less s.events) (less (stamped e s).events) s.event_queue
        (λ a b ca cb. less-stamped e s a b) v.sorted;
  flags = λ j. ground (arith, v.flags j, ==_iff j e);
  future = λ j c. ground (arith, v.future j, ==_iff j e);
  ordered = λ j c. ground (arith, v.ordered j, ==_iff j e);
  finite = λ j c. subst (λ t. t ≢ max_tick) (same_time j) (v.finite j c);
  unposted = λ j. ground (arith, v.unposted j, ==_iff j e);
  unique = λ j k c o u. ground (arith, v.unique j k, ==_iff j e, ==_iff k e);
}
  where
    same_time : (j : ℕ) → (s.events j).time ≡ ((stamped e s).events j).time
    same_time j = ground (arith, ==_iff j e)

-- The queue as the handler of an event finds it: the event is out, the clock is at its time, and
-- its priority is the standard one again.
abbrev pub handed : ℕ → Sim → Sim
handed e s =
    let out = stamped e (record (dropped e s) { glob_time = ((dropped e s).events e).time }) in
    prioritised e (out.events e).std_priority out

pub handed-IsValid :
    (e : ℕ) (s : Sim) → IsValid s → front s.event_queue ≡ some e → IsValid (handed e s)
handed-IsValid e s v f =
    let clocked : Sim = record (dropped e s) { glob_time = ((dropped e s).events e).time } in
    prioritised-IsValid e ((stamped e clocked).events e).std_priority (stamped e clocked)
      (stamped-IsValid e clocked advanced) (ground (arith, contains-dropped e s e v, ==_iff e e))
  where
    later :
        (z : ℕ)
        → contains z (dropped e s).event_queue ≡ true
        → ((dropped e s).events e).time ≤ℤ ((dropped e s).events z).time
    later z c =
        let inside : contains z s.event_queue ≡ true = ground (arith, contains-dropped e s z v) in
        let least : less s.events z e ≡ false =
          front_least (less s.events) (less-IsStrictWeak s.events) e z s.event_queue v.sorted f
            inside in
        ground (arith, not_cmp-time_le (s.events z) (s.events e) least, ==_iff z e)

    advanced : IsValid (record (dropped e s) { glob_time = ((dropped e s).events e).time })
    advanced =
        advance-IsValid ((dropped e s).events e).time (dropped e s) (dropped-IsValid e s v) later

-- The world as the handler of `e` finds it.
abbrev pub given : {A : Type 0} → ℕ → World A → World A
given e w = with_sim (handed e w.sim) w

-- What the handler and the probes of an event have done to the world: they returned, kept the queue
-- well formed and left the clock alone.
pub record Handled {A : Type 0} (w : World A) (result : Outcome (Unit {0}) × World A) : Type 0 where
  pub returned : result.0 ≡ return tt
  pub valid : IsValid result.1.sim
  pub clock : result.1.sim.glob_time ≡ w.sim.glob_time

module _ {A : Type 0} (c : Callbacks A) where
  -- What the handler and the probes of event `e` leave.
  unfoldable pub after_handler : ℕ → World A → World A
  after_handler e w = ((c.doit e >> c.probe e) w).1

  -- What a step that takes event `e` leaves.
  unfoldable pub stepped : ℕ → World A → World A
  unfolding after_handler
  stepped e w = (delete_if_disposable e (after_handler e (given e w))).1

-- A program with the invariant `inv`: in each world with a well-formed queue in which it holds, the
-- handlers of the next event do what they should, and it holds after the step.
pub record IsOrderly {A : Type 0} (c : Callbacks A) (inv : World A → Type 0) : Type 0 where
  pub handles :
      (e : ℕ) (w : World A)
      → IsValid w.sim
      → inv w
      → front w.sim.event_queue ≡ some e
      → Handled (given e w) ((c.doit e >> c.probe e) (given e w))
  pub keeps :
      (e : ℕ) (w : World A)
      → IsValid w.sim
      → inv w
      → front w.sim.event_queue ≡ some e
      → inv (stepped c e w)

module _ {A : Type 0} (c : Callbacks A) where
  abbrev Fine : World A → Outcome (Unit {0}) × World A → Type 0
  Fine w (r, w') = (r ≡ return tt) × IsValid w'.sim × (w'.sim.glob_time ≡ w.sim.glob_time)

  either :
      (w : World A) (x y : Outcome (Unit {0}) × World A) (b : Bool)
      → Fine w x
      → Fine w y
      → Fine w (if b then x else y)
  either w x y true p q = p
  either w x y false p q = q

  delete_lem : (e : ℕ) (w : World A) → IsValid w.sim → Fine w (delete_if_disposable e w)
  unfolding drop
  delete_lem e w v =
      either w _ _ (w.sim.events e).disposable (refl, dropped-IsValid e w.sim v, refl)
        (refl, v, refl)

  module _ (e : ℕ) (w : World A) (v : IsValid w.sim) (f : front w.sim.event_queue ≡ some e)
      (good : Handled (given e w) ((c.doit e >> c.probe e) (given e w))) where
    ran : (c.doit e >> c.probe e) (given e w) ≡ (return tt, after_handler c e (given e w))
    unfolding after_handler
    ran i = (good.returned i, ((c.doit e >> c.probe e) (given e w)).1)

    deleted :
        Fine
          (after_handler c e (given e w))
          (delete_if_disposable e (after_handler c e (given e w)))
    unfolding after_handler
    deleted = delete_lem e (after_handler c e (given e w)) good.valid

    same_time : ((dropped e w.sim).events e).time ≡ (w.sim.events e).time
    same_time = ground arith

    unrolled :
        step_event c e w
        ≡ ((c.doit e >> c.probe e)
              >> (delete_if_disposable e >> pure ((dropped e w.sim).events e).time))
            (given e w)
    unfolding step_event action restore_priority drop
    unrolled = refl

    pub sim_step_lem : sim_step c w ≡ (return (w.sim.events e).time, stepped c e w)
    unfolding stepped sim_step
    sim_step_lem =
        rw (f, sim_step)
          (rw (unrolled, ran, deleted.0) (ap (λ (t : Tick). (return t, stepped c e w)) same_time))

    pub stepped-IsValid : IsValid (stepped c e w).sim
    unfolding stepped
    stepped-IsValid = deleted.1

    pub stepped-clock : (stepped c e w).sim.glob_time ≡ (w.sim.events e).time
    unfolding stepped after_handler
    stepped-clock = deleted.2 ∙ good.clock ∙ same_time
