-- ===== src/Simulation/Examples.antt =====
-- The engine over a periodic entity: the handler of event 4 counts its calls and posts the event
-- again 3 ticks later, while the clock is before 100.
use partsim.Prelude.{
  ℕ, ◌+◌, ◌<◌, ◌≡◌, ◌≢◌, refl, sym, ap, ◌∙◌, arith, true, false, some, none, Option-cases, inl, inr,
  ==_iff, ◌==◌, ◌&&◌, not, Bool-cases, if◌then◌else◌, subst,
}
use partsim.Prelude.Int.{
  ℤ, pos, negsuc, pos_part, neg_part, ◌+ℤ◌, ◌-ℤ◌, ◌≤ℤ◌, ◌<ℤ◌, ltb_ℤ, int_laws,
}
use partsim.Prelude.Action.{
  Action, Outcome, return, throw, modify, pure, ◌>>◌, no_more_events_in_queue,
}
use partsim.Tick.{Tick, max_tick}
use partsim.PriorityList.{front}
use partsim.PriorityList.Order.{contains}
use partsim.PriorityList.Elements.{front-contains}
use partsim.Event.{post}
use partsim.Event.Drop.{contains-dropped}
use partsim.Event.Post.{posted, posted-IsValid, contains-posted, post_lem}
use partsim.Event.Examples.{initial, initial-IsValid, not_max}
use partsim.Event.Order.{IsValid}
use partsim.Simulation.{World, Callbacks, on_sim, sim_step, main_cycle, delete_if_disposable}
use partsim.Simulation.Step.{
  IsOrderly, Handled, given, handed-IsValid, stepped, after_handler, sim_step_lem,
}
use partsim.Simulation.Order.{StepOutcome, sim_step-outcome}
use partsim.Simulation.Reach.{Reaches, here, step, reaches-IsValid}
use partsim.Simulation.MainCycle.{Falls, CycleOutcome, main_cycle-outcome}

abbrev nothing : {B : Type 0} → B → Action (World ℕ) (Unit {0})
nothing _ = pure tt

abbrev again : ℕ → Action (World ℕ) (Unit {0})
again e w =
    if ltb_ℤ w.sim.glob_time (pos 100)
    then on_sim (post e (w.sim.glob_time +ℤ pos 3) false) w
    else (return tt, w)

abbrev periodic : Callbacks ℕ
periodic = record {
  doit = λ e. modify (λ w. record w { rest = w.rest + 1 }) >> again e;
  probe = nothing;
  call_new_run = pure tt;
  call_end_run = pure tt;
  stat_init = nothing;
  stat_new_run = pure tt;
  stat_end_run = pure tt;
  stat_end_sim = pure tt;
}

-- No other event is queued, and event 4 is at most 3 ticks ahead.
record IsTicking (w : World ℕ) : Type 0 where
  only : (z : ℕ) → contains z w.sim.event_queue ≡ true → z ≡ 4
  near : (w.sim.events 4).time ≤ℤ w.sim.glob_time +ℤ pos 3
  kept : (w.sim.events 4).disposable ≡ false

module _ (w : World ℕ) (v : IsValid w.sim) (i : IsTicking w)
    (f : front w.sim.event_queue ≡ some 4) where
  abbrev at : World ℕ
  at = given 4 w

  at-IsValid : IsValid at.sim
  at-IsValid = handed-IsValid 4 w.sim v f

  out : (z : ℕ) → contains z at.sim.event_queue ≡ (contains z w.sim.event_queue && not (z == 4))
  out z = contains-dropped 4 w.sim z v

  free : (at.sim.events 4).is_in_queue ≡ false
  free = at-IsValid.flags 4 ∙ out 4 ∙ ground arith

  clock : at.sim.glob_time ≡ (w.sim.events 4).time
  clock = ground arith

  -- What the handler leaves before the time 100, and from then on.
  abbrev counted : World ℕ
  counted = record at { rest = at.rest + 1 }

  abbrev posting : World ℕ
  posting = record counted { sim = posted 4 (at.sim.glob_time +ℤ pos 3) false at.sim }

  ahead : at.sim.glob_time ≤ℤ at.sim.glob_time +ℤ pos 3
  ahead = omega int_laws

  module _ (early : ltb_ℤ at.sim.glob_time (pos 100) ≡ true) where
    far : at.sim.glob_time +ℤ pos 3 ≢ max_tick
    far e =
        let before : at.sim.glob_time <ℤ pos 100 = ground arith in
        absurd (omega (int_laws, before, ap pos_part e, ap neg_part e))

    posts : (periodic.doit 4 >> periodic.probe 4) at ≡ (return tt, posting)
    posts =
        rw early
          (rw (post_lem 4 (at.sim.glob_time +ℤ pos 3) false at.sim at-IsValid free ahead far) refl)

    posting-IsValid : IsValid posting.sim
    posting-IsValid =
        posted-IsValid 4 (at.sim.glob_time +ℤ pos 3) false at.sim at-IsValid free ahead far

    posting-IsTicking : IsTicking posting
    posting-IsTicking = record {
      only = λ z q.
          let c =
            contains-posted 4 (at.sim.glob_time +ℤ pos 3) false at.sim z at-IsValid free far in
          let o = out z in
          elim (Bool-cases (z == 4)) [ inl x ↦ (==_iff z 4).0 x | inr x ↦ i.only z (ground arith) ];
      near = omega int_laws;
      kept = refl;
    }

    posting-stepped : stepped periodic 4 w ≡ posting
    unfolding stepped after_handler
    posting-stepped = ap (λ r. (delete_if_disposable 4 r.1).1) posts

  module _ (late : ltb_ℤ at.sim.glob_time (pos 100) ≡ false) where
    stops : (periodic.doit 4 >> periodic.probe 4) at ≡ (return tt, counted)
    stops = rw late refl

    counted-IsTicking : IsTicking counted
    counted-IsTicking = record {
      only = λ z q. let o = out z in i.only z (ground arith);
      near = omega int_laws;
      kept = i.kept;
    }

    counted-stepped : stepped periodic 4 w ≡ counted
    unfolding stepped after_handler
    counted-stepped = ap (λ r. (delete_if_disposable 4 r.1).1) stops ∙ rw i.kept refl

  at-Handled : Handled at ((periodic.doit 4 >> periodic.probe 4) at)
  at-Handled = elim (Bool-cases (ltb_ℤ at.sim.glob_time (pos 100))) [
    | inl early ↦
        subst (Handled at) (sym (posts early))
          (record { returned = refl; valid = posting-IsValid early; clock = refl })
    | inr late ↦
        subst (Handled at) (sym (stops late))
          (record { returned = refl; valid = at-IsValid; clock = refl })
  ]

  stepped-IsTicking : IsTicking (stepped periodic 4 w)
  stepped-IsTicking = elim (Bool-cases (ltb_ℤ at.sim.glob_time (pos 100))) [
    | inl early ↦ subst IsTicking (sym (posting-stepped early)) (posting-IsTicking early)
    | inr late ↦ subst IsTicking (sym (counted-stepped late)) (counted-IsTicking late)
  ]

-- The event that is taken is event 4.
is_4 : (e : ℕ) (w : World ℕ) → IsTicking w → front w.sim.event_queue ≡ some e → e ≡ 4
is_4 e w i f = i.only e (front-contains e w.sim.event_queue f)

periodic-IsOrderly : IsOrderly periodic IsTicking
periodic-IsOrderly = record {
  handles = λ e w v i f.
      let same = is_4 e w i f in
      subst (λ x. Handled (given x w) ((periodic.doit x >> periodic.probe x) (given x w)))
        (sym same) (at-Handled w v i (f ∙ ap some same));
  keeps = λ e w v i f.
      let same = is_4 e w i f in
      subst (λ x. IsTicking (stepped periodic x w)) (sym same)
        (stepped-IsTicking w v i (f ∙ ap some same));
}

-- Event 4 is queued for the time 2.
abbrev world : World ℕ
world = record {
  sim = posted 4 (pos 2) false initial;
  rest = 0;
  num_runs = 1;
  act_runs = 0;
  end = false;
}

world-IsValid : IsValid world.sim
world-IsValid =
    posted-IsValid 4 (pos 2) false initial initial-IsValid refl (omega arith)
      (not_max 2 (omega arith))

world-IsTicking : IsTicking world
unfolding ◌+ℤ◌
world-IsTicking = record {
  only = λ z q.
      let c =
        contains-posted 4 (pos 2) false initial z initial-IsValid refl (not_max 2 (omega arith)) in
      (==_iff z 4).0 (ground arith);
  near = omega arith;
  kept = refl;
}

sim_step-outcome_example : StepOutcome periodic IsTicking world (sim_step periodic world)
sim_step-outcome_example =
    sim_step-outcome periodic IsTicking world periodic-IsOrderly world-IsValid world-IsTicking

first_is_4 : front world.sim.event_queue ≡ some 4
unfolding front partsim.PriorityList.insert
first_is_4 = refl

abbrev after_one : World ℕ
after_one = stepped periodic 4 world

one_step : Reaches periodic world after_one
one_step =
    step (pos 2) world after_one after_one
      (sim_step_lem periodic 4 world world-IsValid first_is_4
        (at-Handled world world-IsValid world-IsTicking first_is_4))
      (here after_one)

reaches-IsValid_example :
    IsValid after_one.sim × IsTicking after_one × (pos 0 ≤ℤ after_one.sim.glob_time)
reaches-IsValid_example =
    reaches-IsValid periodic IsTicking world after_one periodic-IsOrderly world-IsValid
      world-IsTicking one_step

-- Each step before the time 9 moves the event on.
abbrev left : World ℕ → ℕ
left w = pos_part (pos 12 -ℤ (w.sim.events 4).time)

below : (a b : ℤ) → a <ℤ b → pos 0 <ℤ b → pos_part a < pos_part b
below (pos n) (pos m) h k = omega (arith, h)
below (negsuc n) (pos m) h k = omega (arith, k)
below a (negsuc m) h k = absurd (omega (arith, k))

closer :
    (w : World ℕ) (v : IsValid w.sim) (i : IsTicking w)
    → front w.sim.event_queue ≡ some 4
    → w.sim.glob_time <ℤ pos 9
    → left (stepped periodic 4 w) < left w
closer w v i f soon =
    let near = i.near in
    let soon_enough : (w.sim.events 4).time <ℤ pos 100 = omega (int_laws, near, soon) in
    let early : ltb_ℤ (at w v i f).sim.glob_time (pos 100) ≡ true = ground arith in
    rw (posting-stepped w v i f early) (
      below (pos 12 -ℤ ((w.sim.events 4).time +ℤ pos 3)) (pos 12 -ℤ (w.sim.events 4).time)
        (omega int_laws) (omega (int_laws, near, soon)))

empty_step :
    (w : World ℕ)
    → front w.sim.event_queue ≡ none
    → sim_step periodic w ≡ (throw no_more_events_in_queue, w)
unfolding sim_step
empty_step w n = rw (n, sim_step)

periodic-Falls : Falls periodic IsTicking (pos 9) left
periodic-Falls t w u v i soon e = elim (Option-cases (front w.sim.event_queue)) [
  | inl n ↦ absurd (cc (ap (λ (r : Outcome Tick × World ℕ). r.0) (sym e ∙ empty_step w n)))
  | inr (x, f) ↦
      let f4 : front w.sim.event_queue ≡ some 4 = f ∙ ap some (is_4 x w i f) in
      let same : u ≡ stepped periodic 4 w =
        ap (λ (r : Outcome Tick × World ℕ). r.1)
          (sym e ∙ sim_step_lem periodic 4 w v f4 (at-Handled w v i f4)) in
      rw same (closer w v i f4 soon)
]

main_cycle-outcome_example :
    CycleOutcome periodic (pos 9) world (main_cycle periodic 13 (pos 9) world)
unfolding ◌-ℤ◌
main_cycle-outcome_example =
    main_cycle-outcome periodic IsTicking left 13 (pos 9) world periodic-IsOrderly periodic-Falls
      world-IsValid world-IsTicking (omega arith)
