-- ===== src/Task/Arrivals.antt =====
-- The arrival of an instance, and the start of a run.
use partsim.Prelude.{
  ℕ, ◌≡◌, ◌≢◌, refl, ap, ◌∙◌, Bool, true, false, ==_iff, ◌⊎◌, arith, Bool-cases, inl, inr, List, [],
  ◌∷◌, length,
}
use partsim.Prelude.Int.{pos, ◌+ℤ◌, ◌≤ℤ◌, ◌<ℤ◌, leb_ℤ}
use partsim.Prelude.Action.{Action, Outcome, return, throw, task_already_active}
use partsim.Tick.{Tick, max_tick}
use partsim.Event.Order.{IsValid}
use partsim.PriorityList.Order.{contains}
use partsim.Event.Post.{posted-IsValid, contains-posted, post_lem}
use partsim.Task.{
  Task, TaskEvents, TaskWorld, tsk_idle, tsk_ready, is_active, reset_all, set_deadline,
  handle_arrival, new_run,
}
use partsim.Task.Buffer.{unbuff_all_lem}

-- What an instruction's method, called on the task `s`, has done: it returned, kept the queue well
-- formed and left the clock and the task's members alone; of the events it queued, dropped or
-- changed only its own, `mine`.
pub record Acted {A : Type 0} (mine : ℕ → Bool) (s : Task A) (result : Outcome (Unit {0}) × Task A)
    : Type 0 where
  pub returned : result.0 ≡ return tt
  pub members : record result.1 { sim = s.sim; rest = s.rest } ≡ s
  pub valid : IsValid result.1.sim
  pub clock : result.1.sim.glob_time ≡ s.sim.glob_time
  pub queue :
      (z : ℕ) → mine z ≡ false → contains z result.1.sim.event_queue ≡ contains z s.sim.event_queue

-- Instructions whose `reset` does so in every well-formed queue.
pub record IsInner {A : Type 0} (mine : ℕ → Bool) (m : ℕ → Action (Task A) (Unit {0}))
    : Type 0 where
  pub acts : (i : ℕ) (s : Task A) → IsValid s.sim → Acted mine s (m i s)

-- What the arrival of an instance leaves.
pub record Arrived {A : Type 0} (mine : ℕ → Bool) (evt : TaskEvents) (arr : Tick) (s s' : Task A)
    : Type 0 where
  pub state : s'.state ≡ tsk_ready
  pub arrival : s'.arrival ≡ arr
  pub deadline : s'.dl ≡ arr +ℤ s.rdl
  pub fresh : s'.execd_time ≡ pos 0
  pub first_instr : s'.act_instr ≡ 0
  pub valid : IsValid s'.sim
  pub others :
      (z : ℕ)
      → mine z ≡ false
      → z ≢ evt.dead_evt
      → contains z s'.sim.event_queue ≡ contains z s.sim.event_queue
  pub alarm :
      ((s.sim.glob_time ≤ℤ s'.dl)
        × ((s'.sim.events evt.dead_evt).is_in_queue ≡ true)
        × ((s'.sim.events evt.dead_evt).time ≡ s'.dl))
      ⊎ ((s'.dl <ℤ s.sim.glob_time) × ((s'.sim.events evt.dead_evt).is_in_queue ≡ false))

module _ {A : Type 0} (mine : ℕ → Bool) (evt : TaskEvents) (env : TaskWorld A)
    (resets : IsInner mine env.instr_reset) where
  resets_all : (is : List ℕ) (s : Task A) → IsValid s.sim → Acted mine s (reset_all evt env is s)
  resets_all [] s v = record {
    returned = refl;
    members = refl;
    valid = v;
    clock = refl;
    queue = λ z h. refl;
  }
  resets_all (i ∷ is) s v =
      let first = resets.acts i s v in
      let rest = resets_all is (env.instr_reset i s).1 first.valid in
      rw first.returned (record {
        returned = rest.returned;
        members =
            ap (λ (u : Task A). record u { sim = s.sim; rest = s.rest }) rest.members
            ∙ first.members;
        valid = rest.valid;
        clock = rest.clock ∙ first.clock;
        queue = λ z h. rest.queue z h ∙ first.queue z h;
      })

  module _ (arr : Tick) (s : Task A) (v : IsValid s.sim)
      (silent : contains evt.dead_evt s.sim.event_queue ≡ false) (own : mine evt.dead_evt ≡ false)
      (far : arr +ℤ s.rdl ≢ max_tick) where
    abbrev begun : Task A
    begun = record s { arrival = arr; execd_time = pos 0; act_instr = 0 }

    abbrev after_reset : Task A
    after_reset = (reset_all evt env s.instr_queue begun).1

    all_reset : Acted mine begun (reset_all evt env s.instr_queue begun)
    all_reset = resets_all s.instr_queue begun v

    -- The task with the world and the events as the instructions leave them.
    abbrev readied : Task A
    readied = record begun { sim = after_reset.sim; rest = after_reset.rest; state = tsk_ready }

    same_task : record after_reset { state = tsk_ready } ≡ readied
    same_task =
        ap
          (λ (u : Task A). record u {
            sim = after_reset.sim;
            rest = after_reset.rest;
            state = tsk_ready;
          })
          all_reset.members

    reaches :
        is_active s.state ≡ false → handle_arrival evt env arr s ≡ set_deadline evt env readied
    unfolding handle_arrival
    reaches idle = rw (idle, all_reset.returned) (ap (set_deadline evt env) same_task)

    still_silent : (readied.sim.events evt.dead_evt).is_in_queue ≡ false
    still_silent = all_reset.valid.flags evt.dead_evt ∙ all_reset.queue evt.dead_evt own ∙ silent

    same_clock : readied.sim.glob_time ≡ s.sim.glob_time
    same_clock = all_reset.clock

    arrives_late :
        leb_ℤ readied.sim.glob_time (arr +ℤ s.rdl) ≡ false
        → Arrived mine evt arr s (set_deadline evt env readied).1
          × ((set_deadline evt env readied).0 ≡ return tt)
    arrives_late late =
        let past : arr +ℤ s.rdl <ℤ readied.sim.glob_time = ground arith in
        rw late (
          record {
            state = refl;
            arrival = refl;
            deadline = refl;
            fresh = refl;
            first_instr = refl;
            valid = all_reset.valid;
            others = λ z h n. all_reset.queue z h;
            alarm = inr (rw (← same_clock) past, still_silent);
          },
          refl,
        )

    arrives_early :
        leb_ℤ readied.sim.glob_time (arr +ℤ s.rdl) ≡ true
        → Arrived mine evt arr s (set_deadline evt env readied).1
          × ((set_deadline evt env readied).0 ≡ return tt)
    arrives_early early =
        let le : readied.sim.glob_time ≤ℤ arr +ℤ s.rdl = ground arith in
        rw early (
          rw
            (post_lem evt.dead_evt (arr +ℤ s.rdl) false readied.sim all_reset.valid still_silent le
              far)
            (
              record {
                state = refl;
                arrival = refl;
                deadline = refl;
                fresh = refl;
                first_instr = refl;
                valid =
                    posted-IsValid evt.dead_evt (arr +ℤ s.rdl) false readied.sim all_reset.valid
                      still_silent le far;
                others = λ z h n.
                    let c =
                      contains-posted evt.dead_evt (arr +ℤ s.rdl) false readied.sim z
                        all_reset.valid still_silent far in
                    let d = all_reset.queue z h in ground (arith, c, d, ==_iff z evt.dead_evt);
                alarm = inl (rw (← same_clock) le, ground arith, ground arith);
              },
              refl,
            ))

-- What `handleArrival` answers.
abbrev pub ArrivalOutcome :
    {A : Type 0} → (ℕ → Bool) → TaskEvents → Tick → Task A → Outcome (Unit {0}) × Task A → Type 0
ArrivalOutcome mine evt arr s (throw x, s') =
    (x ≡ task_already_active) × (s' ≡ s) × (is_active s.state ≡ true)
ArrivalOutcome mine evt arr s (return _, s') =
    (is_active s.state ≡ false) × Arrived mine evt arr s s'

arrived :
    {A : Type 0} (mine : ℕ → Bool) (evt : TaskEvents) (arr : Tick) (s : Task A)
    (r : Outcome (Unit {0}) × Task A)
    → is_active s.state ≡ false
    → Arrived mine evt arr s r.1 × (r.0 ≡ return tt)
    → ArrivalOutcome mine evt arr s r
arrived mine evt arr s (return _, s') idle (a, e) = (idle, a)
arrived mine evt arr s (throw x, s') idle (a, e) = absurd (cc)

-- `handleArrival` of an instance, over instructions whose `reset` returns and changes, of the task
-- and the queue, at most events of the instructions, in a well-formed queue, with no deadline event
-- pending, which is none of theirs, and the deadline not at `MAXTICK`: a task that is active throws
-- and nothing changes; otherwise the task is ready, has not executed, starts at its first
-- instruction, and its deadline is the arrival plus the relative deadline, with an event at the
-- deadline exactly if that is not in the past; no other event joins or leaves the queue but those
-- of the instructions.
pub handle_arrival-outcome :
    {A : Type 0} (mine : ℕ → Bool) (evt : TaskEvents) (env : TaskWorld A)
    (resets : IsInner mine env.instr_reset) (arr : Tick) (s : Task A)
    → IsValid s.sim
    → contains evt.dead_evt s.sim.event_queue ≡ false
    → mine evt.dead_evt ≡ false
    → arr +ℤ s.rdl ≢ max_tick
    → ArrivalOutcome mine evt arr s (handle_arrival evt env arr s)
unfolding handle_arrival
handle_arrival-outcome mine evt env resets arr s v silent own far =
    elim (Bool-cases (is_active s.state)) [
      | inl active ↦ rw active (refl, refl, active)
      | inr idle ↦ arrived mine evt arr s (handle_arrival evt env arr s) idle (
          rw (reaches mine evt env resets arr s v silent own far idle) (
            by_time (
              Bool-cases (
                leb_ℤ (readied mine evt env resets arr s v silent own far).sim.glob_time
                  (arr +ℤ s.rdl)))))
    ]
  where
    by_time :
        (leb_ℤ (readied mine evt env resets arr s v silent own far).sim.glob_time (arr +ℤ s.rdl)
            ≡ true)
          ⊎ (leb_ℤ (readied mine evt env resets arr s v silent own far).sim.glob_time (arr +ℤ s.rdl)
              ≡ false)
        → Arrived mine evt arr s
            (set_deadline evt env (readied mine evt env resets arr s v silent own far)).1
          × ((set_deadline evt env (readied mine evt env resets arr s v silent own far)).0
              ≡ return tt)
    by_time (inl early) = arrives_early mine evt env resets arr s v silent own far early
    by_time (inr late) = arrives_late mine evt env resets arr s v silent own far late

-- `newRun` of a task with instructions and a distribution of its arrivals, in a well-formed queue,
-- with no arrival pending and a phase that is not in the past and not `MAXTICK`: it returns; the
-- buffer of arrivals is empty, however many there were; the task is idle with no deadline; and its
-- first arrival is queued at its phase.
pub new_run-outcome :
    {A : Type 0} (evt : TaskEvents) (env : TaskWorld A) (s : Task A) (i : ℕ) (is : List ℕ)
    → s.instr_queue ≡ i ∷ is
    → s.has_int_time ≡ true
    → IsValid s.sim
    → (s.sim.events evt.arr_evt).is_in_queue ≡ false
    → s.sim.glob_time ≤ℤ s.phase
    → s.phase ≢ max_tick
    → ((new_run evt env s).0 ≡ return tt)
      × IsValid (new_run evt env s).1.sim
      × ((new_run evt env s).1.arr_queue ≡ [])
      × ((new_run evt env s).1.state ≡ tsk_idle)
      × ((new_run evt env s).1.dl ≡ pos 0)
      × (((new_run evt env s).1.sim.events evt.arr_evt).is_in_queue ≡ true)
      × (((new_run evt env s).1.sim.events evt.arr_evt).time ≡ s.phase)
unfolding new_run
new_run-outcome evt env s i is instrs timed v free early far =
    rw (instrs, new_run)
      (rw (unbuff_all_lem (length s.arr_queue) s.arr_queue (omega arith), new_run)
        (rw timed (
          rw (post_lem evt.arr_evt s.phase false s.sim v free early far) (
            refl,
            posted-IsValid evt.arr_evt s.phase false s.sim v free early far,
            refl,
            refl,
            refl,
            ground arith,
            ground arith,
          ))))
