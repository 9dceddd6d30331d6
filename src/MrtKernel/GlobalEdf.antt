-- ===== src/MrtKernel/GlobalEdf.antt =====
-- Under EDF the processors go to the tasks with the earliest deadlines.
use partsim.Prelude.{
  ℕ, ◌≡◌, ◌≢◌, refl, subst, inl, inr, true, false, Option, none, some, arith, Bool-cases, ltb,
}
use partsim.Prelude.Int.{pos, ◌+ℤ◌, ◌≤ℤ◌}
use partsim.Tick.{max_tick}
use partsim.PriorityList.Order.{contains}
use partsim.Event.Order.{IsValid}
use partsim.Scheduler.{Scheduler, TaskModel, RtTask, before, model_cmp, get_priority}
use partsim.Scheduler.Service.{AllEdf, edf_priority}
use partsim.MrtKernel.{MrtKernel, Machine, lookup_cpu, on_begin_dispatch_multi}
use partsim.MrtKernel.Invariant.{is_queued}
use partsim.MrtKernel.Choice.{
  Choice, IsFirstNew, sorted_positions, contains-get_elem?, get_elem?-contains,
}
use partsim.MrtKernel.Begin.{
  IsQuiet, IsWaiting, vacated, waiting-fresh, vacated-sched, on_begin_dispatch_multi-chooses,
}

before-le :
    (task : ℕ → RtTask) (a b : TaskModel)
    → model_cmp task a b ≡ true
    → get_priority task a ≤ℤ get_priority task b
unfolding model_cmp
before-le task a b h = ground arith

-- `t` is no later than the task of the ready model `z`.
module _ {A : Type 0} (task : ℕ → RtTask) (k : MrtKernel A)
    (sorted : partsim.Scheduler.Order.IsValid task k.sched) (all : AllEdf k.sched) where
  earliest :
      (t z : ℕ)
      → IsFirstNew k t
      → contains z k.sched.queue ≡ true
      → lookup_cpu (k.sched.models z).rt_task k.dispatched ≡ none
      → (task t).deadline ≤ℤ (task (k.sched.models z).rt_task).deadline
  earliest t z first ready fresh =
      let (j, at_j) = contains-get_elem? z k.sched.queue ready in
      let ready_m = get_elem?-contains k.sched.queue first.position first.model first.at_position in
      let le : get_priority task (k.sched.models first.model)
          ≤ℤ get_priority task (k.sched.models z) =
        elim (Bool-cases (ltb j first.position)) [
          | inl earlier ↦ absurd (first.skipped j (ground arith) z at_j fresh)
          | inr not_earlier ↦ elim (Bool-cases (ltb first.position j)) [
            | inl later ↦ before-le task (k.sched.models first.model) (k.sched.models z) (
                sorted_positions (before task k.sched.models) k.sched.queue first.position j
                  first.model z sorted.sorted (ground arith) first.at_position at_j)
            | inr here ↦
                let same_place : j ≡ first.position = ground arith in
                let same : first.model ≡ z = cc (first.at_position, at_j, same_place) in
                rw same (omega arith)
          ]
        ] in
      rw
        (
          ← first.its_task,
          ← edf_priority task (k.sched.models first.model) (all first.model ready_m),
          ← edf_priority task (k.sched.models z) (all z ready),
        )
        le

-- The choice serves a task that is no later than any ready one that waits, on the scheduler `s`.
abbrev Serves : (ℕ → RtTask) → Option ℕ → (ℕ → Option ℕ) → ℕ → Scheduler → Type 0
Serves task o where_is z s =
    partsim.Scheduler.Order.IsValid task s
    → AllEdf s
    → contains z s.queue ≡ true
    → where_is (s.models z).rt_task ≡ none
    → (t : ℕ) × (o ≡ some t) × ((task t).deadline ≤ℤ (task (s.models z).rt_task).deadline)

serves :
    {A : Type 0} (task : ℕ → RtTask) (k : MrtKernel A) (z : ℕ) (o : Option ℕ)
    → Choice k o
    → Serves task o (λ t. lookup_cpu t k.dispatched) z k.sched
serves task k z none c sorted all ready fresh =
    let (j, at_j) = contains-get_elem? z k.sched.queue ready in absurd (c j z at_j fresh)
serves task k z (some t) c sorted all ready fresh =
    (t, refl, earliest task k sorted all t z c ready fresh)

-- Under EDF, on a well-formed scheduler with no priority set from outside, under the conditions of
-- `on_begin_dispatch_multi-chooses`: if a ready task is dispatched nowhere, or is the one that the
-- begin of the dispatch takes off the processor, then the processor switches to a task, and its
-- deadline is not after the deadline of that one.
pub on_begin_dispatch_multi-edf :
    {A : Type 0} (env : Machine A) (p : ℕ) (k : MrtKernel A) (z : ℕ)
    → IsQuiet env
    → IsValid k.sim
    → is_queued (env.end_evt p) k.sim ≡ false
    → pos 0 ≤ℤ k.context_switch_delay
    → pos 0 ≤ℤ k.migration_delay
    → k.sim.glob_time +ℤ k.context_switch_delay ≢ max_tick
    → k.sim.glob_time +ℤ (k.context_switch_delay +ℤ k.migration_delay) ≢ max_tick
    → partsim.Scheduler.Order.IsValid (env.task k.rest) k.sched
    → AllEdf k.sched
    → contains z k.sched.queue ≡ true
    → IsWaiting p k (k.sched.models z).rt_task
    → (t : ℕ) × ((on_begin_dispatch_multi env p k).1.end_task p ≡ some t)
      × ((env.task k.rest t).deadline ≤ℤ (env.task k.rest (k.sched.models z).rt_task).deadline)
on_begin_dispatch_multi-edf env p k z quiet v free delay migration far far_off sorted all ready
      waits =
    let (_, b) = on_begin_dispatch_multi-chooses env p k quiet v free delay migration far far_off in
    let task = env.task k.rest in
    let after = vacated env p k in
    let o = (on_begin_dispatch_multi env p k).1.end_task p in
    subst (Serves task o (λ t. lookup_cpu t after.dispatched) z) (vacated-sched env p k)
      (serves task after z o b.chosen) sorted all ready
      (waiting-fresh env p k (k.sched.models z).rt_task waits)
