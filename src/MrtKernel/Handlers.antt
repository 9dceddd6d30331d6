-- ===== src/MrtKernel/Handlers.antt =====
-- The handlers keep the maps consistent.
use partsim.Prelude.{
  ℕ, zero, suc, ◌+◌, ◌≡◌, refl, sym, ap, subst, ◌∙◌, inl, inr, true, false, Option, none, some,
  ◌==◌, ==_iff, arith, Bool-cases, Option-cases, length,
}
use partsim.Prelude.Action.{Action, Outcome, return, modify, ◌>>◌, >>=_keeps}
use partsim.Prelude.Int.{◌+ℤ◌}
use partsim.Event.{Sim, post, drop}
use partsim.Scheduler.{get_task_n, notify}
use partsim.MrtKernel.{
  MrtKernel, Machine, lookup_cpu, update, on_sim, on_tasks, leave_cpu, set_curr_exe, set_switching,
  start_switch, get_processor, first_not_dispatched, where_dispatched, sched_insert, sched_extract,
  suspend_on, end_on, vacate, overhead, switch_multi, begin_multi, schedule_if_any, dispatch_on,
  dispatch, on_arrival, suspend, on_end, on_begin_dispatch_multi, on_end_dispatch_multi,
}
use partsim.MrtKernel.Invariant.{
  IsWired, IsConsistent, is_queued, post_others, moved, leave_cpu-IsConsistent,
  start_switch-IsConsistent, finish-IsConsistent, get_processor-runs,
}
use partsim.MrtKernel.Placement.{drop_end, dispatch_on-IsConsistent, dispatch-IsConsistent}

-- Tasks whose method, also where it throws, queues or drops no end of a context switch.
pub record IsCooperative {A : Type 0} (env : Machine A) (m : ℕ → Action (Sim × A) (Unit {0}))
    : Type 0 where
  pub flags :
      (t : ℕ) (s : Sim × A) (p : ℕ)
      → is_queued (env.end_evt p) (m t s).1.0 ≡ is_queued (env.end_evt p) s.0

-- What the `schedule` of a task at the kernel `k` has done where it does not call the kernel back:
-- it returned, left the kernel's own members alone, and queued or dropped no end of a switch.
pub record Scheduled {A : Type 0} (env : Machine A) (k : MrtKernel A)
    (result : Outcome (Unit {0}) × MrtKernel A) : Type 0 where
  pub returned : result.0 ≡ return tt
  pub members : record result.1 { sim = k.sim; rest = k.rest } ≡ k
  pub flags : (p : ℕ) → is_queued (env.end_evt p) result.1.sim ≡ is_queued (env.end_evt p) k.sim

-- The `schedule` that `onEndDispatchMulti` calls on the processor `p` of `k`.
abbrev pub EndsQuietly : {A : Type 0} → Machine A → ℕ → MrtKernel A → Type 0
EndsQuietly env p k =
    Scheduled env (set_curr_exe p (k.end_task p) k)
      (schedule_if_any env (k.end_task p) (set_curr_exe p (k.end_task p) k))

module _ {A : Type 0} (env : Machine A) (wired : IsWired env)
    (stops : IsCooperative env env.deschedule) where
  same_sim :
      (k : MrtKernel A) (sched : partsim.Scheduler.Scheduler)
      → IsConsistent env k
      → IsConsistent env (record k { sched = sched })
  same_sim k sched c = moved env wired k c k.sim sched k.rest c.ends

  task_lem :
      (m : ℕ → Action (Sim × A) (Unit {0})) (t : ℕ) (k : MrtKernel A)
      → IsCooperative env m
      → IsConsistent env k
      → IsConsistent env (on_tasks (m t) k).1
  task_lem m t k good c =
      moved env wired k c (m t (k.sim, k.rest)).1.0 k.sched (m t (k.sim, k.rest)).1.1
        (λ p h. c.ends p (sym (good.flags t (k.sim, k.rest) p) ∙ h))

  pub on_arrival-IsConsistent :
      (t : ℕ) (k : MrtKernel A) → IsConsistent env k → IsConsistent env (on_arrival env t k).1
  unfolding on_arrival
  on_arrival-IsConsistent t k c =
      let inserted = same_sim k (sched_insert env t k).1.sched c in
      >>=_keeps (IsConsistent env) (sched_insert env t) (λ _. dispatch env) k inserted
        (λ _. dispatch-IsConsistent env wired (sched_insert env t k).1 inserted)

  suspend_on-IsConsistent :
      (t : ℕ) (o : Option ℕ) (k : MrtKernel A)
      → ((p : ℕ) → o ≡ some p → k.curr_exe p ≡ some t)
      → IsConsistent env k
      → IsConsistent env (suspend_on env t o k).1
  suspend_on-IsConsistent t none k runs c = c
  suspend_on-IsConsistent t (some p) k runs c =
      let stopped = (on_tasks (env.deschedule t) k).1 in
      let c1 = task_lem env.deschedule t k stops c in
      >>=_keeps (IsConsistent env) (on_tasks (env.deschedule t))
        (λ _. modify (leave_cpu p t) >> dispatch_on env p) k c1
        (λ _.
          dispatch_on-IsConsistent env wired p (leave_cpu p t stopped)
            (leave_cpu-IsConsistent env wired stopped c1 p t (runs p refl)))

  pub suspend-IsConsistent :
      (t : ℕ) (k : MrtKernel A) → IsConsistent env k → IsConsistent env (suspend env t k).1
  unfolding suspend
  suspend-IsConsistent t k c =
      let extracted = (sched_extract env t k).1 in
      let c1 = same_sim k extracted.sched c in
      >>=_keeps (IsConsistent env) (sched_extract env t)
        (λ _ k. suspend_on env t (get_processor t k) k) k c1
        (λ _.
          suspend_on-IsConsistent t (get_processor t extracted) extracted
            (get_processor-runs t extracted) c1)

  end_on-IsConsistent :
      (t : ℕ) (o : Option ℕ) (k : MrtKernel A)
      → ((p : ℕ) → o ≡ some p → k.curr_exe p ≡ some t)
      → IsConsistent env k
      → IsConsistent env (end_on env t o k).1
  end_on-IsConsistent t none k runs c = c
  end_on-IsConsistent t (some p) k runs c =
      let extracted = (sched_extract env t k).1 in
      let c1 = same_sim k extracted.sched c in
      >>=_keeps (IsConsistent env) (sched_extract env t)
        (λ _. modify (leave_cpu p t) >> dispatch_on env p) k c1
        (λ _.
          dispatch_on-IsConsistent env wired p (leave_cpu p t extracted)
            (leave_cpu-IsConsistent env wired extracted c1 p t (runs p refl)))

  pub on_end-IsConsistent :
      (t : ℕ) (k : MrtKernel A) → IsConsistent env k → IsConsistent env (on_end env t k).1
  unfolding on_end
  on_end-IsConsistent t k c = end_on-IsConsistent t (get_processor t k) k (get_processor-runs t k) c

  not_dispatched :
      (fuel i : ℕ) (k : MrtKernel A) (t : ℕ)
      → first_not_dispatched fuel i k ≡ some t
      → lookup_cpu t k.dispatched ≡ none
  unfolding first_not_dispatched
  not_dispatched zero i k t h = absurd (cc)
  not_dispatched (suc fuel) i k t h = elim (Option-cases (get_task_n i k.sched)) [
    | inl e ↦ absurd (ground (arith, h, e))
    | inr (u, e) ↦ elim (Option-cases (where_dispatched u k)) [
      | inl f ↦ let same : u ≡ t = ground (arith, h, e, f) in rw (← same) f
      | inr (q, f) ↦ not_dispatched fuel (suc i) k t (rw (e, f, first_not_dispatched) at h)
    ]
  ]

  -- The processor is vacant after `vacate`.
  vacate-IsConsistent :
      (p : ℕ) (o : Option ℕ) (k : MrtKernel A)
      → k.curr_exe p ≡ o
      → IsConsistent env k
      → IsConsistent env (vacate env p o k).1 × ((vacate env p o k).1.curr_exe p ≡ none)
  vacate-IsConsistent p none k e c = (c, e)
  vacate-IsConsistent p (some t) k e c = (
    task_lem env.deschedule t (leave_cpu p t k) stops (leave_cpu-IsConsistent env wired k c p t e),
    ground arith,
  )

  other_end : (p q : ℕ) → (q == p) ≡ false → (env.end_evt q == env.end_evt p) ≡ false
  other_end p q x = elim (Bool-cases (env.end_evt q == env.end_evt p)) [
    | inl y ↦
        let same = wired.single q p ((==_iff (env.end_evt q) (env.end_evt p)).0 y) in
        absurd (ground arith)
    | inr y ↦ y
  ]

  started_sim : (p : ℕ) (o : Option ℕ) (k : MrtKernel A) → (start_switch p o k).sim ≡ k.sim
  started_sim p none k = refl
  started_sim p (some t) k = refl

  started_switching :
      (p : ℕ) (o : Option ℕ) (k : MrtKernel A) (q : ℕ)
      → (start_switch p o k).switching q ≡ update p true k.switching q
  started_switching p none k q = refl
  started_switching p (some t) k q = refl

  switch_multi-IsConsistent :
      (p : ℕ) (o : Option ℕ) (k : MrtKernel A)
      → k.curr_exe p ≡ none
      → ((t : ℕ) → o ≡ some t → lookup_cpu t k.dispatched ≡ none)
      → IsConsistent env k
      → IsConsistent env (switch_multi env p o k).1
  switch_multi-IsConsistent p o k vacant new c =
      let started = start_switch p o k in
      let t = k.sim.glob_time +ℤ overhead env p o k in
      moved env wired started (start_switch-IsConsistent env wired k c p o vacant new)
        (post (env.end_evt p) t false started.sim).1 started.sched started.rest
        (λ q h. started_switching p o k q ∙ elim (Bool-cases (q == p)) [
          | inl x ↦ rw x refl
          | inr x ↦
              let same = started_sim p o k in
              let others =
                post_others (env.end_evt p) t false started.sim (env.end_evt q) (other_end p q x) in
              rw x (c.ends q (cc (same, others, h)))
        ])

  pub on_begin_dispatch_multi-IsConsistent :
      (p : ℕ) (k : MrtKernel A)
      → IsConsistent env k
      → IsConsistent env (on_begin_dispatch_multi env p k).1
  unfolding on_begin_dispatch_multi
  on_begin_dispatch_multi-IsConsistent p k c =
      let vacated = (vacate env p (k.curr_exe p) k).1 in
      let (c1, vacant) = vacate-IsConsistent p (k.curr_exe p) k refl c in
      let fuel = length vacated.sched.queue + 1 in
      >>=_keeps (IsConsistent env) (vacate env p (k.curr_exe p)) (λ _. begin_multi env p) k c1
        (λ _.
          switch_multi-IsConsistent p (first_not_dispatched fuel 0 vacated) vacated vacant
            (not_dispatched fuel 0 vacated) c1)

  -- The kernel after the task's `schedule`, and at the end of the handler.
  abbrev scheduled : ℕ → MrtKernel A → MrtKernel A
  scheduled p k = (schedule_if_any env (k.end_task p) (set_curr_exe p (k.end_task p) k)).1

  abbrev finished : ℕ → MrtKernel A → MrtKernel A
  finished p k =
      let k' = set_switching p false (scheduled p k) in
      record k' { sched = record k'.sched { curr_exe = k.end_task p } }

  finishes :
      (p : ℕ) (k : MrtKernel A)
      → EndsQuietly env p k
      → on_end_dispatch_multi env p k ≡ (return tt, finished p k)
  unfolding on_end_dispatch_multi notify
  finishes p k quiet = rw quiet.returned refl

  finished-IsConsistent :
      (p : ℕ) (k : MrtKernel A)
      → EndsQuietly env p k
      → k.switching p ≡ true
      → is_queued (env.end_evt p) k.sim ≡ false
      → IsConsistent env k
      → IsConsistent env (finished p k)
  finished-IsConsistent p k quiet s free c =
      let after = scheduled p k in
      let world : MrtKernel A = record k { sim = after.sim; rest = after.rest } in
      let c1 : IsConsistent env world =
        moved env wired k c after.sim k.sched after.rest
          (λ q h. c.ends q (sym (quiet.flags q) ∙ h)) in
      let done = finish-IsConsistent env wired world c1 p s (quiet.flags p ∙ free) in
      let same : after ≡ set_curr_exe p (k.end_task p) world =
        ap (λ (u : MrtKernel A). record u { sim = after.sim; rest = after.rest }) quiet.members in
      same_sim (set_switching p false after) (record after.sched { curr_exe = k.end_task p })
        (subst (λ (u : MrtKernel A). IsConsistent env (set_switching p false u)) (sym same) done)

  drop_free :
      (p : ℕ) (k : MrtKernel A)
      → is_queued (env.end_evt p) (on_sim (drop (env.end_evt p)) k).1.sim ≡ false
  unfolding drop
  drop_free p k = ground arith

  pub on_end_dispatch_multi-IsConsistent :
      (p : ℕ) (k : MrtKernel A)
      → IsConsistent env k
      → is_queued (env.end_evt p) k.sim ≡ true
      → EndsQuietly env p (on_sim (drop (env.end_evt p)) k).1
      → IsConsistent env (on_end_dispatch_multi env p (on_sim (drop (env.end_evt p)) k).1).1
  on_end_dispatch_multi-IsConsistent p k c queued quiet =
      let k0 = (on_sim (drop (env.end_evt p)) k).1 in
      rw (finishes p k0 quiet) (
        finished-IsConsistent p k0 quiet (c.ends p queued) (drop_free p k)
          (drop_end env wired p k c))
