-- ===== src/MrtKernel/NewRun.antt =====
-- A new run after one that ended within a context switch.
use partsim.Prelude.{
  ℕ, ◌≡◌, ◌≢◌, refl, sym, subst, ◌∙◌, true, false, Option, none, some, List, [], ◌∷◌, ◌==◌, ==_iff,
  arith, Bool-cases, inl, inr,
}
use partsim.Prelude.Int.{◌≤ℤ◌}
use partsim.Prelude.Action.{Action, return, modify, ◌>>◌, ◌>>=◌, >>=_keeps}
use partsim.Tick.{Tick, max_tick}
use partsim.Event.{Sim, drop}
use partsim.Event.Order.{IsValid}
use partsim.Event.Post.{post_lem, posted}
use partsim.Event.Drop.{dropped, dropped-IsValid}
use partsim.MrtKernel.{
  MrtKernel, Machine, on_sim, set_curr_exe, sched_extract, cancel_switch, dispatch_on,
  postpone_dispatch, empty_cpu, empty_cpus, new_run,
}
use partsim.MrtKernel.Invariant.{IsWired, is_queued}

-- The event queue and the marks of the switches are what they were.
abbrev IsKept : {A : Type 0} → MrtKernel A → MrtKernel A → Type 0
IsKept k k' = (k'.sim ≡ k.sim) × (k'.switching ≡ k.switching)

module _ {A : Type 0} (env : Machine A) where
  empty_cpu-IsKept :
      (k0 : MrtKernel A) (p : ℕ) (k : MrtKernel A) → IsKept k0 k → IsKept k0 (empty_cpu env p k).1
  empty_cpu-IsKept k0 p k h = by_task (k.curr_exe p)
    where
      by_task :
          (o : Option ℕ)
          → IsKept k0 (
              (elim o as (λ _. partsim.Prelude.Action.Outcome (Unit {0}) × MrtKernel A) [
                | none ↦ (return tt, k)
                | some t ↦ (sched_extract env t >> modify (set_curr_exe p none)) k
              ]).1)
      by_task none = h
      by_task (some t) =
          >>=_keeps (IsKept k0) (sched_extract env t) (λ _. modify (set_curr_exe p none)) k h
            (λ _. h)

  empty_cpus-IsKept :
      (k0 : MrtKernel A) (ps : List ℕ) (k : MrtKernel A)
      → IsKept k0 k
      → IsKept k0 (empty_cpus env ps k).1
  empty_cpus-IsKept k0 [] k h = h
  empty_cpus-IsKept k0 (p ∷ ps) k h =
      let first = empty_cpu-IsKept k0 p k h in
      >>=_keeps (IsKept k0) (empty_cpu env p) (λ _. empty_cpus env ps) k first
        (λ _. empty_cpus-IsKept k0 ps (empty_cpu env p k).1 first)

  new_run-IsKept : (k : MrtKernel A) → IsKept k (new_run env k).1
  unfolding new_run
  new_run-IsKept k =
      let emptied = empty_cpus-IsKept k k.cpus k (refl, refl) in
      >>=_keeps (IsKept k) (empty_cpus env k.cpus) _ k emptied (λ _. emptied)

module _ {A : Type 0} (env : Machine A) (wired : IsWired env) (p : ℕ) where
  cancelled_sim : (k : MrtKernel A) → (cancel_switch p k).sim ≡ k.sim
  cancelled_sim k = same (k.end_task p)
    where
      same :
          (o : Option ℕ)
          → (elim o as (λ _. MrtKernel A) [
            | none ↦ k
            | some t ↦
                partsim.MrtKernel.clear_dispatched t (partsim.MrtKernel.set_end_task p none k)
          ]).sim
            ≡ k.sim
      same none = refl
      same (some t) = refl

  -- The dispatch waits for the time `t` of the end of the switch.
  abbrev waits : Tick → Sim → Sim
  waits t s =
      dropped (env.end_evt p) (posted (env.begin_evt p) t false (dropped (env.begin_evt p) s))

  end_time_kept :
      (s : Sim)
      → ((dropped (env.begin_evt p) s).events (env.end_evt p)).time
        ≡ (s.events (env.end_evt p)).time
  end_time_kept s = let other = wired.apart p p in ground arith

  postpone_sim :
      (k : MrtKernel A)
      → IsValid k.sim
      → k.switching p ≡ true
      → k.sim.glob_time ≤ℤ (k.sim.events (env.end_evt p)).time
      → (k.sim.events (env.end_evt p)).time ≢ max_tick
      → ((dispatch_on env p k).0 ≡ return tt)
        × ((dispatch_on env p k).1.sim ≡ waits (k.sim.events (env.end_evt p)).time k.sim)
  unfolding dispatch_on drop
  postpone_sim k v s ahead far =
      let e = env.begin_evt p in
      let t = (k.sim.events (env.end_evt p)).time in
      let free : is_queued e (dropped e k.sim) ≡ false = ground arith in
      rw
        (
          s,
          end_time_kept k.sim,
          post_lem e t false (dropped e k.sim) (dropped-IsValid e k.sim v) free ahead far,
        )
        (refl, cancelled_sim (record k { sim = waits t k.sim }))

-- A run that ended while a context switch was under way on a processor, whose end was to come at
-- `t`, and a dispatch on it in the new run, in a well-formed event queue whose clock is not after
-- `t`: `newRun` leaves the mark of the switch, so the dispatch returns and begins only at `t`.
pub new_run-keeps_switch :
    {A : Type 0} (env : Machine A) (p : ℕ) (k : MrtKernel A)
    → IsWired env
    → IsValid k.sim
    → k.switching p ≡ true
    → k.sim.glob_time ≤ℤ (k.sim.events (env.end_evt p)).time
    → (k.sim.events (env.end_evt p)).time ≢ max_tick
    → ((dispatch_on env p (new_run env k).1).0 ≡ return tt)
      × (is_queued (env.begin_evt p) (dispatch_on env p (new_run env k).1).1.sim ≡ true)
      × (((dispatch_on env p (new_run env k).1).1.sim.events (env.begin_evt p)).time
          ≡ (k.sim.events (env.end_evt p)).time)
new_run-keeps_switch env p k wired v s ahead far =
    let k' = (new_run env k).1 in
    let (same_sim, same_marks) = new_run-IsKept env k in
    let other = wired.apart p p in
    let (returns, later) =
      postpone_sim env wired p k' (rw same_sim v) (rw same_marks s) (rw same_sim ahead)
        (rw same_sim far) in
    (returns, rw later (ground arith), rw (later, same_sim) (ground arith))
