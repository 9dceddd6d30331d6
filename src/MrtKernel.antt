-- ===== src/MrtKernel.antt =====
-- librtsim/mrtkernel.cpp: the kernel of several processors with one ready queue. A `CPU *` is a
-- number and a map over the processors a function, with the list of the processors that it has, in
-- its order. In `_m_dispatched` a task that is missing stands for one with the null pointer: the
-- code tells them apart nowhere. `rest` holds the tasks, whose methods are the record `Machine`.
-- Debug output and names are left out.
pub mod State
pub mod Invariant
pub mod Placement
pub mod Handlers
pub mod Reach
pub mod Choice
pub mod Begin
pub mod GlobalEdf
pub mod NewRun
pub mod Examples
unfoldable pub use State.*
use partsim.Prelude.{
  ℕ, zero, suc, ◌+◌, ◌≡◌, Bool, true, false, not, ◌&&◌, Option, none, some, List, [], ◌∷◌, ◌==◌,
  if◌then◌else◌, length,
}
use partsim.Prelude.Int.{ℤ, pos, ◌+ℤ◌}
use partsim.Prelude.Action.{
  Action, Outcome, return, throw, get, modify, pure, raise, unless, on_part, ◌>>=◌, ◌>>◌,
  on_end_of_non_executing_task, not_enough_tasks_to_deschedule, out_of_fuel,
}
use partsim.Tick.{Tick}
use partsim.Event.{Sim, post, drop}
use partsim.Scheduler.{insert, extract, get_task_n, notify}

module _ {A : Type 0} (env : Machine A) where
  abbrev pub sched_insert : ℕ → Action (MrtKernel A) (Unit {0})
  sched_insert t k = on_sched (insert (env.task k.rest) k.sim.glob_time t) k

  abbrev pub sched_extract : ℕ → Action (MrtKernel A) (Unit {0})
  sched_extract t k = on_sched (extract (env.task k.rest) t) k

  -- The begin of a dispatch waits for the end of the switch that is under way.
  abbrev pub postpone_dispatch : ℕ → MrtKernel A → Action (MrtKernel A) (Unit {0})
  postpone_dispatch p k = do
    on_sim (post (env.begin_evt p) (k.sim.events (env.end_evt p)).time false)
    on_sim (drop (env.end_evt p))
    modify (cancel_switch p)

  -- `dispatch(CPU *)`
  unfoldable pub dispatch_on : ℕ → Action (MrtKernel A) (Unit {0})
  dispatch_on p = do
    on_sim (drop (env.begin_evt p))
    k ← get
    if k.switching p
        then postpone_dispatch p k
        else on_sim (post (env.begin_evt p) k.sim.glob_time false)

  -- The inner loop: the next dispatched task from the position `i` on makes room. It answers the
  -- position after it.
  unfoldable pub evict : (fuel i : ℕ) → Action (MrtKernel A) ℕ
  unfolding dispatch_on
  evict zero i k = (throw out_of_fuel, k)
  evict (suc fuel) i k =
      let further = evict fuel (suc i) k in
      elim (get_task_n i k.sched) [
        | none ↦ (throw not_enough_tasks_to_deschedule, k)
        | some t ↦ elim (where_dispatched t k) [
          | none ↦ further
          | some p ↦ (dispatch_on p >> pure (suc i)) k
        ]
      ]

  -- The outer loop, for `num_newtasks` tasks, with the processors from the iterator `f` on.
  unfoldable pub place : (num_newtasks : ℕ) → List ℕ → (i : ℕ) → Action (MrtKernel A) (Unit {0})
  unfolding dispatch_on evict
  place zero f i k = (return tt, k)
  place (suc n) f i k = elim (next_free_proc k f) [
    | [] ↦ (evict (length k.sched.queue + 1) i >>= place n []) k
    | p ∷ ps ↦ (dispatch_on p >> place n ps i) k
  ]

  -- `dispatch()`
  unfoldable pub dispatch : Action (MrtKernel A) (Unit {0})
  unfolding place
  dispatch k = let ncpu = length k.cpus in place (count_new k ncpu 0) k.cpus ncpu k

  unfoldable pub on_arrival : ℕ → Action (MrtKernel A) (Unit {0})
  unfolding dispatch
  on_arrival t = sched_insert t >> dispatch

  -- The task is taken off the processor on which it executes, if there is one.
  abbrev pub suspend_on : ℕ → Option ℕ → Action (MrtKernel A) (Unit {0})
  suspend_on t none = pure tt
  suspend_on t (some p) = do on_tasks (env.deschedule t); modify (leave_cpu p t); dispatch_on p

  unfoldable pub suspend : ℕ → Action (MrtKernel A) (Unit {0})
  unfolding dispatch_on
  suspend t = do sched_extract t; k ← get; suspend_on t (get_processor t k)

  abbrev pub end_on : ℕ → Option ℕ → Action (MrtKernel A) (Unit {0})
  end_on t none = raise on_end_of_non_executing_task
  end_on t (some p) = do sched_extract t; modify (leave_cpu p t); dispatch_on p

  unfoldable pub on_end : ℕ → Action (MrtKernel A) (Unit {0})
  unfolding dispatch_on
  on_end t k = end_on t (get_processor t k) k

  -- The task on the processor, if there is one, leaves it.
  abbrev pub vacate : ℕ → Option ℕ → Action (MrtKernel A) (Unit {0})
  vacate p none = pure tt
  vacate p (some t) = modify (leave_cpu p t) >> on_tasks (env.deschedule t)

  abbrev pub overhead : ℕ → Option ℕ → MrtKernel A → Tick
  overhead p none k = k.context_switch_delay
  overhead p (some t) k =
      if migrates p (k.old_exe t)
      then k.context_switch_delay +ℤ k.migration_delay
      else k.context_switch_delay

  -- The rest of `onBeginDispatchMulti`, to the task `st`.
  abbrev pub switch_multi : ℕ → Option ℕ → Action (MrtKernel A) (Unit {0})
  switch_multi p st k =
      (modify (start_switch p st)
          >> on_sim (post (env.end_evt p) (k.sim.glob_time +ℤ overhead p st k) false))
        k

  abbrev pub begin_multi : ℕ → Action (MrtKernel A) (Unit {0})
  begin_multi p k = switch_multi p (first_not_dispatched (length k.sched.queue + 1) 0 k) k

  -- `onBeginDispatchMulti`
  unfoldable pub on_begin_dispatch_multi : ℕ → Action (MrtKernel A) (Unit {0})
  on_begin_dispatch_multi p k = (vacate p (k.curr_exe p) >> begin_multi p) k

  abbrev pub schedule_if_any : Option ℕ → Action (MrtKernel A) (Unit {0})
  schedule_if_any none = pure tt
  schedule_if_any (some t) = env.schedule t

  -- `onEndDispatchMulti`
  unfoldable pub on_end_dispatch_multi : ℕ → Action (MrtKernel A) (Unit {0})
  on_end_dispatch_multi p k =
      (modify (set_curr_exe p (k.end_task p))
          >> schedule_if_any (k.end_task p)
          >> modify (set_switching p false)
          >> on_sched (notify (k.end_task p)))
        k

  -- One turn of the loops of `newRun` and `endRun`.
  abbrev pub empty_cpu : ℕ → Action (MrtKernel A) (Unit {0})
  empty_cpu p k = elim (k.curr_exe p) [
    | none ↦ (return tt, k)
    | some t ↦ (sched_extract t >> modify (set_curr_exe p none)) k
  ]

  abbrev pub empty_cpus : List ℕ → Action (MrtKernel A) (Unit {0})
  empty_cpus [] = pure tt
  empty_cpus (p ∷ ps) = empty_cpu p >> empty_cpus ps

  unfoldable pub new_run : Action (MrtKernel A) (Unit {0})
  new_run = do
    k ← get
    empty_cpus k.cpus
    modify (λ k. record k { dispatched = []; old_exe = λ _. none })

  unfoldable pub end_run : Action (MrtKernel A) (Unit {0})
  end_run = do k ← get; empty_cpus k.cpus
