-- ===== src/Kernel.antt =====
-- librtsim/kernel.cpp: the kernel of one processor. Its state is the global event queue, its
-- scheduler and the members of `RTKernel`; `rest` holds the tasks and the resource manager, whose
-- methods are the record `Machine`. The two dispatch events (librtsim/kernevt.cpp) are numbers.
-- Debug output, names and the processor, which `getProcessor` only hands on, are left out.
pub mod Dispatch
pub mod Locking
pub mod Handover
pub mod Examples
use Prim.Native.String.{String}
use partsim.Prelude.{
  ℕ, ◌≡◌, Bool, true, false, not, Option, none, some, List, [], ◌∷◌, ◌++◌, ◌==◌, if◌then◌else◌,
}
use partsim.Prelude.Int.{ℤ, pos, ◌+ℤ◌}
use partsim.Prelude.Action.{
  Action, Outcome, return, throw, get, modify, pure, raise, unless, on_part, ◌>>=◌, ◌>>◌,
  resource_manager_not_set, on_end_of_non_executing_task, null_dereference,
}
use partsim.Tick.{Tick}
use partsim.Event.{Sim, post, drop}
use partsim.Scheduler.{Scheduler, RtTask, insert, extract, get_first, notify, discard_tasks}

pub record RtKernel (A : Type 0) : Type 0 where
  pub sim : Sim
  pub sched : Scheduler
  pub curr_exe : Option ℕ
  pub handled : List ℕ
  pub is_context_switching : Bool
  pub context_switch_delay : Tick
  pub begin_dispatch_evt : ℕ
  pub end_dispatch_evt : ℕ
  pub has_cpu : Bool
  pub has_res_manager : Bool
  pub rest : A

-- `schedule` and `deschedule` of a task, what the scheduler asks of the tasks, and `request` and
-- `release` of the resource manager.
pub record Machine (A : Type 0) : Type 0 where
  pub schedule : ℕ → Action (RtKernel A) (Unit {0})
  pub deschedule : ℕ → Action (RtKernel A) (Unit {0})
  pub task : A → ℕ → RtTask
  pub res_request : ℕ → String → ℤ → Action (RtKernel A) Bool
  pub res_release : ℕ → String → ℤ → Action (RtKernel A) (Unit {0})

-- The comparison of two task pointers, either of which may be null.
abbrev pub same_task : Option ℕ → Option ℕ → Bool
same_task none none = true
same_task none (some u) = false
same_task (some t) none = false
same_task (some t) (some u) = t == u

module _ {A : Type 0} where
  abbrev pub on_sim : {B : Type 0} → Action Sim B → Action (RtKernel A) B
  on_sim m = on_part (λ k. k.sim) (λ s k. record k { sim = s }) m

  abbrev pub on_sched : {B : Type 0} → Action Scheduler B → Action (RtKernel A) B
  on_sched m = on_part (λ k. k.sched) (λ s k. record k { sched = s }) m

  abbrev pub set_curr_exe : Option ℕ → Action (RtKernel A) (Unit {0})
  set_curr_exe t = modify (λ k. record k { curr_exe = t })

  unfoldable pub dispatch : Action (RtKernel A) (Unit {0})
  dispatch k =
      (on_sim (drop k.begin_dispatch_evt)
          >> on_sim (post k.begin_dispatch_evt k.sim.glob_time false))
        k

  unfoldable pub kernel_discard_tasks : Bool → Action (RtKernel A) (Unit {0})
  kernel_discard_tasks f = on_sched (discard_tasks f) >> modify (λ k. record k { handled = [] })

  -- `newRun` and `endRun`
  unfoldable pub kernel_new_run : Action (RtKernel A) (Unit {0})
  kernel_new_run = set_curr_exe none

module _ {A : Type 0} (env : Machine A) where
  abbrev pub sched_insert : ℕ → Action (RtKernel A) (Unit {0})
  sched_insert t k = on_sched (insert (env.task k.rest) k.sim.glob_time t) k

  abbrev pub sched_extract : ℕ → Action (RtKernel A) (Unit {0})
  sched_extract t k = on_sched (extract (env.task k.rest) t) k

  unfoldable pub activate : ℕ → Action (RtKernel A) (Unit {0})
  activate t = sched_insert t

  unfoldable pub suspend : ℕ → Action (RtKernel A) (Unit {0})
  suspend t = do
    sched_extract t
    k ← get
    if same_task k.curr_exe (some t) then (env.deschedule t >> set_curr_exe none) else pure tt

  unfoldable pub on_arrival : ℕ → Action (RtKernel A) (Unit {0})
  unfolding dispatch
  on_arrival t = sched_insert t >> dispatch

  -- `getProcessor` answers the same processor for every task.
  unfoldable pub on_end : ℕ → Action (RtKernel A) (Unit {0})
  unfolding dispatch
  on_end t = do
    k ← get
    unless k.has_cpu on_end_of_non_executing_task
    sched_extract t
    modify (λ k. if same_task k.curr_exe (some t) then record k { curr_exe = none } else k)
    dispatch

  abbrev pub deschedule_if_any : Option ℕ → Action (RtKernel A) (Unit {0})
  deschedule_if_any none = pure tt
  deschedule_if_any (some t) = env.deschedule t

  -- The switch to a task that is not null.
  abbrev pub begin_switch : Option ℕ → Action (RtKernel A) (Unit {0})
  begin_switch none k = (return tt, k)
  begin_switch (some t) k =
      on_sim (post k.end_dispatch_evt (k.sim.glob_time +ℤ k.context_switch_delay) false)
        (record k { is_context_switching = true; curr_exe = some t })

  unfoldable pub on_begin_dispatch : Action (RtKernel A) (Unit {0})
  on_begin_dispatch k =
      let new_exe = get_first k.sched in
      if same_task k.curr_exe new_exe
      then on_sched (notify new_exe) k
      else (deschedule_if_any k.curr_exe >> begin_switch new_exe) k

  unfoldable pub on_end_dispatch : Action (RtKernel A) (Unit {0})
  on_end_dispatch k = elim k.curr_exe [
    | none ↦ (throw null_dereference, k)
    | some t ↦
        (env.schedule t
            >> modify (λ k. record k { is_context_switching = false })
            >> (λ k. on_sched (notify k.curr_exe) k))
          k
  ]

  -- `AbsKernel::requestResource` and `releaseResource`
  unfoldable pub request_resource : ℕ → String → ℤ → Action (RtKernel A) Bool
  unfolding dispatch
  request_resource t r n = do
    k ← get
    unless k.has_res_manager resource_manager_not_set
    ret ← env.res_request t r n
    if ret then pure tt else dispatch
    pure ret

  unfoldable pub release_resource : ℕ → String → ℤ → Action (RtKernel A) (Unit {0})
  unfolding dispatch
  release_resource t r n = do
    k ← get
    unless k.has_res_manager resource_manager_not_set
    env.res_release t r n
    dispatch
