-- ===== src/MrtKernel/State.antt =====
-- The members of `MRTKernel`, and what only reads them.
use partsim.Prelude.{
  ℕ, zero, suc, ◌+◌, Bool, true, false, not, ◌&&◌, Option, none, some, List, [], ◌∷◌, ◌==◌,
  if◌then◌else◌, ltb,
}
use partsim.Prelude.Int.{pos}
use partsim.Prelude.Action.{Action, on_part}
use partsim.Tick.{Tick}
use partsim.Event.{Sim, new_event}
use partsim.Scheduler.{Scheduler, RtTask, get_task_n}
use partsim.Kernel.{same_task}
use partsim.PriorityList.{insert as set_insert}

pub record MrtKernel (A : Type 0) : Type 0 where
  pub sim : Sim
  pub sched : Scheduler
  pub cpus : List ℕ
  pub curr_exe : ℕ → Option ℕ
  pub old_exe : ℕ → Option ℕ
  pub dispatched : List (ℕ × ℕ)
  pub switching : ℕ → Bool
  pub end_task : ℕ → Option ℕ
  pub context_switch_delay : Tick
  pub migration_delay : Tick
  pub rest : A

-- `schedule` of a task, which may call the kernel back (an instruction that waits for a resource or
-- releases it), `deschedule`, which does not, what the scheduler asks of the tasks, and the two
-- events that `addCPU` makes for a processor.
pub record Machine (A : Type 0) : Type 0 where
  pub schedule : ℕ → Action (MrtKernel A) (Unit {0})
  pub deschedule : ℕ → Action (Sim × A) (Unit {0})
  pub task : A → ℕ → RtTask
  pub begin_evt : ℕ → ℕ
  pub end_evt : ℕ → ℕ

-- The map `_m_dispatched`, without its null entries.
abbrev pub lookup_cpu : ℕ → List (ℕ × ℕ) → Option ℕ
lookup_cpu t [] = none
lookup_cpu t ((u, p) ∷ rest) = if u == t then some p else lookup_cpu t rest

abbrev pub remove_task : ℕ → List (ℕ × ℕ) → List (ℕ × ℕ)
remove_task t [] = []
remove_task t ((u, p) ∷ rest) =
    let others = remove_task t rest in if u == t then others else (u, p) ∷ others

-- The loop of `isDispatched`.
abbrev pub any_on : ℕ → List (ℕ × ℕ) → Bool
any_on p [] = false
any_on p ((t, q) ∷ rest) = if q == p then true else any_on p rest

abbrev pub is_null : Option ℕ → Bool
is_null none = true
is_null (some t) = false

abbrev pub migrates : ℕ → Option ℕ → Bool
migrates p none = false
migrates p (some q) = not (q == p)

abbrev pub update {ℓ} : {B : Type ℓ} → ℕ → B → (ℕ → B) → ℕ → B
update i b f j = if j == i then b else f j

module _ {A : Type 0} where
  abbrev pub on_sim : {B : Type 0} → Action Sim B → Action (MrtKernel A) B
  on_sim m = on_part (λ k. k.sim) (λ s k. record k { sim = s }) m

  abbrev pub on_sched : {B : Type 0} → Action Scheduler B → Action (MrtKernel A) B
  on_sched m = on_part (λ k. k.sched) (λ s k. record k { sched = s }) m

  abbrev pub on_tasks : {B : Type 0} → Action (Sim × A) B → Action (MrtKernel A) B
  on_tasks m = on_part (λ k. (k.sim, k.rest)) (λ s k. record k { sim = s.0; rest = s.1 }) m

  abbrev pub set_curr_exe : ℕ → Option ℕ → MrtKernel A → MrtKernel A
  set_curr_exe p t k = record k { curr_exe = update p t k.curr_exe }

  abbrev pub set_old_exe : ℕ → ℕ → MrtKernel A → MrtKernel A
  set_old_exe t p k = record k { old_exe = update t (some p) k.old_exe }

  abbrev pub set_end_task : ℕ → Option ℕ → MrtKernel A → MrtKernel A
  set_end_task p t k = record k { end_task = update p t k.end_task }

  abbrev pub set_switching : ℕ → Bool → MrtKernel A → MrtKernel A
  set_switching p b k = record k { switching = update p b k.switching }

  abbrev pub clear_dispatched : ℕ → MrtKernel A → MrtKernel A
  clear_dispatched t k = record k { dispatched = remove_task t k.dispatched }

  abbrev pub set_dispatched : ℕ → ℕ → MrtKernel A → MrtKernel A
  set_dispatched t p k = record k { dispatched = (t, p) ∷ remove_task t k.dispatched }

  -- `_m_dispatched[t]`
  abbrev pub where_dispatched : ℕ → MrtKernel A → Option ℕ
  where_dispatched t k = lookup_cpu t k.dispatched

  -- The context switch to a task that is under way is cancelled.
  abbrev pub cancel_switch : ℕ → MrtKernel A → MrtKernel A
  cancel_switch p k = elim (k.end_task p) [
    | none ↦ k
    | some t ↦ clear_dispatched t (set_end_task p none k)
  ]

  -- The processor `p` is free of the task `t` that it executed.
  abbrev pub leave_cpu : ℕ → ℕ → MrtKernel A → MrtKernel A
  leave_cpu p t k = clear_dispatched t (set_old_exe t p (set_curr_exe p none k))

  -- `_endEvt[p]->setTask(st)` and what goes with it.
  abbrev pub start_switch : ℕ → Option ℕ → MrtKernel A → MrtKernel A
  start_switch p none k = set_switching p true (set_end_task p none k)
  start_switch p (some t) k = set_switching p true (set_end_task p (some t) (set_dispatched t p k))

  -- The loop of `getProcessor`, in which the last match counts.
  unfoldable pub find_processor : ℕ → MrtKernel A → List ℕ → Option ℕ → Option ℕ
  find_processor t k [] ret = ret
  find_processor t k (p ∷ ps) ret =
      let found = find_processor t k ps (some p) in
      let kept = find_processor t k ps ret in
      if same_task (k.curr_exe p) (some t) then found else kept

  unfoldable pub get_processor : ℕ → MrtKernel A → Option ℕ
  unfolding find_processor
  get_processor t k = find_processor t k k.cpus none

  unfoldable pub is_dispatched : ℕ → MrtKernel A → Bool
  is_dispatched p k = any_on p k.dispatched

  -- `getNextFreeProc`: the processors from the one it finds on.
  unfoldable pub next_free_proc : MrtKernel A → List ℕ → List ℕ
  unfolding is_dispatched
  next_free_proc k [] = []
  next_free_proc k (p ∷ ps) =
      let rest = next_free_proc k ps in
      if is_null (k.curr_exe p) && not (is_dispatched p k) then p ∷ ps else rest

  unfoldable pub is_new : MrtKernel A → ℕ → Bool
  unfolding get_processor
  is_new k t = is_null (get_processor t k) && is_null (where_dispatched t k)

  -- The first loop of `dispatch()`, with `n` positions left.
  unfoldable pub count_new : MrtKernel A → (n i : ℕ) → ℕ
  unfolding is_new
  count_new k zero i = 0
  count_new k (suc n) i =
      let rest = count_new k n (suc i) in
      elim (get_task_n i k.sched) [ none ↦ 0 | some t ↦ if is_new k t then rest + 1 else rest ]

  -- The loop of `onBeginDispatchMulti`; the fuel covers the ready queue.
  unfoldable pub first_not_dispatched : (fuel i : ℕ) → MrtKernel A → Option ℕ
  first_not_dispatched zero i k = none
  first_not_dispatched (suc fuel) i k =
      let further = first_not_dispatched fuel (suc i) k in
      elim (get_task_n i k.sched) [
        | none ↦ none
        | some t ↦ if is_null (where_dispatched t k) then some t else further
      ]

  -- `addCPU`: the map keeps its processors in order, and the two events are new.
  unfoldable pub add_cpu : Machine A → ℕ → MrtKernel A → MrtKernel A
  add_cpu env p k = record k {
    cpus = (set_insert ltb p k.cpus).0;
    curr_exe = update p none k.curr_exe;
    switching = update p false k.switching;
    end_task = update p none k.end_task;
    sim = record k.sim {
      events =
          update (env.end_evt p) (new_event (pos 18))
            (update (env.begin_evt p) (new_event (pos 18)) k.sim.events);
    };
  }
