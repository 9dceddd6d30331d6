-- ===== src/Scheduler.antt =====
-- librtsim/scheduler/scheduler.cpp with its header, and the task models of the policies EDF, FP,
-- RM, FIFO, TrueFIFO and RR (edfsched, fpsched, rmsched, fifosched, truefifo, rrsched). An
-- `AbsRTTask *` and a `TaskModel *` are numbers; `RtTask` is what the virtual methods of a task
-- answer when they are called. Debug output and `toString` are left out.
pub mod Model
pub mod Order
pub mod Insert
pub mod Service
pub mod Examples
unfoldable pub use Model.*
use partsim.Prelude.{
  ℕ, ◌≡◌, Bool, true, false, ◌||◌, Option, none, some, List, [], ◌∷◌, ◌++◌, ◌==◌, if◌then◌else◌,
}
use partsim.Prelude.Int.{ℤ}
use partsim.Prelude.Action.{
  Action, Outcome, return, throw, get, modify, pure, raise, unless, ◌>>=◌, ◌>>◌, task_not_found,
  element_already_present,
}
use partsim.Tick.{Tick, to_int32}
use partsim.PriorityList.{insert as set_insert, erase, nth}

pub record Scheduler : Type 0 where
  pub models : ℕ → TaskModel
  pub queue : List ℕ
  pub tasks : List (ℕ × ℕ)
  pub curr_exe : Option ℕ

-- `_tasks.find(task)`
abbrev pub lookup : ℕ → List (ℕ × ℕ) → Option ℕ
lookup t [] = none
lookup t ((k, m) ∷ rest) = if k == t then some m else lookup t rest

abbrev pub find : ℕ → Scheduler → Option ℕ
find t s = lookup t s.tasks

abbrev pub store : ℕ → TaskModel → Scheduler → Scheduler
store m x s = record s { models = λ j. if j == m then x else s.models j }

-- `find` followed by the test for the null pointer.
abbrev pub model_of : ℕ → Action Scheduler ℕ
model_of t s = elim (find t s) [ none ↦ (throw task_not_found, s) | some m ↦ (return m, s) ]

-- `enqueueModel`, of a model that was just constructed at the address `m`.
unfoldable pub enqueue_model : ℕ → TaskModel → Action Scheduler (Unit {0})
enqueue_model m x s = elim (find x.rt_task s) [
  | some _ ↦ (throw element_already_present, s)
  | none ↦ (return tt, record (store m x s) { tasks = (x.rt_task, m) ∷ s.tasks })
]

module _ (task : ℕ → RtTask) where
  -- `TaskModelCmp` on the pointers in the queue.
  abbrev pub before : (ℕ → TaskModel) → ℕ → ℕ → Bool
  before models a b = model_cmp task (models a) (models b)

  -- `insert` at the time `now`, of the model that `find` gave.
  unfoldable pub insert_model : Tick → ℕ → Scheduler → Scheduler
  insert_model now m s =
      let s' = store m (record (s.models m) { insert_time = to_int32 now; active = true }) s in
      record s' { queue = (set_insert (before s'.models) m s.queue).0 }

  unfoldable pub insert : Tick → ℕ → Action Scheduler (Unit {0})
  unfolding insert_model
  insert now t = do m ← model_of t; modify (insert_model now m)

  unfoldable pub extract_model : ℕ → Scheduler → Scheduler
  extract_model m s =
      store m (record (s.models m) { active = false })
        (record s { queue = erase (before s.models) m s.queue })

  unfoldable pub extract : ℕ → Action Scheduler (Unit {0})
  unfolding extract_model
  extract t = do m ← model_of t; modify (extract_model m)

  -- `int Scheduler::getPriority`: the tick is cut to an `int`.
  unfoldable pub task_priority : ℕ → Action Scheduler ℤ
  task_priority t = do m ← model_of t; s ← get; pure (to_int32 (get_priority task (s.models m)))

-- `discardTasks`: whether the models are freed shows nowhere in the scheduler.
unfoldable pub discard_tasks : Bool → Action Scheduler (Unit {0})
discard_tasks f = modify (λ s. record s { queue = []; tasks = [] })

unfoldable pub get_task_n : ℕ → Scheduler → Option ℕ
get_task_n n s = elim (nth s.queue n) [ none ↦ none | some m ↦ some ((s.models m).rt_task) ]

unfoldable pub get_first : Scheduler → Option ℕ
unfolding get_task_n
get_first s = get_task_n 0 s

unfoldable pub is_found : ℕ → Scheduler → Bool
is_found t s = elim (find t s) [ none ↦ false | some _ ↦ true ]

abbrev pub any_task : (ℕ → TaskModel) → ℕ → List ℕ → Bool
any_task models t [] = false
any_task models t (m ∷ ms) = ((models m).rt_task == t) || any_task models t ms

unfoldable pub is_in_queue : ℕ → Scheduler → Bool
is_in_queue t s = any_task s.models t s.queue

unfoldable pub notify : Option ℕ → Action Scheduler (Unit {0})
notify t = modify (λ s. record s { curr_exe = t })

-- `for (auto [task, model] : _tasks) model->setInactive();`
abbrev pub set_inactive : List (ℕ × ℕ) → (ℕ → TaskModel) → ℕ → TaskModel
set_inactive [] models = models
set_inactive ((t, m) ∷ rest) models =
    set_inactive rest (λ j. if j == m then record (models m) { active = false } else models j)

unfoldable pub new_run : Action Scheduler (Unit {0})
new_run = modify (λ s. record s { queue = []; models = set_inactive s.tasks s.models })
