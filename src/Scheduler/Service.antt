-- ===== src/Scheduler/Service.antt =====
-- What a scheduler promises its kernel, and in which order each policy serves the ready tasks.
use partsim.Prelude.{
  ℕ, ◌^◌, ◌≤◌, ◌<◌, ◌≡◌, refl, true, false, not, ◌&&◌, ◌||◌, List, [], ◌∷◌, some, none, arith,
  Option-cases, inl, inr, ◌==◌,
}
use partsim.Prelude.Int.{ℤ, pos, ◌≤ℤ◌, ◌<ℤ◌}
use partsim.Prelude.Action.{Outcome, return, throw, task_not_found}
use partsim.Tick.{Tick, to_int32}
use partsim.PriorityList.{front, nth}
use partsim.PriorityList.Order.{contains}
use partsim.PriorityList.Elements.{front_least, front-contains}
use partsim.Scheduler.{
  Scheduler, TaskModel, RtTask, edf, rm, true_fifo, model_cmp, get_priority, rm_get_priority,
  before, find, model_of, insert_model, insert, extract_model, extract, get_first,
}
use partsim.Scheduler.Order.{IsValid, before-IsStrictWeak}
use partsim.Scheduler.Insert.{
  contains-insert_model, insert-IsValid, contains-extract, extract-IsValid,
}

module _ (task : ℕ → RtTask) (s : Scheduler) (t : ℕ) where
  abbrev pub InsertOutcome : Tick → Outcome (Unit {0}) × Scheduler → Type 0
  InsertOutcome now (throw x, s') = (x ≡ task_not_found) × (find t s ≡ none) × (s' ≡ s)
  InsertOutcome now (return _, s') =
      (m : ℕ) × (find t s ≡ some m)
      × IsValid task s'
      × ((z : ℕ) → contains z s'.queue ≡ ((z == m) || contains z s.queue))
      × ((s'.models m).insert_time ≡ to_int32 now)
      × ((s'.models m).active ≡ true)

  abbrev pub ExtractOutcome : Outcome (Unit {0}) × Scheduler → Type 0
  ExtractOutcome (throw x, s') = (x ≡ task_not_found) × (find t s ≡ none) × (s' ≡ s)
  ExtractOutcome (return _, s') =
      (m : ℕ) × (find t s ≡ some m)
      × IsValid task s'
      × ((z : ℕ) → contains z s'.queue ≡ (contains z s.queue && not (z == m)))
      × ((s'.models m).active ≡ false)

module _ (task : ℕ → RtTask) (s : Scheduler) (t : ℕ) where
  insert_unknown : (now : Tick) → find t s ≡ none → insert task now t s ≡ (throw task_not_found, s)
  unfolding insert
  insert_unknown now n = rw (n, model_of)

  pub insert_known :
      (now : Tick) (m : ℕ)
      → find t s ≡ some m
      → insert task now t s ≡ (return tt, insert_model task now m s)
  unfolding insert
  insert_known now m f = rw (f, model_of)

  extract_unknown : find t s ≡ none → extract task t s ≡ (throw task_not_found, s)
  unfolding extract
  extract_unknown n = rw (n, model_of)

  pub extract_known :
      (m : ℕ) → find t s ≡ some m → extract task t s ≡ (return tt, extract_model task m s)
  unfolding extract
  extract_known m f = rw (f, model_of)

-- `Scheduler::insert` on a well-formed scheduler, of a task whose model, if it has one, is not in
-- the ready queue: a task with no model throws and changes nothing; otherwise exactly that model
-- joins the queue, active and with the low 32 bits of the current time as its insertion time, and
-- the scheduler stays well formed.
pub insert-outcome :
    (task : ℕ → RtTask) (s : Scheduler) (v : IsValid task s) (now : Tick) (t : ℕ)
    → ((m : ℕ) → find t s ≡ some m → contains m s.queue ≡ false)
    → InsertOutcome task s t now (insert task now t s)
insert-outcome task s v now t unready = elim (Option-cases (find t s)) [
  | inl n ↦ rw (insert_unknown task s t now n) (refl, n, refl)
  | inr (m, f) ↦ rw (insert_known task s t now m f) (
    m,
    f,
    insert-IsValid task s v t m f now (unready m f),
    contains-insert_model task s v t m f now (unready m f),
    unfold insert_model in ground arith,
    unfold insert_model in ground arith,
  )
]

-- `Scheduler::extract` on a well-formed scheduler: a task with no model throws and changes nothing;
-- otherwise exactly its model leaves the ready queue, if it was there, and is inactive, and the
-- scheduler stays well formed.
pub extract-outcome :
    (task : ℕ → RtTask) (s : Scheduler) (v : IsValid task s) (t : ℕ)
    → ExtractOutcome task s t (extract task t s)
extract-outcome task s v t = elim (Option-cases (find t s)) [
  | inl n ↦ rw (extract_unknown task s t n) (refl, n, refl)
  | inr (m, f) ↦ rw (extract_known task s t m f) (
    m,
    f,
    extract-IsValid task s v t m f,
    contains-extract task s v t m f,
    unfold extract_model in ground arith,
  )
]

some-front :
    (q : List ℕ) (models : ℕ → TaskModel) (t : ℕ)
    → (elim (nth q 0) [ none ↦ none | some m ↦ some ((models m).rt_task) ]) ≡ some t
    → (m : ℕ) × (front q ≡ some m) × ((models m).rt_task ≡ t)
unfolding front
some-front [] models t h = absurd (cc)
some-front (m ∷ ms) models t h = (m, refl, ground arith)

-- The task that `get_first` answers, with the model that stands for it in the queue.
pub record First (task : ℕ → RtTask) (s : Scheduler) (t : ℕ) : Type 0 where
  pub model : ℕ
  pub queued : contains model s.queue ≡ true
  pub its_task : (s.models model).rt_task ≡ t
  pub least : (z : ℕ) → contains z s.queue ≡ true → before task s.models z model ≡ false

-- `getFirst` on a well-formed scheduler: the task that it answers is ready, and no ready task
-- precedes it in priority, insertion time and task number.
pub get_first-least :
    (task : ℕ → RtTask) (s : Scheduler) (t : ℕ)
    → IsValid task s
    → get_first s ≡ some t
    → First task s t
unfolding get_first
get_first-least task s t v h =
    let (m, f, e) = some-front s.queue s.models t h in
    record {
      model = m;
      queued = front-contains m s.queue f;
      its_task = e;
      least = λ z c.
          front_least (before task s.models) (before-IsStrictWeak task s.models) m z s.queue
            v.sorted f c;
    }

not_before-le :
    (task : ℕ → RtTask) (a b : TaskModel)
    → model_cmp task a b ≡ false
    → get_priority task b ≤ℤ get_priority task a
unfolding model_cmp
not_before-le task a b h = ground arith

-- Every model in the ready queue is one of EDF with no priority set from outside.
abbrev pub AllEdf : Scheduler → Type 0
AllEdf s = (m : ℕ) → contains m s.queue ≡ true → (prio : ℤ) × ((s.models m).policy ≡ edf false prio)

pub edf_priority :
    (task : ℕ → RtTask) (m : TaskModel)
    → ((prio : ℤ) × (m.policy ≡ edf false prio))
    → get_priority task m ≡ (task m.rt_task).deadline
unfolding get_priority
edf_priority task m (prio, e) = rw e

-- EDF: when no priority is set from outside, the task that `getFirst` answers has the earliest
-- deadline among the ready tasks.
pub edf-earliest :
    (task : ℕ → RtTask) (s : Scheduler) (t : ℕ)
    → IsValid task s
    → AllEdf s
    → get_first s ≡ some t
    → (z : ℕ) → contains z s.queue ≡ true
    → (task t).deadline ≤ℤ (task (s.models z).rt_task).deadline
edf-earliest task s t v all h z c =
    let first = get_first-least task s t v h in
    let le = not_before-le task (s.models z) (s.models first.model) (first.least z c) in
    rw
      (
        ← first.its_task,
        ← edf_priority task (s.models first.model) (all first.model first.queued),
        ← edf_priority task (s.models z) (all z c),
      )
      le

-- RM: two models as their constructor leaves them are served by insertion time, and among those by
-- task number, whatever the relative deadlines are that `RMModel::getPriority()` would give: that
-- method is not the one that the comparison calls.
pub rm-ignores_deadlines :
    (task : ℕ → RtTask) (a b : TaskModel)
    → a.policy ≡ rm false (pos 0)
    → b.policy ≡ rm false (pos 0)
    → a.insert_time <ℤ b.insert_time
    → (rm_get_priority task a ≡ (task a.rt_task).rel_dline)
      × (rm_get_priority task b ≡ (task b.rt_task).rel_dline)
      × (model_cmp task a b ≡ true)
      × (model_cmp task b a ≡ false)
unfolding rm_get_priority model_cmp get_priority
rm-ignores_deadlines task a b pa pb h = (rw pa, rw pb, ground arith, ground arith)

int32_wraps :
    (early late : ℕ)
    → early < 2 ^ 31
    → 2 ^ 31 ≤ late
    → late < 2 ^ 32
    → to_int32 (pos late) <ℤ to_int32 (pos early)
unfolding to_int32
int32_wraps early late h k l = ground arith

-- FIFO by insertion time breaks where the time no longer fits the `int` that keeps it: of two
-- models of TrueFIFO, the one inserted at 2^31 or later, and before 2^32, precedes one inserted
-- before 2^31.
pub true_fifo-wraps :
    (task : ℕ → RtTask) (a b : TaskModel) (early late : ℕ)
    → a.policy ≡ true_fifo
    → b.policy ≡ true_fifo
    → early < 2 ^ 31
    → 2 ^ 31 ≤ late
    → late < 2 ^ 32
    → a.insert_time ≡ to_int32 (pos early)
    → b.insert_time ≡ to_int32 (pos late)
    → (model_cmp task b a ≡ true) × (model_cmp task a b ≡ false)
unfolding model_cmp get_priority
true_fifo-wraps task a b early late pa pb h k l ea eb =
    let wrapped : b.insert_time <ℤ a.insert_time = rw (ea, eb) (int32_wraps early late h k l) in
    (ground arith, ground arith)
