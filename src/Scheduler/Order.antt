-- ===== src/Scheduler/Order.antt =====
-- `TaskModelCmp` is a strict weak order, and the well-formedness of the ready queue.
use partsim.Prelude.{
  ℕ, ◌≡◌, subst, fun_ext, true, false, some, arith, ◌⊎◌, inl, inr, Bool, Bool-cases, if◌then◌else◌,
}
use partsim.Prelude.Int.{ℤ, ltb_ℤ, eq_of_parts}
use partsim.PriorityList.Order.{IsStrictWeak, IsSorted, contains}
use partsim.Event.{Event, cmp, less, new_event}
use partsim.Event.Order.{less-IsStrictWeak}
use partsim.Scheduler.{Scheduler, TaskModel, RtTask, model_cmp, get_priority, before, find}

-- Two orders, the second where the first decides nothing.
abbrev by_both : (ℕ → ℕ → Bool) → (ℕ → ℕ → Bool) → ℕ → ℕ → Bool
by_both less under a b = if less a b then true else if less b a then false else under a b

module _ (less under : ℕ → ℕ → Bool) (o : IsStrictWeak less) (u : IsStrictWeak under) where
  by_both_irrefl : (a : ℕ) → by_both less under a a ≡ false
  by_both_irrefl a = ground (arith, u.irrefl a, o.irrefl a)

  by_both_trans :
      (a b c : ℕ)
      → by_both less under a b ≡ true
      → by_both less under b c ≡ true
      → by_both less under a c ≡ true
  by_both_trans a b c h k = ground (
    arith,
    o.trans a b c,
    o.trans c a b,
    o.trans b c a,
    o.weak b c a,
    o.weak a b c,
    o.weak b a c,
    o.weak c a b,
    o.weak c b a,
    o.weak a c b,
    o.irrefl a,
    u.trans a b c,
  )

  by_both_weak :
      (a b c : ℕ)
      → by_both less under a c ≡ true
      → (by_both less under a b ≡ true) ⊎ (by_both less under b c ≡ true)
  by_both_weak a b c h = elim (Bool-cases (by_both less under a b)) [
    | inl p ↦ inl p
    | inr p ↦ inr (
        ground (
          arith,
          o.trans b a c,
          o.trans b c a,
          o.trans c b a,
          o.trans a c b,
          o.trans c a b,
          o.weak a c b,
          o.weak a b c,
          o.weak c b a,
          o.weak c a b,
          o.weak b a c,
          o.weak b c a,
          u.weak a b c,
        ))
  ]

  by_both-IsStrictWeak : IsStrictWeak (by_both less under)
  by_both-IsStrictWeak = record {
    irrefl = by_both_irrefl;
    trans = by_both_trans;
    weak = by_both_weak;
  }

module _ (task : ℕ → RtTask) where
  -- Priority and insertion time, in the places of an event's key.
  abbrev key : TaskModel → Event
  key m = record (new_event m.insert_time) {
    time = get_priority task m;
    priority = m.insert_time;
    order = 0;
  }

  abbrev number : TaskModel → ℤ
  number m = (task m.rt_task).task_number

  by_number :
      (models : ℕ → TaskModel) → IsStrictWeak (λ a b. ltb_ℤ (number (models a)) (number (models b)))
  by_number models = record {
    irrefl = λ a. ground arith;
    trans = λ a b c h k. ground arith;
    weak = λ a b c h. elim (Bool-cases (ltb_ℤ (number (models a)) (number (models b)))) [
      | inl p ↦ inl p
      | inr p ↦ inr (ground arith)
    ];
  }

  model_cmp-cmp :
      (a b : TaskModel)
      → (if cmp (key a) (key b)
          then true
          else if cmp (key b) (key a)
          then false
          else ltb_ℤ (number a) (number b))
        ≡ model_cmp task a b
  unfolding cmp model_cmp
  model_cmp-cmp a b = ground arith

  pub before-IsStrictWeak : (models : ℕ → TaskModel) → IsStrictWeak (before task models)
  before-IsStrictWeak models =
      subst IsStrictWeak (fun_ext (λ a. fun_ext (λ b. model_cmp-cmp (models a) (models b)))) (
        by_both-IsStrictWeak (less (λ m. key (models m)))
          (λ a b. ltb_ℤ (number (models a)) (number (models b)))
          (less-IsStrictWeak (λ m. key (models m))) (by_number models))

  -- Two models that neither precedes have one task number.
  pub model_cmp_neither :
      (a b : TaskModel)
      → model_cmp task a b ≡ false
      → model_cmp task b a ≡ false
      → (get_priority task a ≡ get_priority task b)
        × (a.insert_time ≡ b.insert_time)
        × ((task a.rt_task).task_number ≡ (task b.rt_task).task_number)
  unfolding model_cmp
  model_cmp_neither a b p q = (
    eq_of_parts (get_priority task a) (get_priority task b) (ground arith),
    eq_of_parts a.insert_time b.insert_time (ground arith),
    eq_of_parts (number a) (number b) (ground arith),
  )

  -- The ready queue is sorted and holds active models; the map gives each task its own model, the
  -- model in the queue is the one of its task, and tasks of the scheduler have numbers of their
  -- own.
  pub record IsValid (s : Scheduler) : Type 0 where
    pub sorted : IsSorted (before task s.models) s.queue
    pub actives : (m : ℕ) → contains m s.queue ≡ true → (s.models m).active ≡ true
    pub registered : (t m : ℕ) → find t s ≡ some m → (s.models m).rt_task ≡ t
    pub queued : (m : ℕ) → contains m s.queue ≡ true → find (s.models m).rt_task s ≡ some m
    pub numbers :
        (t u m k : ℕ)
        → find t s ≡ some m
        → find u s ≡ some k
        → (task t).task_number ≡ (task u).task_number
        → t ≡ u
