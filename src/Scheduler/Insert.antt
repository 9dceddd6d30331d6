-- ===== src/Scheduler/Insert.antt =====
-- `Scheduler::insert` and `Scheduler::extract` keep the ready queue well formed.
use partsim.Prelude.{
  ℕ, ◌≡◌, refl, sym, ap, ◌∙◌, ◌⊎◌, inl, inr, Bool, true, false, not, ◌&&◌, ◌||◌, some, arith,
  Bool-cases, ◌==◌, ==_iff, if◌then◌else◌,
}
use partsim.Tick.{Tick, to_int32}
use partsim.PriorityList.Order.{
  IsSorted, All-of_contains, contains, insert-IsSorted, erase-IsSorted,
}
use partsim.PriorityList.Elements.{
  Apart, contains-insert, contains-erase, erase-Apart, IsSorted-ext,
}
use partsim.Scheduler.{
  Scheduler, TaskModel, RtTask, model_cmp, get_priority, before, find, insert_model, extract_model,
}
use partsim.Scheduler.Order.{IsValid, before-IsStrictWeak, model_cmp_neither}

module _ (task : ℕ → RtTask) where
  -- A change of `active` shows in no comparison.
  before_flag :
      (models : ℕ → TaskModel) (m : ℕ) (b : Bool) (x y : ℕ)
      → before task models x y
        ≡ before task (λ j. if j == m then record (models m) { active = b } else models j) x y
  unfolding model_cmp get_priority
  before_flag models m b x y = elim (Bool-cases (x == m)) [
    | inl p ↦ elim (Bool-cases (y == m)) [
      | inl q ↦ rw (p, q, (==_iff x m).0 p, (==_iff y m).0 q)
      | inr q ↦ rw (p, q, (==_iff x m).0 p)
    ]
    | inr p ↦ elim (Bool-cases (y == m)) [ inl q ↦ rw (p, q, (==_iff y m).0 q) | inr q ↦ rw (p, q) ]
  ]

  module _ (s : Scheduler) (v : IsValid task s) (t m : ℕ) (found : find t s ≡ some m) where
    -- A member that neither precedes nor follows the model of a task is that model.
    same_model :
        (models : ℕ → TaskModel) (y : ℕ)
        → ((j : ℕ) → (models j).rt_task ≡ (s.models j).rt_task)
        → contains y s.queue ≡ true
        → before task models y m ≡ false
        → before task models m y ≡ false
        → y ≡ m
    same_model models y same c p q =
        let (_, _, number) = model_cmp_neither task (models y) (models m) p q in
        let ym : (s.models y).rt_task ≡ t =
          v.numbers (s.models y).rt_task t y m (v.queued y c) found (
            ap (λ u. (task u).task_number) (sym (same y))
            ∙ number
            ∙ ap (λ u. (task u).task_number) (same m ∙ v.registered t m found)) in
        ground (arith, v.queued y c, ym, found)

    unqueued-Apart :
        (models : ℕ → TaskModel)
        → ((j : ℕ) → (models j).rt_task ≡ (s.models j).rt_task)
        → contains m s.queue ≡ false
        → Apart (before task models) m s.queue
    unqueued-Apart models same out = All-of_contains _ s.queue apart
      where
        apart :
            (y : ℕ)
            → contains y s.queue ≡ true
            → (before task models y m ≡ true) ⊎ (before task models m y ≡ true)
        apart y c = elim (Bool-cases (before task models y m)) [
          | inl b ↦ inl b
          | inr b ↦ elim (Bool-cases (before task models m y)) [
            | inl d ↦ inr d
            | inr d ↦ let e : y ≡ m = same_model models y same c b d in absurd (cc)
          ]
        ]

    -- Exactly the model leaves the queue, whether it was in it or not.
    pub contains-extract :
        (z : ℕ) → contains z (extract_model task m s).queue ≡ (contains z s.queue && not (z == m))
    unfolding extract_model
    contains-extract z = elim (Bool-cases (contains m s.queue)) [
      | inl c ↦
          contains-erase (before task s.models) (before-IsStrictWeak task s.models) z m s.queue
            v.sorted c
      | inr n ↦
          rw (erase-Apart (before task s.models) m s.queue (unqueued-Apart s.models (λ j. refl) n))
            (ground (arith, n, ==_iff z m))
    ]

    pub extract-IsValid : IsValid task (extract_model task m s)
    unfolding extract_model
    extract-IsValid = record {
      sorted =
          IsSorted-ext (before task s.models) (before task (extract_model task m s).models) _
            (λ a b ca cb. before_flag s.models m false a b)
            (erase-IsSorted (before task s.models) (before-IsStrictWeak task s.models) m s.queue
              v.sorted);
      actives = λ j c. ground (arith, contains-extract j, v.actives j);
      registered = λ u j f. ground (arith, v.registered u j f, ==_iff j m);
      queued = λ j c. ground (arith, contains-extract j, v.queued j, ==_iff j m);
      numbers = v.numbers;
    }

    module _ (now : Tick) (out : contains m s.queue ≡ false) where
      abbrev inserted : Scheduler
      inserted = insert_model task now m s

      abbrev armed : ℕ → TaskModel
      armed j =
          if j == m
          then record (s.models m) { insert_time = to_int32 now; active = true }
          else s.models j

      armed_task : (j : ℕ) → (armed j).rt_task ≡ (s.models j).rt_task
      armed_task j = ground (arith, ==_iff j m)

      pub contains-insert_model :
          (z : ℕ) → contains z inserted.queue ≡ ((z == m) || contains z s.queue)
      unfolding insert_model
      contains-insert_model z =
          contains-insert (before task armed) z m s.queue (unqueued-Apart armed armed_task out)

      before-armed :
          (a b : ℕ)
          → contains a s.queue ≡ true
          → contains b s.queue ≡ true
          → before task s.models a b ≡ before task armed a b
      before-armed a b ca cb =
          let x : (a == m) ≡ false = ground (arith, ==_iff a m) in
          let y : (b == m) ≡ false = ground (arith, ==_iff b m) in rw (x, y)

      inserted-IsSorted : IsSorted (before task inserted.models) inserted.queue
      unfolding insert_model
      inserted-IsSorted =
          insert-IsSorted (before task armed) (before-IsStrictWeak task armed) m s.queue
            (IsSorted-ext (before task s.models) (before task armed) s.queue before-armed v.sorted)

      pub insert-IsValid : IsValid task inserted
      insert-IsValid = record {
        sorted = inserted-IsSorted;
        actives = inserted-actives;
        registered = inserted-registered;
        queued = inserted-queued;
        numbers = inserted-numbers;
      }
        where
          inserted-actives :
              (j : ℕ) → contains j inserted.queue ≡ true → (inserted.models j).active ≡ true
          inserted-actives j c =
              unfold insert_model in ground (arith, contains-insert_model j, v.actives j)

          inserted-registered :
              (u j : ℕ) → find u inserted ≡ some j → (inserted.models j).rt_task ≡ u
          inserted-registered u j f = unfold insert_model in armed_task j ∙ v.registered u j f

          inserted-queued :
              (j : ℕ)
              → contains j inserted.queue ≡ true
              → find (inserted.models j).rt_task inserted ≡ some j
          inserted-queued j c =
              unfold insert_model in
              ground (
                arith,
                contains-insert_model j,
                v.queued j,
                v.registered t m found,
                found,
                ==_iff j m,
              )

          inserted-numbers :
              (x y j k : ℕ)
              → find x inserted ≡ some j
              → find y inserted ≡ some k
              → (task x).task_number ≡ (task y).task_number
              → x ≡ y
          inserted-numbers = unfold insert_model in v.numbers
