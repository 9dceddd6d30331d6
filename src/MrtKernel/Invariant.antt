-- ===== src/MrtKernel/Invariant.antt =====
-- What the maps of the kernel have to do with each other, and which operations keep it.
use partsim.Prelude.{
  ℕ, ◌≡◌, refl, sym, ap, ◌∙◌, ◌⊎◌, inl, inr, Bool, true, false, Option, none, some, List, [], ◌∷◌,
  ◌==◌, ==_iff, arith, Bool-cases, Option-cases,
}
use partsim.Tick.{Tick}
use partsim.Event.{Sim, post, set_time, take_order, enqueue}
use partsim.Scheduler.{Scheduler}
use partsim.Kernel.{same_task}
use partsim.MrtKernel.{
  MrtKernel, Machine, lookup_cpu, remove_task, update, find_processor, get_processor, set_curr_exe,
  leave_cpu, cancel_switch, start_switch, set_switching,
}

-- The flag that an event is queued.
abbrev pub is_queued : ℕ → Sim → Bool
is_queued e s = (s.events e).is_in_queue

pub post_others :
    (e : ℕ) (t : Tick) (disp : Bool) (s : Sim) (j : ℕ)
    → (j == e) ≡ false
    → is_queued j (post e t disp s).1 ≡ is_queued j s
unfolding post set_time take_order enqueue
post_others e t disp s j h = ground arith

pub lookup_cpu-remove_task_self :
    (t : ℕ) (xs : List (ℕ × ℕ)) → lookup_cpu t (remove_task t xs) ≡ none
lookup_cpu-remove_task_self t [] = refl
lookup_cpu-remove_task_self t ((u, p) ∷ xs) = elim (Bool-cases (u == t)) [
  | inl e ↦ rw e (lookup_cpu-remove_task_self t xs)
  | inr e ↦ rw (e, e) (lookup_cpu-remove_task_self t xs)
]

pub lookup_cpu-remove_task_ne :
    (t v : ℕ) (xs : List (ℕ × ℕ))
    → (t == v) ≡ false
    → lookup_cpu v (remove_task t xs) ≡ lookup_cpu v xs
lookup_cpu-remove_task_ne t v [] h = refl
lookup_cpu-remove_task_ne t v ((u, p) ∷ xs) h =
    let rest = lookup_cpu-remove_task_ne t v xs h in
    ground (arith, rest, ==_iff u t, ==_iff u v, ==_iff t v)

-- The events that belong to the processors are all different.
pub record IsWired {A : Type 0} (env : Machine A) : Type 0 where
  pub apart : (p q : ℕ) → (env.end_evt q == env.begin_evt p) ≡ false
  pub single : (p q : ℕ) → env.end_evt p ≡ env.end_evt q → p ≡ q

-- A task that runs or is about to run on a processor is dispatched there and nowhere else; a
-- processor in a context switch runs nothing; and a switch whose end is queued is under way.
pub record IsConsistent {A : Type 0} (env : Machine A) (k : MrtKernel A) : Type 0 where
  pub running : (p t : ℕ) → k.curr_exe p ≡ some t → lookup_cpu t k.dispatched ≡ some p
  pub planned :
      (p t : ℕ) → k.switching p ≡ true → k.end_task p ≡ some t → lookup_cpu t k.dispatched ≡ some p
  pub idle : (p : ℕ) → k.switching p ≡ true → k.curr_exe p ≡ none
  pub ends : (p : ℕ) → is_queued (env.end_evt p) k.sim ≡ true → k.switching p ≡ true

some_eq : (q p : ℕ) → some q ≡ some p → q ≡ p
some_eq q p e = ground arith

same_task-eq : (o : Option ℕ) (t : ℕ) → same_task o (some t) ≡ true → o ≡ some t
same_task-eq none t h = absurd (cc)
same_task-eq (some u) t h = ap some ((==_iff u t).0 h)

find_processor-runs :
    {A : Type 0} (t : ℕ) (k : MrtKernel A) (ps : List ℕ) (ret : Option ℕ) (p : ℕ)
    → find_processor t k ps ret ≡ some p
    → (k.curr_exe p ≡ some t) ⊎ (ret ≡ some p)
unfolding find_processor
find_processor-runs t k [] ret p h = inr h
find_processor-runs t k (q ∷ ps) ret p h = elim (Bool-cases (same_task (k.curr_exe q) (some t))) [
  | inl e ↦ elim (find_processor-runs t k ps (some q) p (rw e at h)) [
    | inl x ↦ inl x
    | inr x ↦ inl (sym (ap k.curr_exe (some_eq q p x)) ∙ same_task-eq (k.curr_exe q) t e)
  ]
  | inr e ↦ find_processor-runs t k ps ret p (rw e at h)
]

pub get_processor-runs :
    {A : Type 0} (t : ℕ) (k : MrtKernel A) (p : ℕ)
    → get_processor t k ≡ some p
    → k.curr_exe p ≡ some t
unfolding get_processor
get_processor-runs t k p h = elim (find_processor-runs t k k.cpus none p h) [
  | inl x ↦ x
  | inr x ↦ absurd (cc)
]

-- The changes of the maps, each with what it needs.
module _ {A : Type 0} (env : Machine A) (wired : IsWired env) (k : MrtKernel A)
    (c : IsConsistent env k) where
  -- The world around the kernel may move, while no end of a switch is queued.
  pub moved :
      (s : Sim) (sched : Scheduler) (rest : A)
      → ((p : ℕ) → is_queued (env.end_evt p) s ≡ true → k.switching p ≡ true)
      → IsConsistent env (record k { sim = s; sched = sched; rest = rest })
  moved s sched rest h = record {
    running = c.running;
    planned = c.planned;
    idle = c.idle;
    ends = h;
  }

  pub leave_cpu-IsConsistent :
      (p t : ℕ) → k.curr_exe p ≡ some t → IsConsistent env (leave_cpu p t k)
  leave_cpu-IsConsistent p t e = record {
    running = runs;
    planned = plans;
    idle = λ q s. elim (Bool-cases (q == p)) [ inl x ↦ rw x refl | inr x ↦ rw x (c.idle q s) ];
    ends = c.ends;
  }
    where
      runs :
          (q u : ℕ)
          → update p none k.curr_exe q ≡ some u
          → lookup_cpu u (remove_task t k.dispatched) ≡ some q
      runs q u r = elim (Bool-cases (q == p)) [
        | inl x ↦ absurd (ground arith)
        | inr x ↦
            let runs_q : k.curr_exe q ≡ some u = ground arith in
            let at_q = c.running q u runs_q in
            let at_p = c.running p t e in
            let other : (t == u) ≡ false = ground arith in
            lookup_cpu-remove_task_ne t u k.dispatched other ∙ at_q
      ]

      plans :
          (q u : ℕ)
          → k.switching q ≡ true
          → k.end_task q ≡ some u
          → lookup_cpu u (remove_task t k.dispatched) ≡ some q
      plans q u s r =
          let at_q = c.planned q u s r in
          let at_p = c.running p t e in
          let still = c.idle q s in
          let other : (t == u) ≡ false = ground arith in
          lookup_cpu-remove_task_ne t u k.dispatched other ∙ at_q

  pub cancel_switch-IsConsistent :
      (p : ℕ) → k.switching p ≡ true → IsConsistent env (cancel_switch p k)
  cancel_switch-IsConsistent p s = elim (Option-cases (k.end_task p)) [
    | inl e ↦ rw (e, cancel_switch) c
    | inr (t, e) ↦
        rw (e, cancel_switch)
          (record { running = runs t e; planned = plans t e; idle = c.idle; ends = c.ends })
  ]
    where
      runs :
          (t : ℕ)
          → k.end_task p ≡ some t
          → (q u : ℕ) → k.curr_exe q ≡ some u
          → lookup_cpu u (remove_task t k.dispatched) ≡ some q
      runs t e q u r =
          let at_q = c.running q u r in
          let at_p = c.planned p t s e in
          let still = c.idle p s in
          let other : (t == u) ≡ false = ground arith in
          lookup_cpu-remove_task_ne t u k.dispatched other ∙ at_q

      plans :
          (t : ℕ)
          → k.end_task p ≡ some t
          → (q u : ℕ) → k.switching q ≡ true
          → update p none k.end_task q ≡ some u
          → lookup_cpu u (remove_task t k.dispatched) ≡ some q
      plans t e q u sq r = elim (Bool-cases (q == p)) [
        | inl x ↦ absurd (ground arith)
        | inr x ↦
            let plans_q : k.end_task q ≡ some u = ground arith in
            let at_q = c.planned q u sq plans_q in
            let at_p = c.planned p t s e in
            let other : (t == u) ≡ false = ground arith in
            lookup_cpu-remove_task_ne t u k.dispatched other ∙ at_q
      ]

  -- A switch may start on a processor that runs nothing, to a task that is not dispatched.
  pub start_switch-IsConsistent :
      (p : ℕ) (o : Option ℕ)
      → k.curr_exe p ≡ none
      → ((t : ℕ) → o ≡ some t → lookup_cpu t k.dispatched ≡ none)
      → IsConsistent env (start_switch p o k)
  start_switch-IsConsistent p none vacant new = record {
    running = c.running;
    planned = λ q u s r. elim (Bool-cases (q == p)) [
      | inl x ↦ absurd (ground arith)
      | inr x ↦ c.planned q u (rw x at s) (rw x at r)
    ];
    idle =
        λ q s. elim (Bool-cases (q == p)) [ inl x ↦ ground arith | inr x ↦ c.idle q (rw x at s) ];
    ends = λ q h. let before = c.ends q h in ground arith;
  }
  start_switch-IsConsistent p (some t) vacant new = record {
    running = λ q u r. let at_q = c.running q u r in let fresh = new t refl in added u q at_q fresh;
    planned = λ q u s r. elim (Bool-cases (q == p)) [
      | inl x ↦ let same : u ≡ t = ground arith in rw (same, (==_iff q p).0 x) (ground arith)
      | inr x ↦ let at_q = c.planned q u (rw x at s) (rw x at r) in added u q at_q (new t refl)
    ];
    idle =
        λ q s. elim (Bool-cases (q == p)) [ inl x ↦ ground arith | inr x ↦ c.idle q (rw x at s) ];
    ends = λ q h. let before = c.ends q h in ground arith;
  }
    where
      added :
          (u q : ℕ)
          → lookup_cpu u k.dispatched ≡ some q
          → lookup_cpu t k.dispatched ≡ none
          → lookup_cpu u ((t, p) ∷ remove_task t k.dispatched) ≡ some q
      added u q at_q fresh =
          let other : (t == u) ≡ false = ground arith in
          let rest = lookup_cpu-remove_task_ne t u k.dispatched other in ground arith

  -- The processor's switch ends: the task of the event runs.
  pub finish-IsConsistent :
      (p : ℕ)
      → k.switching p ≡ true
      → is_queued (env.end_evt p) k.sim ≡ false
      → IsConsistent env (set_switching p false (set_curr_exe p (k.end_task p) k))
  finish-IsConsistent p s free = record {
    running = λ q u r. elim (Bool-cases (q == p)) [
      | inl x ↦
          let same : k.end_task p ≡ some u = rw x at r in
          rw ((==_iff q p).0 x) (c.planned p u s same)
      | inr x ↦ c.running q u (rw x at r)
    ];
    planned = λ q u sq r. elim (Bool-cases (q == p)) [
      | inl x ↦ absurd (ground arith)
      | inr x ↦ c.planned q u (rw x at sq) r
    ];
    idle = λ q sq. elim (Bool-cases (q == p)) [
      | inl x ↦ absurd (ground arith)
      | inr x ↦ rw x (c.idle q (rw x at sq))
    ];
    ends = λ q h. elim (Bool-cases (q == p)) [
      | inl x ↦ absurd (cc (free, h, (==_iff q p).0 x))
      | inr x ↦ rw x (c.ends q h)
    ];
  }
