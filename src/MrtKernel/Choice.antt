-- ===== src/MrtKernel/Choice.antt =====
-- Which task the begin of a dispatch chooses.
use partsim.Prelude.{
  ℕ, zero, suc, ◌+◌, ◌≤◌, ◌<◌, ◌≡◌, ◌≢◌, refl, sym, ap, inl, inr, Bool, true, Option, none, some,
  List, [], ◌∷◌, ◌==◌, ==_iff, arith, Bool-cases, Option-cases, length, get_elem?, ltb,
}
use partsim.PriorityList.Order.{IsSorted, All-contains, contains}
use partsim.Scheduler.{get_task_n, before}
use partsim.MrtKernel.{MrtKernel, lookup_cpu, where_dispatched, first_not_dispatched}

get_elem?-none : (xs : List ℕ) (i : ℕ) → get_elem? xs i ≡ none → length xs ≤ i
get_elem?-none [] i h = omega arith
get_elem?-none (x ∷ xs) zero h = absurd (cc)
get_elem?-none (x ∷ xs) (suc i) h = let le = get_elem?-none xs i h in omega arith

get_elem?-lt : (xs : List ℕ) (i x : ℕ) → get_elem? xs i ≡ some x → i < length xs
get_elem?-lt [] i x h = absurd (cc)
get_elem?-lt (y ∷ xs) zero x h = omega arith
get_elem?-lt (y ∷ xs) (suc i) x h = let lt = get_elem?-lt xs i x h in omega arith

pub contains-get_elem? :
    (z : ℕ) (xs : List ℕ) → contains z xs ≡ true → (j : ℕ) × (get_elem? xs j ≡ some z)
contains-get_elem? z [] h = absurd (cc)
contains-get_elem? z (x ∷ xs) h = elim (Bool-cases (z == x)) [
  | inl e ↦ (0, ap some (sym ((==_iff z x).0 e)))
  | inr e ↦ let (j, at) = contains-get_elem? z xs (rw e at h) in (suc j, at)
]

pub get_elem?-contains : (xs : List ℕ) (i x : ℕ) → get_elem? xs i ≡ some x → contains x xs ≡ true
get_elem?-contains [] i x h = absurd (cc)
get_elem?-contains (y ∷ xs) zero x h = ground arith
get_elem?-contains (y ∷ xs) (suc i) x h = let rest = get_elem?-contains xs i x h in ground arith

pub sorted_positions :
    (less : ℕ → ℕ → Bool) (xs : List ℕ) (i j a b : ℕ)
    → IsSorted less xs
    → i < j
    → get_elem? xs i ≡ some a
    → get_elem? xs j ≡ some b
    → less a b ≡ true
sorted_positions less [] i j a b s lt ha hb = absurd (cc)
sorted_positions less (x ∷ xs) zero zero a b s lt ha hb = absurd (omega arith)
sorted_positions less (x ∷ xs) zero (suc j) a b (all, s) lt ha hb =
    let first = All-contains (λ y. less x y ≡ true) b xs all (get_elem?-contains xs j b hb) in
    let same : x ≡ a = ground arith in rw (← same) first
sorted_positions less (x ∷ xs) (suc i) zero a b s lt ha hb = absurd (omega arith)
sorted_positions less (x ∷ xs) (suc i) (suc j) a b (all, s) lt ha hb =
    sorted_positions less xs i j a b s (omega arith) ha hb

module _ {A : Type 0} where
  -- The ready task at a position is dispatched.
  abbrev pub IsTaken : MrtKernel A → ℕ → Type 0
  IsTaken k j =
      (m : ℕ)
      → get_elem? k.sched.queue j ≡ some m
      → lookup_cpu (k.sched.models m).rt_task k.dispatched ≢ none

  -- The task is ready and not dispatched, and those before it in the ready queue are.
  pub record IsFirstNew (k : MrtKernel A) (t : ℕ) : Type 0 where
    pub position : ℕ
    pub model : ℕ
    pub at_position : get_elem? k.sched.queue position ≡ some model
    pub its_task : (k.sched.models model).rt_task ≡ t
    pub fresh : lookup_cpu t k.dispatched ≡ none
    pub skipped : (j : ℕ) → j < position → IsTaken k j

  abbrev pub Choice : MrtKernel A → Option ℕ → Type 0
  Choice k none = (j : ℕ) → IsTaken k j
  Choice k (some t) = IsFirstNew k t

  chosen_from :
      (fuel i : ℕ) (k : MrtKernel A)
      → ((j : ℕ) → j < i → IsTaken k j)
      → length k.sched.queue < fuel + i
      → Choice k (first_not_dispatched fuel i k)
  unfolding first_not_dispatched get_task_n
  chosen_from zero i k taken enough =
      λ j m e. let inside = get_elem?-lt k.sched.queue j m e in taken j (omega arith) m e
  chosen_from (suc fuel) i k taken enough = elim (Option-cases (get_elem? k.sched.queue i)) [
    | inl e ↦
        rw (e, first_not_dispatched)
          (λ j m at.
            let outside = get_elem?-none k.sched.queue i e in
            let inside = get_elem?-lt k.sched.queue j m at in taken j (omega arith) m at)
    | inr (m, e) ↦ elim (Option-cases (where_dispatched (k.sched.models m).rt_task k)) [
      | inl f ↦
          rw (e, f, first_not_dispatched)
            (record {
              position = i;
              model = m;
              at_position = e;
              its_task = refl;
              fresh = f;
              skipped = taken;
            })
      | inr (q, f) ↦
          rw (e, f, first_not_dispatched)
            (chosen_from fuel (suc i) k (taken_next i k m q taken e f) (omega arith))
    ]
  ]
    where
      taken_next :
          (i : ℕ) (k : MrtKernel A) (m q : ℕ)
          → ((j : ℕ) → j < i → IsTaken k j)
          → get_elem? k.sched.queue i ≡ some m
          → where_dispatched (k.sched.models m).rt_task k ≡ some q
          → (j : ℕ) → j < suc i
          → IsTaken k j
      taken_next i k m q taken e f j lt u at = elim (Bool-cases (ltb j i)) [
        | inl before ↦ taken j (ground arith) u at
        | inr here ↦
            let same : j ≡ i = ground arith in
            let same_model : m ≡ u = ground arith in rw (← same_model, f) (λ n. absurd (cc))
      ]

  pub choice_lem :
      (k : MrtKernel A) → Choice k (first_not_dispatched (length k.sched.queue + 1) 0 k)
  choice_lem k =
      chosen_from (length k.sched.queue + 1) 0 k (λ j lt. absurd (omega arith)) (omega arith)
