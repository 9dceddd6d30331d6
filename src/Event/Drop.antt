-- ===== src/Event/Drop.antt =====
-- `Event::drop`, `setPriority` and `process` keep the event queue well formed.
use partsim.Prelude.{
  ℕ, ◌≡◌, ◌≢◌, sym, subst, ◌∙◌, ◌⊎◌, inl, inr, Bool, true, false, not, ◌&&◌, ◌||◌, arith,
  Bool-cases, ◌==◌, ==_iff,
}
use partsim.Prelude.Int.{ℤ, ◌≤ℤ◌}
use partsim.Prelude.Action.{return}
use partsim.Tick.{max_tick}
use partsim.PriorityList.{erase}
use partsim.PriorityList.Order.{All-of_contains, contains, IsSorted, erase-IsSorted}
use partsim.PriorityList.Elements.{Apart, erase-Apart, contains-erase, IsSorted-ext}
use partsim.Event.{Sim, cmp, less, store, drop, set_priority, process, immediate_priority}
use partsim.Event.Order.{IsValid, cmp_neither, less-IsStrictWeak}
use partsim.Event.Post.{posted, post_lem, posted-IsValid, contains-posted}

abbrev pub dropped : ℕ → Sim → Sim
dropped e s =
    store e (record (s.events e) { is_in_queue = false })
      (record s { event_queue = erase (less s.events) e s.event_queue })

-- Dropping an event that is not queued finds no event with its key.
unqueued-Apart :
    (e : ℕ) (s : Sim)
    → IsValid s
    → contains e s.event_queue ≡ false
    → Apart (less s.events) e s.event_queue
unqueued-Apart e s v h = All-of_contains _ s.event_queue apart
  where
    apart :
        (y : ℕ)
        → contains y s.event_queue ≡ true
        → (less s.events y e ≡ true) ⊎ (less s.events e y ≡ true)
    apart y c = elim (Bool-cases (less s.events y e)) [
      | inl b ↦ inl b
      | inr b ↦ elim (Bool-cases (less s.events e y)) [
        | inl d ↦ inr d
        | inr d ↦
            let (et, ep, eo) = cmp_neither (s.events y) (s.events e) b d in
            let same : e ≡ y = v.unique e y c (sym eo) (sym et) in absurd (cc)
      ]
    ]

-- Exactly the event itself leaves the queue, whether it was queued or not.
pub contains-dropped :
    (e : ℕ) (s : Sim) (z : ℕ)
    → IsValid s
    → contains z (dropped e s).event_queue ≡ (contains z s.event_queue && not (z == e))
contains-dropped e s z v = elim (Bool-cases (contains e s.event_queue)) [
  | inl c ↦ contains-erase (less s.events) (less-IsStrictWeak s.events) z e s.event_queue v.sorted c
  | inr n ↦
      rw (erase-Apart (less s.events) e s.event_queue (unqueued-Apart e s v n))
        (ground (arith, n, ==_iff z e))
]

pub dropped_unqueued :
    (e : ℕ) (s : Sim)
    → IsValid s
    → contains e s.event_queue ≡ false
    → (dropped e s).event_queue ≡ s.event_queue
dropped_unqueued e s v n = erase-Apart (less s.events) e s.event_queue (unqueued-Apart e s v n)

less-dropped : (e : ℕ) (s : Sim) (a b : ℕ) → less s.events a b ≡ less (dropped e s).events a b
unfolding cmp
less-dropped e s a b = elim (Bool-cases (a == e)) [
  | inl x ↦ elim (Bool-cases (b == e)) [
    | inl y ↦ rw (x, y, (==_iff a e).0 x, (==_iff b e).0 y)
    | inr y ↦ rw (x, y, (==_iff a e).0 x)
  ]
  | inr x ↦ elim (Bool-cases (b == e)) [ inl y ↦ rw (x, y, (==_iff b e).0 y) | inr y ↦ rw (x, y) ]
]

module _ (e : ℕ) (s : Sim) (v : IsValid s) where
  abbrev after : Sim
  after = dropped e s

  dropped-IsSorted : IsSorted (less after.events) after.event_queue
  dropped-IsSorted =
      IsSorted-ext (less s.events) (less after.events) after.event_queue
        (λ a b ca cb. less-dropped e s a b)
        (erase-IsSorted (less s.events) (less-IsStrictWeak s.events) e s.event_queue v.sorted)

  member : (j : ℕ) → contains j after.event_queue ≡ (contains j s.event_queue && not (j == e))
  member j = contains-dropped e s j v

  dropped_unique :
      (j k : ℕ)
      → contains k after.event_queue ≡ true
      → (after.events j).order ≡ (after.events k).order
      → (after.events j).time ≡ (after.events k).time
      → j ≡ k
  dropped_unique j k c o u = ground (arith, member k, v.unique j k, ==_iff j e, ==_iff k e)

  dropped-finite : (j : ℕ) → contains j after.event_queue ≡ true → (after.events j).time ≢ max_tick
  dropped-finite j c = elim (Bool-cases (j == e)) [
    | inl x ↦ absurd (ground (arith, member j))
    | inr x ↦ rw x (v.finite j (ground (arith, member j)))
  ]

  pub dropped-IsValid : IsValid after
  dropped-IsValid = record {
    sorted = dropped-IsSorted;
    flags = λ j. ground (arith, v.flags j, member j, ==_iff j e);
    future = λ j c. ground (arith, v.future j, member j, ==_iff j e);
    ordered = λ j c. ground (arith, v.ordered j, member j, ==_iff j e);
    finite = dropped-finite;
    unposted = λ j. ground (arith, v.unposted j, ==_iff j e);
    unique = dropped_unique;
  }

abbrev pub prioritised : ℕ → ℤ → Sim → Sim
prioritised e p s = store e (record (s.events e) { priority = p }) s

-- The priority of an event may change while it is not queued.
module _ (e : ℕ) (p : ℤ) (s : Sim) (v : IsValid s) (out : contains e s.event_queue ≡ false) where
  less-prioritised :
      (a b : ℕ)
      → contains a s.event_queue ≡ true
      → contains b s.event_queue ≡ true
      → less s.events a b ≡ less (prioritised e p s).events a b
  less-prioritised a b ca cb =
      let x : (a == e) ≡ false = ground (arith, ==_iff a e) in
      let y : (b == e) ≡ false = ground (arith, ==_iff b e) in rw (x, y)

  same_time : (j : ℕ) → (s.events j).time ≡ ((prioritised e p s).events j).time
  same_time j = ground (arith, ==_iff j e)

  pub prioritised-IsValid : IsValid (prioritised e p s)
  prioritised-IsValid = record {
    sorted =
        IsSorted-ext (less s.events) (less (prioritised e p s).events) s.event_queue
          less-prioritised v.sorted;
    flags = λ j. ground (arith, v.flags j, ==_iff j e);
    future = λ j c. ground (arith, v.future j, ==_iff j e);
    ordered = λ j c. ground (arith, v.ordered j, ==_iff j e);
    finite = λ j c. subst (λ t. t ≢ max_tick) (same_time j) (v.finite j c);
    unposted = λ j. ground (arith, v.unposted j, ==_iff j e);
    unique = λ j k c o u. ground (arith, v.unique j k, ==_iff j e, ==_iff k e);
  }

-- What `process` leaves.
abbrev pub processed : ℕ → Bool → Sim → Sim
processed e disp s = posted e s.glob_time disp (prioritised e immediate_priority (dropped e s))

module _ (e : ℕ) (disp : Bool) (s : Sim) (v : IsValid s) (far : s.glob_time ≢ max_tick) where
  gone : contains e (dropped e s).event_queue ≡ false
  gone = ground (arith, contains-dropped e s e v, ==_iff e e)

  ready : IsValid (prioritised e immediate_priority (dropped e s))
  ready = prioritised-IsValid e immediate_priority (dropped e s) (dropped-IsValid e s v) gone

  now_le : s.glob_time ≤ℤ s.glob_time
  now_le = omega arith

  flag : ((prioritised e immediate_priority (dropped e s)).events e).is_in_queue ≡ false
  flag = ready.flags e ∙ gone

  pub process_lem : process e disp s ≡ (return tt, processed e disp s)
  unfolding process drop set_priority
  process_lem =
      post_lem e s.glob_time disp (prioritised e immediate_priority (dropped e s)) ready flag now_le
        far

  pub processed-IsValid : IsValid (processed e disp s)
  processed-IsValid =
      posted-IsValid e s.glob_time disp (prioritised e immediate_priority (dropped e s)) ready flag
        now_le far

  pub contains-processed :
      (z : ℕ) → contains z (processed e disp s).event_queue ≡ ((z == e) || contains z s.event_queue)
  contains-processed z =
      contains-posted e s.glob_time disp (prioritised e immediate_priority (dropped e s)) z ready
        flag far
      ∙ ground (arith, contains-dropped e s z v)
