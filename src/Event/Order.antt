-- ===== src/Event/Order.antt =====
-- `Event::Cmp` is a strict weak order, and the well-formedness of the event queue.
use partsim.Prelude.{ℕ, ◌+◌, ◌<◌, sym, ◌∙◌, ◌≡◌, ◌≢◌, ◌⊎◌, inl, inr, true, false, arith, Bool-cases}
use partsim.Prelude.Int.{pos_part, neg_part, ◌≤ℤ◌, ◌<ℤ◌, eq_of_parts, ltb_ℤ, eqb_ℤ, eqb_ℤ→eq}
use partsim.Tick.{max_tick}
use partsim.PriorityList.Order.{IsStrictWeak, IsSorted, contains}
use partsim.Event.{Event, Sim, cmp, less}

-- The order that `Event::Cmp` decides: by time, then priority, then the number of the posting.
abbrev Before : Event → Event → Type 0
Before a b =
    (a.time <ℤ b.time)
    ⊎ ((a.time ≡ b.time) × (a.priority <ℤ b.priority))
    ⊎ ((a.time ≡ b.time) × (a.priority ≡ b.priority) × (a.order < b.order))

cmp→Before : (a b : Event) → cmp a b ≡ true → Before a b
unfolding cmp
cmp→Before a b h = elim (Bool-cases (ltb_ℤ a.time b.time)) [
  | inl p ↦ inl (ground arith)
  | inr p ↦ elim (Bool-cases (eqb_ℤ a.time b.time)) [
    | inr q ↦ absurd (cc)
    | inl q ↦ elim (Bool-cases (ltb_ℤ a.priority b.priority)) [
      | inl r ↦ inr (inl (eqb_ℤ→eq a.time b.time q, ground arith))
      | inr r ↦ elim (Bool-cases (eqb_ℤ a.priority b.priority)) [
        | inr u ↦ absurd (cc)
        | inl u ↦
            inr (inr (eqb_ℤ→eq a.time b.time q, eqb_ℤ→eq a.priority b.priority u, ground arith))
      ]
    ]
  ]
]

Before→cmp : (a b : Event) → Before a b → cmp a b ≡ true
unfolding cmp
Before→cmp a b (inl p) = ground arith
Before→cmp a b (inr (inl (e, p))) =
    let e' : pos_part a.time + neg_part b.time ≡ pos_part b.time + neg_part a.time = ground arith in
    ground arith
Before→cmp a b (inr (inr (e, f, p))) =
    let e' : pos_part a.time + neg_part b.time ≡ pos_part b.time + neg_part a.time = ground arith in
    let f' : pos_part a.priority + neg_part b.priority ≡ pos_part b.priority + neg_part a.priority =
      ground arith in
    ground arith

-- Two events that neither precedes have the same key.
pub cmp_neither :
    (a b : Event)
    → cmp a b ≡ false
    → cmp b a ≡ false
    → (a.time ≡ b.time) × (a.priority ≡ b.priority) × (a.order ≡ b.order)
unfolding cmp
cmp_neither a b h k =
    let t : a.time ≡ b.time = eq_of_parts a.time b.time (ground arith) in
    let p : a.priority ≡ b.priority = eq_of_parts a.priority b.priority (ground arith) in
    (t, p, ground arith)

cmp_irrefl : (a : Event) → cmp a a ≡ false
unfolding cmp
cmp_irrefl a = ground arith

Before-trans : (a b c : Event) → Before a b → Before b c → Before a c
Before-trans a b c (inl p) (inl q) = inl (omega arith)
Before-trans a b c (inl p) (inr (inl (e, q))) = inl (rw (← e) p)
Before-trans a b c (inl p) (inr (inr (e, f, q))) = inl (rw (← e) p)
Before-trans a b c (inr (inl (e, p))) (inl q) = inl (rw e q)
Before-trans a b c (inr (inl (e, p))) (inr (inl (e', q))) = inr (inl (e ∙ e', omega arith))
Before-trans a b c (inr (inl (e, p))) (inr (inr (e', f, q))) = inr (inl (e ∙ e', rw (← f) p))
Before-trans a b c (inr (inr (e, f, p))) (inl q) = inl (rw e q)
Before-trans a b c (inr (inr (e, f, p))) (inr (inl (e', q))) = inr (inl (e ∙ e', rw f q))
Before-trans a b c (inr (inr (e, f, p))) (inr (inr (e', f', q))) =
    inr (inr (e ∙ e', f ∙ f', omega arith))

cmp_weak : (a b c : Event) → cmp a c ≡ true → (cmp a b ≡ true) ⊎ (cmp b c ≡ true)
cmp_weak a b c h = elim (Bool-cases (cmp a b)) [
  | inl p ↦ inl p
  | inr p ↦ elim (Bool-cases (cmp b a)) [
    | inl q ↦ inr (Before→cmp b c (Before-trans b a c (cmp→Before b a q) (cmp→Before a c h)))
    | inr q ↦
        let (et, ep, eo) = cmp_neither a b p q in
        inr (Before→cmp b c (moved (cmp→Before a c h) et ep eo))
  ]
]
  where
    moved : Before a c → a.time ≡ b.time → a.priority ≡ b.priority → a.order ≡ b.order → Before b c
    moved (inl x) et ep eo = inl (rw (← et) x)
    moved (inr (inl (e, x))) et ep eo = inr (inl (sym et ∙ e, rw (← ep) x))
    moved (inr (inr (e, f, x))) et ep eo = inr (inr (sym et ∙ e, sym ep ∙ f, rw (← eo) x))

pub less-IsStrictWeak : (events : ℕ → Event) → IsStrictWeak (less events)
less-IsStrictWeak events = record {
  irrefl = λ a. cmp_irrefl (events a);
  trans = λ a b c p q. Before→cmp (events a) (events c) (
      Before-trans (events a) (events b) (events c) (cmp→Before (events a) (events b) p)
        (cmp→Before (events b) (events c) q));
  weak = λ a b c. cmp_weak (events a) (events b) (events c);
}

-- What every sequence of postings and drops keeps. `unposted` and `unique` say that a key is never
-- shared: an event that was never posted has the key of the constructor.
pub record IsValid (s : Sim) : Type 0 where
  pub sorted : IsSorted (less s.events) s.event_queue
  pub flags : (e : ℕ) → (s.events e).is_in_queue ≡ contains e s.event_queue
  pub future : (e : ℕ) → contains e s.event_queue ≡ true → s.glob_time ≤ℤ (s.events e).time
  pub ordered : (e : ℕ) → contains e s.event_queue ≡ true → (s.events e).order < s.counter
  pub finite : (e : ℕ) → contains e s.event_queue ≡ true → (s.events e).time ≢ max_tick
  pub unposted : (e : ℕ) → ((s.events e).order < s.counter) ⊎ ((s.events e).time ≡ max_tick)
  pub unique :
      (e f : ℕ)
      → contains f s.event_queue ≡ true
      → (s.events e).order ≡ (s.events f).order
      → (s.events e).time ≡ (s.events f).time
      → e ≡ f
