-- ===== src/Event/Post.antt =====
-- `Event::post`: its result on every branch, and the well-formedness that it keeps.
use partsim.Prelude.{
  ℕ, ◌+◌, ◌≡◌, ◌≢◌, ◌⊎◌, inl, inr, Bool, true, false, not, ◌||◌, arith, Bool-cases, ◌==◌,
  if◌then◌else◌, ==_iff, ap, fun_ext, List,
}
use partsim.Prelude.Int.{◌≤ℤ◌, ◌<ℤ◌, ltb_ℤ}
use partsim.Prelude.Action.{return, throw, event_already_posted, event_in_the_past}
use partsim.Tick.{Tick, max_tick}
use partsim.PriorityList.{insert}
use partsim.PriorityList.Order.{All-of_contains, contains, IsSorted, insert-IsSorted}
use partsim.PriorityList.Elements.{Apart, insert-Apart, contains-insert, IsSorted-ext}
use partsim.Event.{Event, Sim, cmp, less, store, post, set_time, take_order, enqueue}
use partsim.Event.Order.{IsValid, cmp_neither, less-IsStrictWeak}

-- The event as `post` leaves it, but for the flag.
abbrev pub keyed : ℕ → Tick → Sim → Event
keyed e t s = record (s.events e) { time = t; order = s.counter }

abbrev pub keyed_events : ℕ → Tick → Sim → ℕ → Event
keyed_events e t s j = if j == e then keyed e t s else s.events j

-- What a posting that succeeds leaves.
abbrev pub posted : ℕ → Tick → Bool → Sim → Sim
posted e t disp s = record {
  glob_time = s.glob_time;
  counter = s.counter + 1;
  event_queue = (insert (less (keyed_events e t s)) e s.event_queue).0;
  events = λ j.
      if j == e then record (keyed e t s) { is_in_queue = true; disposable = disp } else s.events j;
}

pub post_queued :
    (e : ℕ) (t : Tick) (disp : Bool) (s : Sim)
    → (s.events e).is_in_queue ≡ true
    → post e t disp s ≡ (throw event_already_posted, s)
unfolding post
post_queued e t disp s h = rw h

not_past : (t now : Tick) → now ≤ℤ t → ltb_ℤ t now ≡ false
not_past t now h = ground arith

pub post_past :
    (e : ℕ) (t : Tick) (disp : Bool) (s : Sim)
    → (s.events e).is_in_queue ≡ false
    → t <ℤ s.glob_time
    → post e t disp s ≡ (throw event_in_the_past, s)
unfolding post
post_past e t disp s h p = let early : ltb_ℤ t s.glob_time ≡ true = ground arith in rw (h, early)

-- After `setTime` and `_order = counter++`.
abbrev armed : ℕ → Tick → Sim → Sim
armed e t s = record s { counter = s.counter + 1; events = keyed_events e t s }

set_time_lem :
    (e : ℕ) (t : Tick) (s : Sim)
    → (s.events e).is_in_queue ≡ false
    → set_time e t s ≡ (return tt, store e (record (s.events e) { time = t }) s)
unfolding set_time
set_time_lem e t s h = let free : not (s.events e).is_in_queue ≡ true = rw h in rw free

take_order_lem :
    (e : ℕ) (t : Tick) (s : Sim)
    → take_order e (store e (record (s.events e) { time = t }) s) ≡ (return tt, armed e t s)
unfolding take_order
take_order_lem e t s = (λ i. (
  return tt,
  record {
    glob_time = s.glob_time;
    counter = s.counter + 1;
    event_queue = s.event_queue;
    events = fun_ext same i;
  },
))
  where
    same :
        (j : ℕ)
        → (if j == e
            then record (if e == e then record (s.events e) { time = t } else s.events e) {
              order = s.counter;
            }
            else (if j == e then record (s.events e) { time = t } else s.events j))
          ≡ keyed_events e t s j
    same j = ground arith

enqueue_lem :
    (e : ℕ) (s : Sim)
    → (insert (less s.events) e s.event_queue).1 ≡ true
    → enqueue e s
      ≡ (return tt, record s { event_queue = (insert (less s.events) e s.event_queue).0 })
unfolding enqueue
enqueue_lem e s h = rw h

mark_lem :
    (e : ℕ) (t : Tick) (disp : Bool) (s : Sim) (queue : List ℕ)
    → store e
        (record (keyed_events e t s e) { is_in_queue = true; disposable = disp })
        (record (armed e t s) { event_queue = queue })
      ≡ record (posted e t disp s) { event_queue = queue }
mark_lem e t disp s queue = λ i. record {
  glob_time = s.glob_time;
  counter = s.counter + 1;
  event_queue = queue;
  events = fun_ext same i;
}
  where
    same :
        (j : ℕ)
        → (if j == e
            then record (keyed_events e t s e) { is_in_queue = true; disposable = disp }
            else keyed_events e t s j)
          ≡ (posted e t disp s).events j
    same j = ground arith

pub post_succeeds :
    (e : ℕ) (t : Tick) (disp : Bool) (s : Sim)
    → (s.events e).is_in_queue ≡ false
    → s.glob_time ≤ℤ t
    → (insert (less (keyed_events e t s)) e s.event_queue).1 ≡ true
    → post e t disp s ≡ (return tt, posted e t disp s)
unfolding post
post_succeeds e t disp s h p q =
    rw
      (
        h,
        not_past t s.glob_time p,
        set_time_lem e t s h,
        take_order_lem e t s,
        enqueue_lem e (armed e t s) q,
      )
      (ap (λ (u : Sim). (return tt, u)) (mark_lem e t disp s _))

-- Where the new key is nobody else's, the insertion takes place.
keyed-Apart :
    (e : ℕ) (t : Tick) (s : Sim)
    → IsValid s
    → (s.events e).is_in_queue ≡ false
    → t ≢ max_tick
    → Apart (less (keyed_events e t s)) e s.event_queue
keyed-Apart e t s v h far = All-of_contains _ s.event_queue apart
  where
    apart :
        (y : ℕ)
        → contains y s.event_queue ≡ true
        → (less (keyed_events e t s) y e ≡ true) ⊎ (less (keyed_events e t s) e y ≡ true)
    apart y c = elim (Bool-cases (less (keyed_events e t s) y e)) [
      | inl b ↦ inl b
      | inr b ↦ elim (Bool-cases (less (keyed_events e t s) e y)) [
        | inl d ↦ inr d
        | inr d ↦
            let (et, ep, eo) = cmp_neither (keyed_events e t s y) (keyed_events e t s e) b d in
            absurd (ground (arith, v.ordered y c, v.flags y, v.flags e, ==_iff y e))
      ]
    ]

pub post_lem :
    (e : ℕ) (t : Tick) (disp : Bool) (s : Sim)
    → IsValid s
    → (s.events e).is_in_queue ≡ false
    → s.glob_time ≤ℤ t
    → t ≢ max_tick
    → post e t disp s ≡ (return tt, posted e t disp s)
post_lem e t disp s v h p far =
    post_succeeds e t disp s h p
      (insert-Apart (less (keyed_events e t s)) e s.event_queue (keyed-Apart e t s v h far))

pub contains-posted :
    (e : ℕ) (t : Tick) (disp : Bool) (s : Sim) (z : ℕ)
    → IsValid s
    → (s.events e).is_in_queue ≡ false
    → t ≢ max_tick
    → contains z (posted e t disp s).event_queue ≡ ((z == e) || contains z s.event_queue)
contains-posted e t disp s z v h far =
    contains-insert (less (keyed_events e t s)) z e s.event_queue (keyed-Apart e t s v h far)

-- The flags are no part of the key.
less-posted :
    (e : ℕ) (t : Tick) (disp : Bool) (s : Sim) (a b : ℕ)
    → less (keyed_events e t s) a b ≡ less (posted e t disp s).events a b
unfolding cmp
less-posted e t disp s a b = elim (Bool-cases (a == e)) [
  | inl x ↦ elim (Bool-cases (b == e)) [ inl y ↦ rw (x, y) | inr y ↦ rw (x, y) ]
  | inr x ↦ elim (Bool-cases (b == e)) [ inl y ↦ rw (x, y) | inr y ↦ rw (x, y) ]
]

less-keyed :
    (e : ℕ) (t : Tick) (s : Sim) (a b : ℕ)
    → (a == e) ≡ false
    → (b == e) ≡ false
    → less s.events a b ≡ less (keyed_events e t s) a b
less-keyed e t s a b x y = rw (x, y)

other_member :
    (e : ℕ) (s : Sim) (a : ℕ)
    → IsValid s
    → (s.events e).is_in_queue ≡ false
    → contains a s.event_queue ≡ true
    → (a == e) ≡ false
other_member e s a v h c = ground (arith, v.flags e, v.flags a, ==_iff a e)

module _ (e : ℕ) (t : Tick) (disp : Bool) (s : Sim) (v : IsValid s)
    (h : (s.events e).is_in_queue ≡ false) (p : s.glob_time ≤ℤ t) (far : t ≢ max_tick) where
  posted-IsSorted : IsSorted (less (posted e t disp s).events) (posted e t disp s).event_queue
  posted-IsSorted =
      IsSorted-ext (less (keyed_events e t s)) (less (posted e t disp s).events) _
        (λ a b ca cb. less-posted e t disp s a b)
        (insert-IsSorted (less (keyed_events e t s)) (less-IsStrictWeak (keyed_events e t s)) e
          s.event_queue
          (IsSorted-ext (less s.events) (less (keyed_events e t s)) s.event_queue
            (λ a b ca cb.
              less-keyed e t s a b (other_member e s a v h ca) (other_member e s b v h cb))
            v.sorted))

  abbrev after : Sim
  after = posted e t disp s

  member : (j : ℕ) → contains j after.event_queue ≡ ((j == e) || contains j s.event_queue)
  member j = contains-posted e t disp s j v h far

  posted_unique :
      (j k : ℕ)
      → contains k after.event_queue ≡ true
      → (after.events j).order ≡ (after.events k).order
      → (after.events j).time ≡ (after.events k).time
      → j ≡ k
  posted_unique j k c o u =
      ground (arith, member k, v.unique j k, v.unposted j, v.ordered k, ==_iff j e, ==_iff k e)

  posted-finite : (j : ℕ) → contains j after.event_queue ≡ true → (after.events j).time ≢ max_tick
  posted-finite j c = elim (Bool-cases (j == e)) [
    | inl x ↦ rw x far
    | inr x ↦ rw x (v.finite j (ground (arith, member j)))
  ]

  pub posted-IsValid : IsValid after
  posted-IsValid = record {
    sorted = posted-IsSorted;
    flags = λ j. ground (arith, v.flags j, member j);
    future = λ j c. ground (arith, v.future j, member j);
    ordered = λ j c. ground (arith, v.ordered j, member j);
    finite = λ j c. posted-finite j c;
    unposted = λ j. ground (arith, v.unposted j);
    unique = posted_unique;
  }
