-- ===== src/Event/Examples.antt =====
-- A queue with two events, and the laws of the queue at it.
use partsim.Prelude.{
  ℕ, ◌+◌, ◌-◌, ◌^◌, ◌≡◌, ◌≢◌, refl, true, false, not, ◌&&◌, [], ◌∷◌, arith, ◌==◌, inr,
}
use partsim.Prelude.Int.{pos, ◌+ℤ◌}
use partsim.Prelude.Action.{return, ◌>>◌}
use partsim.Tick.{max_tick}
use partsim.PriorityList.Order.{contains}
use partsim.PriorityList.{insert}
use partsim.Event.{Sim, new_event, default_priority, cmp, post, drop, set_time, take_order, enqueue}
use partsim.Event.Order.{IsValid}
use partsim.Event.Post.{posted, posted-IsValid}
use partsim.Event.Contract.{PostOutcome, post-outcome, drop-outcome}

-- Before anything is posted.
abbrev pub initial : Sim
initial = record {
  glob_time = pos 0;
  counter = 0;
  event_queue = [];
  events = λ e. new_event default_priority;
}

pub initial-IsValid : IsValid initial
initial-IsValid = record {
  sorted = tt;
  flags = λ e. refl;
  future = λ e c. absurd (cc);
  ordered = λ e c. absurd (cc);
  finite = λ e c. absurd (cc);
  unposted = λ e. inr refl;
  unique = λ e f c. absurd (cc);
}

pub not_max : (n : ℕ) → n ≢ 2 ^ 63 - 1 → pos n ≢ max_tick
not_max n h e = h (ground arith)

pub not_max_sum : (a b : ℕ) → a + b ≢ 2 ^ 63 - 1 → pos a +ℤ pos b ≢ max_tick
unfolding ◌+ℤ◌
not_max_sum a b h e = h (ground arith)

-- Event 4 at time 7, then event 9 at time 7.
abbrev pub one_event : Sim
one_event = posted 4 (pos 7) false initial

pub one_event-IsValid : IsValid one_event
one_event-IsValid =
    posted-IsValid 4 (pos 7) false initial initial-IsValid refl (omega arith)
      (not_max 7 (omega arith))

abbrev pub two_events : Sim
two_events = posted 9 (pos 7) false one_event

pub two_events-IsValid : IsValid two_events
two_events-IsValid =
    posted-IsValid 9 (pos 7) false one_event one_event-IsValid refl (omega arith)
      (not_max 7 (omega arith))

pub two_events-queue : two_events.event_queue ≡ 4 ∷ 9 ∷ []
unfolding insert cmp
two_events-queue = refl

post_run :
    ((post 4 (pos 7) false >> post 9 (pos 7) false >> post 2 (pos 5) true) initial).1.event_queue
    ≡ 2 ∷ 4 ∷ 9 ∷ []
unfolding post set_time take_order enqueue insert cmp
post_run = refl

post-outcome_example : PostOutcome 2 (pos 5) true two_events (post 2 (pos 5) true two_events)
post-outcome_example =
    post-outcome 2 (pos 5) true two_events two_events-IsValid (not_max 5 (omega arith))

drop-outcome_example :
    ((drop 4 two_events).0 ≡ return tt)
    × IsValid (drop 4 two_events).1
    × ((z : ℕ)
        → contains z (drop 4 two_events).1.event_queue
          ≡ (contains z two_events.event_queue && not (z == 4)))
    × ((drop 4 two_events).1.glob_time ≡ two_events.glob_time)
    × ((drop 4 two_events).1.counter ≡ two_events.counter)
drop-outcome_example = drop-outcome 4 two_events two_events-IsValid
