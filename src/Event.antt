-- ===== src/Event.antt =====
-- libmetasim/event.cpp and libmetasim/include/metasim/event.hpp: events and the global event queue.
-- An `Event *` is a number. `Sim` is what the static members of `Event` and the clock of the
-- singleton `Simulation` hold; a method of `Event` is an action on it that takes the event's
-- pointer. Debug output is left out.
pub mod Order
pub mod Post
pub mod Drop
pub mod Repost
pub mod Contract
pub mod Examples
use partsim.Prelude.{
  ℕ, ◌+◌, ◌≡◌, Bool, true, false, ◌&&◌, ◌||◌, not, Option, List, [], ◌==◌, ltb, if◌then◌else◌,
}
use partsim.Prelude.Int.{ℤ, pos, ltb_ℤ, eqb_ℤ}
use partsim.Prelude.Action.{
  Exc, Action, get, modify, unless, ◌>>=◌, ◌>>◌, event_already_posted, event_in_the_past,
  event_already_in_queue, event_time_when_queued,
}
use partsim.PriorityList.{insert, erase, front}
use partsim.Tick.{Tick, max_tick}

pub record Event : Type 0 where
  pub order : ℕ
  pub is_in_queue : Bool
  pub time : Tick
  pub last_time : Tick
  pub priority : ℤ
  pub std_priority : ℤ
  pub disposable : Bool

pub record Sim : Type 0 where
  pub glob_time : Tick
  pub counter : ℕ
  pub event_queue : List ℕ
  pub events : ℕ → Event

abbrev pub default_priority : ℤ
default_priority = pos 8

abbrev pub immediate_priority : ℤ
immediate_priority = pos 0

-- The constructor.
abbrev pub new_event : ℤ → Event
new_event p = record {
  order = 0;
  is_in_queue = false;
  time = max_tick;
  last_time = max_tick;
  priority = p;
  std_priority = p;
  disposable = false;
}

-- `Event::Cmp`
unfoldable pub cmp : Event → Event → Bool
cmp e1 e2 =
    if ltb_ℤ e1.time e2.time
    then true
    else if eqb_ℤ e1.time e2.time
    then (if ltb_ℤ e1.priority e2.priority
        then true
        else if eqb_ℤ e1.priority e2.priority
        then ltb e1.order e2.order
        else false)
    else false

abbrev pub less : (ℕ → Event) → ℕ → ℕ → Bool
less events a b = cmp (events a) (events b)

-- A write through an event's pointer.
abbrev pub store : ℕ → Event → Sim → Sim
store e x s = record s { events = λ j. if j == e then x else s.events j }

module _ (e : ℕ) where
  -- `setTime`
  unfoldable pub set_time : Tick → Action Sim (Unit {0})
  set_time t = do
    s ← get
    unless (not (s.events e).is_in_queue) event_time_when_queued
    modify (λ s. store e (record (s.events e) { time = t }) s)

  -- `_order = counter++`
  unfoldable pub take_order : Action Sim (Unit {0})
  take_order = modify (λ s.
      store e (record (s.events e) { order = s.counter }) (record s { counter = s.counter + 1 }))

  -- `_eventQueue.insert(this)`, with the test of the flag that it returns.
  unfoldable pub enqueue : Action Sim (Unit {0})
  enqueue = do
    s ← get
    let (queue, inserted) = insert (less s.events) e s.event_queue
    modify (λ s. record s { event_queue = queue })
    unless inserted event_already_in_queue

  unfoldable pub post : Tick → Bool → Action Sim (Unit {0})
  post t disp = do
    s ← get
    unless (not (s.events e).is_in_queue) event_already_posted
    unless (not (ltb_ℤ t s.glob_time)) event_in_the_past
    set_time t
    take_order
    enqueue
    modify (λ s. store e (record (s.events e) { is_in_queue = true; disposable = disp }) s)

  -- The queue is searched by the comparison, so what is erased is the element that is equivalent
  -- to this event, if there is one.
  unfoldable pub drop : Action Sim (Unit {0})
  drop = modify (λ s.
      store e (record (s.events e) { is_in_queue = false })
        (record s { event_queue = erase (less s.events) e s.event_queue }))

  unfoldable pub set_priority : ℤ → Action Sim (Unit {0})
  set_priority p = modify (λ s. store e (record (s.events e) { priority = p }) s)

  unfoldable pub restore_priority : Action Sim (Unit {0})
  restore_priority =
      modify (λ s. store e (record (s.events e) { priority = (s.events e).std_priority }) s)

  unfoldable pub process : Bool → Action Sim (Unit {0})
  unfolding drop set_priority post
  process disp = do drop; set_priority immediate_priority; s ← get; post s.glob_time disp

abbrev pub get_first : Sim → Option ℕ
get_first s = front s.event_queue
