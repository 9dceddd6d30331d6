-- ===== src/Event/Contract.antt =====
-- What the simulation engine promises of `Event::post`, `drop` and `process`, whole.
use partsim.Prelude.{
  ℕ, ◌≡◌, ◌≢◌, refl, ap, sym, subst, ◌∙◌, ◌⊎◌, inl, inr, Bool, true, false, not, ◌&&◌, ◌||◌, [],
  ◌∷◌, arith, Bool-cases, ◌==◌, ==_iff,
}
use partsim.Prelude.Int.{◌≤ℤ◌, ◌<ℤ◌, ltb_ℤ}
use partsim.Prelude.Action.{Outcome, return, throw, ◌>>◌, event_already_posted, event_in_the_past}
use partsim.Tick.{Tick, max_tick}
use partsim.PriorityList.{insert, erase}
use partsim.PriorityList.Order.{contains}
use partsim.Event.{Sim, cmp, less, post, drop, process, immediate_priority}
use partsim.Event.Order.{IsValid}
use partsim.PriorityList.Elements.{Apart, insert-Apart}
use partsim.Event.Post.{
  keyed_events, post_succeeds, posted, post_lem, post_queued, post_past, posted-IsValid,
  contains-posted,
}
use partsim.Event.Drop.{
  dropped-IsValid, contains-dropped, process_lem, processed-IsValid, contains-processed,
}

-- A posting that returns: the queue stays well formed, exactly this event is added, at this time,
-- and behind every event that is queued with its time and priority.
pub record Posted (e : ℕ) (t : Tick) (disp : Bool) (s s' : Sim) : Type 0 where
  pub valid : IsValid s'
  pub added : (z : ℕ) → contains z s'.event_queue ≡ ((z == e) || contains z s.event_queue)
  pub at_time : (s'.events e).time ≡ t
  pub marked : (s'.events e).disposable ≡ disp
  pub clock : s'.glob_time ≡ s.glob_time
  pub others : (z : ℕ) → z ≢ e → s'.events z ≡ s.events z
  pub fifo :
      (z : ℕ)
      → contains z s.event_queue ≡ true
      → (s.events z).time ≡ t
      → (s.events z).priority ≡ (s.events e).priority
      → less s'.events z e ≡ true

-- What `post` answers: one of two exceptions with nothing changed, or a posting that took place.
abbrev pub PostOutcome : ℕ → Tick → Bool → Sim → Outcome (Unit {0}) × Sim → Type 0
PostOutcome e t disp s (throw x, s') =
    (s' ≡ s)
    × (((x ≡ event_already_posted) × ((s.events e).is_in_queue ≡ true))
        ⊎ ((x ≡ event_in_the_past) × (t <ℤ s.glob_time)))
PostOutcome e t disp s (return _, s') =
    ((s.events e).is_in_queue ≡ false) × (s.glob_time ≤ℤ t) × Posted e t disp s s'

module _ (e : ℕ) (t : Tick) (disp : Bool) (s : Sim) (v : IsValid s) (far : t ≢ max_tick) where
  behind :
      (z : ℕ)
      → (s.events e).is_in_queue ≡ false
      → contains z s.event_queue ≡ true
      → (s.events z).time ≡ t
      → (s.events z).priority ≡ (s.events e).priority
      → less (posted e t disp s).events z e ≡ true
  unfolding cmp
  behind z h c et ep =
      let other : (z == e) ≡ false = ground (arith, v.flags z, ==_iff z e) in
      let self : (e == e) ≡ true = ground arith in
      rw (other, self, et, ep) (ground (arith, v.ordered z c))

  took_place :
      (s.events e).is_in_queue ≡ false → s.glob_time ≤ℤ t → Posted e t disp s (posted e t disp s)
  took_place h p = record {
    valid = posted-IsValid e t disp s v h p far;
    added = λ z. contains-posted e t disp s z v h far;
    at_time = ground arith;
    marked = ground arith;
    clock = refl;
    others = λ z n. ground (arith, ==_iff z e);
    fifo = λ z. behind z h;
  }

-- `post` in a well-formed queue, at any time but `MAXTICK`: it throws, and changes nothing, exactly
-- if the event is queued already or the time is in the past; otherwise it returns, the event alone
-- is added, the queue stays well formed, and events with one time and priority keep the order in
-- which they were posted.
pub post-outcome :
    (e : ℕ) (t : Tick) (disp : Bool) (s : Sim)
    → IsValid s
    → t ≢ max_tick
    → PostOutcome e t disp s (post e t disp s)
post-outcome e t disp s v far = elim (Bool-cases (s.events e).is_in_queue) [
  | inl q ↦ rw (post_queued e t disp s q) (refl, inl (refl, q))
  | inr n ↦ elim (Bool-cases (ltb_ℤ t s.glob_time)) [
    | inl early ↦
        let p : t <ℤ s.glob_time = ground arith in
        rw (post_past e t disp s n p) (refl, inr (refl, p))
    | inr late ↦
        let p : s.glob_time ≤ℤ t = ground arith in
        rw (post_lem e t disp s v n p far) (n, p, took_place e t disp s v far n p)
  ]
]

-- `drop` in a well-formed queue, of an event that is queued or not: it returns, removes exactly
-- this event, keeps the queue well formed, and leaves the clock and the counter alone.
pub drop-outcome :
    (e : ℕ) (s : Sim)
    → IsValid s
    → ((drop e s).0 ≡ return tt)
      × IsValid (drop e s).1
      × ((z : ℕ) → contains z (drop e s).1.event_queue ≡ (contains z s.event_queue && not (z == e)))
      × ((drop e s).1.glob_time ≡ s.glob_time)
      × ((drop e s).1.counter ≡ s.counter)
unfolding drop
drop-outcome e s v = (refl, dropped-IsValid e s v, λ z. contains-dropped e s z v, refl, refl)

-- `process` in a well-formed queue before `MAXTICK`: it returns even if the event was queued, and
-- the event is then queued at the current time with the immediate priority; the other members and
-- the well-formedness stay.
pub process-outcome :
    (e : ℕ) (disp : Bool) (s : Sim)
    → IsValid s
    → s.glob_time ≢ max_tick
    → ((process e disp s).0 ≡ return tt)
      × IsValid (process e disp s).1
      × ((z : ℕ)
          → contains z (process e disp s).1.event_queue ≡ ((z == e) || contains z s.event_queue))
      × (((process e disp s).1.events e).time ≡ s.glob_time)
      × (((process e disp s).1.events e).priority ≡ immediate_priority)
process-outcome e disp s v far = rw (process_lem e disp s v far) (
  refl,
  processed-IsValid e disp s v far,
  contains-processed e disp s v far,
  ground arith,
  ground arith,
)

erase_only :
    (less : ℕ → ℕ → Bool) (x y : ℕ)
    → less y x ≡ false
    → less x y ≡ false
    → erase less x (y ∷ []) ≡ []
unfolding erase
erase_only less x y h k = rw (h, k)

module _ (e f : ℕ) (disp : Bool) (s : Sim) (ne : e ≢ f) (q : s.event_queue ≡ []) (c : s.counter ≡ 0)
    (oe : (s.events e).order ≡ 0) (te : (s.events e).time ≡ max_tick)
    (pe : (s.events e).priority ≡ (s.events f).priority) where
  alone : (posted f max_tick disp s).event_queue ≡ f ∷ []
  unfolding insert
  alone = rw q

  same_key :
      (less (posted f max_tick disp s).events f e ≡ false)
      × (less (posted f max_tick disp s).events e f ≡ false)
  unfolding cmp
  same_key =
      let x : (e == f) ≡ false = ground (arith, ==_iff e f) in
      let y : (f == f) ≡ true = ground arith in
      rw (x, y, oe, te, pe, c) (ground arith, ground arith)

-- What a posting at `MAXTICK` followed by the drop of another event leaves.
abbrev pub post_then_drop : ℕ → ℕ → Bool → Sim → Outcome (Unit {0}) × Sim
post_then_drop f e disp s = (post f max_tick disp >> drop e) s

-- The queue is searched by time, priority and number of the posting alone. The first event that is
-- ever posted, if that is at `MAXTICK`, has the key of every event of its priority that was never
-- posted: dropping (or destroying) such a one takes the posted event out of the queue, while its
-- flag still says that it is queued.
pub drop-takes_other :
    (e f : ℕ) (disp : Bool) (s : Sim)
    → e ≢ f
    → s.event_queue ≡ []
    → s.counter ≡ 0
    → s.glob_time ≤ℤ max_tick
    → (s.events f).is_in_queue ≡ false
    → (s.events e).order ≡ 0
    → (s.events e).time ≡ max_tick
    → (s.events e).priority ≡ (s.events f).priority
    → ((post_then_drop f e disp s).0 ≡ return tt)
      × ((post_then_drop f e disp s).1.event_queue ≡ [])
      × (((post_then_drop f e disp s).1.events f).is_in_queue ≡ true)
unfolding drop
drop-takes_other e f disp s ne q c p h oe te pe =
    let (x, y) = same_key e f disp s ne q c oe te pe in
    rw (post_succeeds f max_tick disp s h p (inserted q)) (
      refl,
      ap (erase (less (posted f max_tick disp s).events) e) (alone e f disp s ne q c oe te pe)
          ∙ erase_only (less (posted f max_tick disp s).events) e f x y,
      ground (arith, ==_iff f e),
    )
  where
    inserted :
        s.event_queue ≡ [] → (insert (less (keyed_events f max_tick s)) f s.event_queue).1 ≡ true
    inserted z =
        insert-Apart (less (keyed_events f max_tick s)) f s.event_queue
          (subst (λ l. Apart (less (keyed_events f max_tick s)) f l) (sym z) tt)
