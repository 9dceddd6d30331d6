-- ===== src/SporadicServer/Balance.antt =====
-- The budget of a sporadic server: what it may use now, what it may use when that is used up, and
-- what comes back later.
use partsim.Prelude.{
  ℕ, ◌<◌, ◌≡◌, ◌≢◌, refl, ◌∙◌, arith, Bool, true, false, not, ◌||◌, ◌&&◌, List, [], ◌∷◌, ◌++◌,
  length, length-append, ◌==◌, inl, inr, Bool-cases,
}
use partsim.Prelude.Int.{pos, ◌+ℤ◌, ◌-ℤ◌, int_laws}
use partsim.Prelude.Action.{
  Outcome, return, throw, then_on, pure, Leaves, Leaves-holds, Leaves-intro,
}
use partsim.Tick.{Tick}
use partsim.Event.{Sim, post, drop, set_time, take_order, enqueue}
use partsim.CapacityTimer.{Doubles, CapacityTimer, stop}
use partsim.CbServer.{ServerStatus}
use partsim.SporadicServer.{
  SporadicServer, SporadicEvents, Replenishment, is_contending, executed, credit, check_repl,
  post_front, on_vtime, on_sim, now, start_vtime, stop_vtime,
}
use partsim.SporadicServer.Queues.{amount, amount-append, add_last_lem}

abbrev pub total : {D A : Type 0} → SporadicServer D A → Tick
total s = s.cap +ℤ amount s.capacity_queue +ℤ amount s.repl_queue

abbrev pub is_queued : ℕ → Sim → Bool
is_queued e s = (s.events e).is_in_queue

-- `post` that returns has queued its event, and no other.
pub post_flags :
    (e z : ℕ) (t : Tick) (s : Sim)
    → Leaves (λ s'. is_queued z s' ≡ ((z == e) || is_queued z s)) (post e t false s)
unfolding post set_time take_order enqueue
post_flags e z t s = ground arith

pub drop_flags : (e z : ℕ) (s : Sim) → is_queued z (drop e s).1 ≡ (not (z == e) && is_queued z s)
unfolding drop
drop_flags e z s = ground arith

pub record IsAccounted {D A : Type 0} (evt : SporadicEvents) (s : SporadicServer D A) : Type 0 where
  pub balance : total s ≡ s.q
  pub current : is_contending s.status ≡ true → 0 < length s.repl_queue
  pub behind :
      is_contending s.status ≡ true → is_queued evt.repl s.sim ≡ true → 1 < length s.repl_queue
  pub waiting : is_queued evt.repl s.sim ≡ true → 0 < length s.repl_queue

pub full :
    (xs : List Replenishment)
    → 0 < length xs
    → (r : Replenishment) × (rs : List Replenishment) × (xs ≡ r ∷ rs)
full [] h = elim h [ ]
full (x ∷ xs) h = (x, xs, refl)

pub moved : (c d a b : Tick) → c -ℤ d +ℤ a +ℤ (b +ℤ d) ≡ c +ℤ a +ℤ b
moved c d a b = omega int_laws

ignored : {S A B : Type 0} (b : B) (r : Outcome A) (s : S) → (then_on r (λ _. pure b) s).1 ≡ s
ignored b (return a) s = refl
ignored b (throw e) s = refl

-- What `credit` makes of a queue that is not empty.
pub credit_lem :
    {D A : Type 0} (s : SporadicServer D A)
    → 0 < length s.repl_queue
    → (ys : List Replenishment) × (credit s ≡ (return tt, record s { repl_queue = ys }))
      × (amount ys ≡ amount s.repl_queue +ℤ executed s)
      × (length ys ≡ length s.repl_queue)
unfolding credit
credit_lem s h =
    let (r, rs, e) = full s.repl_queue h in
    let (ys, added, sum, size) = add_last_lem (executed s) r rs in
    (ys, rw (e, added) refl, rw (e, sum) refl, rw (e, size) refl)

pub post_ends :
    {D A : Type 0} (evt : SporadicEvents) (P : SporadicServer D A → Type 0) (s : SporadicServer D A)
    (e : ℕ) (t : Tick)
    → evt.repl ≢ e
    → ((sim : Sim) → is_queued evt.repl sim ≡ is_queued evt.repl s.sim → P (record s { sim = sim }))
    → Leaves P (on_sim (post e t false) s)
post_ends evt P s e t apart next = Leaves-intro P (on_sim (post e t false) s) (λ a h.
    let flag =
      Leaves-holds
        (λ (x : Sim). is_queued evt.repl x ≡ ((evt.repl == e) || is_queued evt.repl s.sim))
        (post e t false s.sim) h (post_flags e evt.repl t s.sim) in
    next (post e t false s.sim).1 (ground (arith, flag)))

pub stop_ends :
    {D A : Type 0} (num : Doubles D) (P : SporadicServer D A → Type 0) (s : SporadicServer D A)
    → ((t : CapacityTimer D) → P (record s { vtime = t }))
    → Leaves P (stop_vtime num s)
stop_ends num P s next = Leaves-intro P (stop_vtime num s) (λ a e.
    rw (ignored tt (on_vtime (stop num (now s)) s).0 (on_vtime (stop num (now s)) s).1) (next _))

pub start_ends :
    {D A : Type 0} (num : Doubles D) (P : SporadicServer D A → Type 0) (s : SporadicServer D A)
    (budget : Tick)
    → ((t : CapacityTimer D) → P (record s { vtime = t }))
    → Leaves P (start_vtime num budget s)
start_ends num P s budget next = Leaves-intro P (start_vtime num budget s) (λ a e. next _)

pub check_repl_ends :
    {D A : Type 0} (evt : SporadicEvents) (P : SporadicServer D A → Type 0) (s : SporadicServer D A)
    → (is_queued evt.repl s.sim ≡ true → 0 < length s.repl_queue)
    → ((sim : Sim)
        → (is_queued evt.repl sim ≡ true → 0 < length s.repl_queue)
        → P (record s { sim = sim }))
    → Leaves P (check_repl evt s)
unfolding check_repl
check_repl_ends evt P s waiting next = elim (Bool-cases (is_queued evt.repl s.sim)) [
  | inl queued ↦ rw queued (next s.sim waiting)
  | inr free ↦ rw free (front_ends s.repl_queue (λ h. h))
]
  where
    front_ends :
        (rs : List Replenishment)
        → (0 < length rs → 0 < length s.repl_queue)
        → Leaves P (post_front evt rs s)
    front_ends [] h = next s.sim waiting
    front_ends ((t, b) ∷ rs) h =
        Leaves-intro P (on_sim (post evt.repl t false) s) (λ a e. next _ (λ _. h (omega arith)))

-- A replenishment of nothing yet, at the end of the queue.
pub append-IsAccounted :
    {D A : Type 0} (evt : SporadicEvents) (s : SporadicServer D A) (t : Tick) (st : ServerStatus)
    → total s ≡ s.q
    → (is_queued evt.repl s.sim ≡ true → 0 < length s.repl_queue)
    → IsAccounted evt (record s { status = st; repl_queue = s.repl_queue ++ (t, pos 0) ∷ [] })
append-IsAccounted evt s t st balance waiting =
    let size = length-append s.repl_queue ((t, pos 0) ∷ []) in
    record {
      balance = rw (amount-append s.repl_queue t (pos 0)) (omega int_laws) ∙ balance;
      current = λ _. omega (arith, size);
      behind = λ _ h. let more = waiting h in omega (arith, size, more);
      waiting = λ _. omega (arith, size);
    }

-- A server that does not contend.
pub rest-IsAccounted :
    {D A : Type 0} (evt : SporadicEvents) (s : SporadicServer D A)
    → is_contending s.status ≡ false
    → total s ≡ s.q
    → (is_queued evt.repl s.sim ≡ true → 0 < length s.repl_queue)
    → IsAccounted evt s
rest-IsAccounted evt s out balance waiting = record {
  balance = balance;
  current = λ h. absurd (cc);
  behind = λ h _. absurd (cc);
  waiting = waiting;
}
