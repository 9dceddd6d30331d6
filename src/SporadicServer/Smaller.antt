-- ===== src/SporadicServer/Smaller.antt =====
-- `changeBudget` to a smaller budget, of a server that does not execute.
use partsim.Prelude.{
  ◌<◌, length, ◌≡◌, refl, ap, arith, true, false, List, [], ◌∷◌, inl, inr, Bool-cases,
}
use partsim.Prelude.Int.{pos, ◌+ℤ◌, ◌-ℤ◌, ◌≤ℤ◌, ◌<ℤ◌, ltb_ℤ, eqb_ℤ, int_laws, pos_part, neg_part}
use partsim.Prelude.Action.{return}
use partsim.Tick.{Tick}
use partsim.CapacityTimer.{Doubles}
use partsim.CbServer.{is_executing}
use partsim.SporadicServer.{SporadicServer, SporadicEvents, Replenishment}
use partsim.SporadicServer.Queues.{amount}
use partsim.SporadicServer.Balance.{total, is_queued}
use partsim.SporadicServer.Budget.{
  min, cut, last_repl_time, drop_empty, trim_repl, cut_queues, shrink, sporadic_change_budget,
}
use partsim.SporadicServer.Cut.{
  IsFair, min_bounds, min_attained, amount_nonneg, amount-cut, amount-drop_empty, cut-IsFair,
  cut_enough, cut_spent, drop_empty-IsFair,
}

trim_repl_lem :
    {D A : Type 0} (evt : SporadicEvents) (rs : List Replenishment) (s : SporadicServer D A)
    → is_queued evt.repl s.sim ≡ false
    → s.repl_queue ≡ rs
    → trim_repl evt rs s ≡ (return tt, record s { repl_queue = drop_empty rs })
unfolding trim_repl drop_empty
trim_repl_lem evt [] s free e =
    ap (λ (l : List Replenishment). (return tt, record s { repl_queue = l })) e
trim_repl_lem evt ((t, b) ∷ rs) s free e = elim (Bool-cases (eqb_ℤ b (pos 0))) [
  | inl none_left ↦
      rw (none_left, free) (trim_repl_lem evt rs (record s { repl_queue = rs }) free refl)
  | inr some_left ↦
      rw some_left (ap (λ (l : List Replenishment). (return tt, record s { repl_queue = l })) e)
]

cut_queues_lem :
    {D A : Type 0} (d : Tick) (queue : List Replenishment) (s : SporadicServer D A)
    → 0 < length queue
    → (cut d queue).0 ≡ pos 0
    → (t : Tick) × (cut_queues d queue s ≡ (return t, record s { repl_queue = (cut d queue).1 }))
cut_queues_lem d [] s h zero_left = elim h [ ]
cut_queues_lem d ((t, b) ∷ rs) s h zero_left = (last_repl_time t d ((t, b) ∷ rs), rw zero_left refl)

module _ {D A : Type 0} (s : SporadicServer D A) (n : Tick) (balance : total s ≡ s.q)
    (some_budget : pos 0 <ℤ n) (less : n <ℤ s.q) (room : pos 0 ≤ℤ s.cap)
    (passed : IsFair s.capacity_queue) (coming : IsFair s.repl_queue) where
  abbrev pub delta : Tick
  delta = s.q -ℤ n

  abbrev pub from_cap : Tick
  from_cap = min delta s.cap

  abbrev pub rest_passed : Tick
  rest_passed = delta -ℤ from_cap

  abbrev pub rest_coming : Tick
  rest_coming = (cut rest_passed s.capacity_queue).0

  pub enough : (pos 0 ≤ℤ rest_coming) × (rest_coming ≤ℤ amount s.repl_queue)
  enough =
      let (x, y) = min_bounds delta s.cap in
      let attained = min_attained delta s.cap in
      let held = amount_nonneg s.repl_queue coming in
      let held' = amount_nonneg s.capacity_queue passed in
      let (low, spent) = cut_spent rest_passed s.capacity_queue passed (omega (int_laws, x)) in
      let kept = ap pos_part (amount-cut rest_passed s.capacity_queue) in
      let kept' = ap neg_part (amount-cut rest_passed s.capacity_queue) in
      let whole = ap pos_part balance in
      let whole' = ap neg_part balance in
      (
        low,
        omega
            (int_laws, attained, held, held', spent, kept, kept', whole, whole', less, some_budget),
      )

  total_cut :
      s.cap
        -ℤ from_cap
        +ℤ amount (cut rest_passed s.capacity_queue).1
        +ℤ amount (cut rest_coming s.repl_queue).1
      ≡ n
  total_cut =
      let a = ap pos_part (amount-cut rest_passed s.capacity_queue) in
      let a' = ap neg_part (amount-cut rest_passed s.capacity_queue) in
      let b = ap pos_part (amount-cut rest_coming s.repl_queue) in
      let b' = ap neg_part (amount-cut rest_coming s.repl_queue) in
      let (low, high) = enough in
      let c = ap pos_part (cut_enough rest_coming s.repl_queue coming low high) in
      let c' = ap neg_part (cut_enough rest_coming s.repl_queue coming low high) in
      let whole = ap pos_part balance in
      let whole' = ap neg_part balance in omega (int_laws, a, a', b, b', c, c', whole, whole')

  -- The server after the loops, and after the change.
  abbrev pub loops_done : SporadicServer D A
  loops_done = record s {
    cap = s.cap -ℤ from_cap;
    capacity_queue = (cut rest_passed s.capacity_queue).1;
    repl_queue = (cut rest_coming s.repl_queue).1;
  }

  abbrev pub changed : SporadicServer D A
  changed = record loops_done {
    q = n;
    capacity_queue = drop_empty loops_done.capacity_queue;
    repl_queue = drop_empty loops_done.repl_queue;
  }

  pub shrink_lem :
      (num : Doubles D) (evt : SporadicEvents)
      → is_executing s.status ≡ false
      → is_queued evt.repl s.sim ≡ false
      → 0 < length s.repl_queue
      → (t : Tick) × (shrink num evt n s ≡ (return t, changed))
  unfolding shrink
  shrink_lem num evt still free long =
      let (low, high) = enough in
      let (t, cuts) =
        cut_queues_lem rest_coming s.repl_queue
          (record s {
            cap = s.cap -ℤ from_cap;
            capacity_queue = (cut rest_passed s.capacity_queue).1;
          })
          long (cut_enough rest_coming s.repl_queue coming low high) in
      (
        t,
        rw
            (
              still,
              cuts,
              trim_repl_lem evt loops_done.repl_queue
                  (record loops_done {
                    q = n;
                    capacity_queue = drop_empty loops_done.capacity_queue;
                  })
                  free refl,
              still,
            )
            refl,
      )

-- A server that does not execute, whose replenishment event is not queued, whose capacity, passed
-- replenishments and coming ones are not negative and hold its budget `q` together, and that has a
-- coming one, gets the budget `n` with 0 < `n` < `q`. The change returns; the server then has the
-- budget `n`, of which capacity and replenishments hold exactly `n` together; the capacity is not
-- negative and not larger than before, and no replenishment is negative.
pub change_budget-total :
    {D A : Type 0} (num : Doubles D) (evt : SporadicEvents) (s : SporadicServer D A) (n : Tick)
    → is_executing s.status ≡ false
    → is_queued evt.repl s.sim ≡ false
    → 0 < length s.repl_queue
    → total s ≡ s.q
    → pos 0 <ℤ n
    → n <ℤ s.q
    → pos 0 ≤ℤ s.cap
    → IsFair s.capacity_queue
    → IsFair s.repl_queue
    → let s' = (sporadic_change_budget num evt n s).1 in
      (t : Tick) × ((sporadic_change_budget num evt n s).0 ≡ return t)
      × (total s' ≡ n)
      × (s'.q ≡ n)
      × (pos 0 ≤ℤ s'.cap)
      × (s'.cap ≤ℤ s.cap)
      × IsFair s'.capacity_queue
      × IsFair s'.repl_queue
unfolding sporadic_change_budget
change_budget-total num evt s n still free long balance some_budget less room passed coming =
    let (t, done) =
      shrink_lem s n balance some_budget less room passed coming num evt still free long in
    let not_more : ltb_ℤ s.q n ≡ false = ground arith in
    let not_same : eqb_ℤ n s.q ≡ false = ground arith in
    let not_zero : ltb_ℤ (pos 0) n ≡ true = ground arith in
    let passed' =
      (cut (rest_passed s n balance some_budget less room passed coming) s.capacity_queue).1 in
    let coming' =
      (cut (rest_coming s n balance some_budget less room passed coming) s.repl_queue).1 in
    let (x, y) = min_bounds (s.q -ℤ n) s.cap in
    let attained = min_attained (s.q -ℤ n) s.cap in
    rw (not_more, not_same, not_zero, done)
      (
        t,
        refl,
        rw (amount-drop_empty passed', amount-drop_empty coming')
            (total_cut s n balance some_budget less room passed coming),
        refl,
        omega (int_laws, y),
        omega (int_laws, attained, room, less),
        drop_empty-IsFair passed' (
            cut-IsFair (rest_passed s n balance some_budget less room passed coming)
              s.capacity_queue passed),
        drop_empty-IsFair coming' (
            cut-IsFair (rest_coming s n balance some_budget less room passed coming) s.repl_queue
              coming),
      )
