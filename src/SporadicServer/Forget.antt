-- ===== src/SporadicServer/Forget.antt =====
-- `changeBudget` drops the replenishment of a server that has not executed yet.
use partsim.Prelude.{◌<◌, length, ◌≡◌, refl, ap, ◌∙◌, arith, true, false, List, [], ◌∷◌}
use partsim.Prelude.Int.{pos, ◌≤ℤ◌, ◌<ℤ◌, ltb_ℤ, eqb_ℤ, int_laws}
use partsim.Prelude.Action.{return, throw, null_dereference}
use partsim.Tick.{Tick}
use partsim.Event.{drop}
use partsim.CapacityTimer.{Doubles, is_stopped, stop}
use partsim.CbServer.{is_executing}
use partsim.SporadicServer.{SporadicServer, SporadicEvents, Replenishment, executing_ready, credit}
use partsim.SporadicServer.Queues.{amount}
use partsim.SporadicServer.Balance.{total, is_queued}
use partsim.SporadicServer.Budget.{cut, drop_empty, sporadic_change_budget}
use partsim.SporadicServer.Cut.{IsFair}
use partsim.SporadicServer.Smaller.{changed, rest_coming, enough, shrink_lem}

fresh-total :
    {D A : Type 0} (s : SporadicServer D A) (t : Tick)
    → s.repl_queue ≡ (t, pos 0) ∷ []
    → s.capacity_queue ≡ []
    → s.cap ≡ s.q
    → total s ≡ s.q
fresh-total s t q c cap = rw (q, c, cap) (omega int_laws)

forgotten :
    (d : Tick) (queue : List Replenishment) (t : Tick)
    → queue ≡ (t, pos 0) ∷ []
    → (pos 0 ≤ℤ d) × (d ≤ℤ amount queue)
    → drop_empty (cut d queue).1 ≡ []
unfolding cut drop_empty
forgotten d queue t q (low, high) =
    let zero_left : d ≡ pos 0 = omega (int_laws, low, rw q at high) in rw (zero_left, q) refl

undefined_back :
    {D A : Type 0} (num : Doubles D) (evt : SporadicEvents) (s : SporadicServer D A)
    → s.repl_queue ≡ []
    → is_stopped s.vtime.status ≡ false
    → (executing_ready num evt s).0 ≡ throw null_dereference
unfolding executing_ready credit stop drop
undefined_back num evt s empty ticking = rw (ticking, empty) refl

-- A ready server that has not executed since it woke, with all its budget in its capacity, whose
-- replenishment event is not queued, gets the budget `n` with 0 < `n` < `q`: the change returns and
-- drops the replenishment that it would add its use to. When such a server has executed and is
-- preempted, with its timer running, it adds to the last one of an empty list, which is undefined.
pub change_budget-forgets :
    {D A : Type 0} (num : Doubles D) (evt : SporadicEvents) (s later : SporadicServer D A)
    (n t : Tick)
    → is_executing s.status ≡ false
    → is_queued evt.repl s.sim ≡ false
    → s.repl_queue ≡ (t, pos 0) ∷ []
    → s.capacity_queue ≡ []
    → s.cap ≡ s.q
    → pos 0 <ℤ n
    → n <ℤ s.q
    → later.repl_queue ≡ (sporadic_change_budget num evt n s).1.repl_queue
    → is_stopped later.vtime.status ≡ false
    → (u : Tick) × ((sporadic_change_budget num evt n s).0 ≡ return u)
      × ((sporadic_change_budget num evt n s).1.repl_queue ≡ [])
      × ((executing_ready num evt later).0 ≡ throw null_dereference)
unfolding sporadic_change_budget
change_budget-forgets num evt s later n t still free q c cap some_budget less same ticking =
    let whole = fresh-total s t q c cap in
    let passed : IsFair s.capacity_queue = rw c tt in
    let coming : IsFair s.repl_queue = rw q (omega arith, tt) in
    let room : pos 0 ≤ℤ s.cap = rw cap (omega (arith, some_budget, less)) in
    let long : 0 < length s.repl_queue = rw q (omega arith) in
    let (u, done) =
      shrink_lem s n whole some_budget less room passed coming num evt still free long in
    let not_more : ltb_ℤ s.q n ≡ false = ground arith in
    let not_same : eqb_ℤ n s.q ≡ false = ground arith in
    let not_zero : ltb_ℤ (pos 0) n ≡ true = ground arith in
    let all : sporadic_change_budget num evt n s
        ≡ (return u, changed s n whole some_budget less room passed coming) =
      rw (not_more, not_same, not_zero) done in
    let gone : (sporadic_change_budget num evt n s).1.repl_queue ≡ [] =
      ap (λ r. r.1.repl_queue) all
      ∙ forgotten (rest_coming s n whole some_budget less room passed coming) s.repl_queue t q
          (enough s n whole some_budget less room passed coming) in
    (u, ap (λ r. r.0) all, gone, undefined_back num evt later (same ∙ gone) ticking)
