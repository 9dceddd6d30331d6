-- ===== src/SporadicServer/Examples.antt =====
-- A server with a budget of 4 in a period of 10.
use partsim.Prelude.{◌≡◌, refl, arith, ◌++◌, true, false, none, [], ◌∷◌}
use partsim.Prelude.Int.{ℤ, pos, ◌+ℤ◌, ◌-ℤ◌, ◌≤ℤ◌}
use partsim.Prelude.Action.{return, throw, null_dereference, pure}
use partsim.Tick.{Tick}
use partsim.Event.{drop}
use partsim.Event.Examples.{initial, initial-IsValid, not_max_sum}
use partsim.CapacityTimer.{new_timer, set_value, stop}
use partsim.CapacityTimer.Examples.{integers}
use partsim.CbServer.{idle, ready}
use partsim.SporadicServer.{
  SporadicServer, SporadicEvents, idle_ready, ready_executing, executing_ready,
  prepare_replenishment, credit,
}
use partsim.SporadicServer.Handlers.{SporadicWorld}
use partsim.SporadicServer.Balance.{total, is_queued, IsAccounted}
use partsim.SporadicServer.Budget.{sporadic_change_budget}
use partsim.SporadicServer.Cut.{IsFair}
use partsim.SporadicServer.Replenish.{IsDetached}
use partsim.SporadicServer.Reach.{here, next, wakes, runs, preempted, outside, Reaches-IsAccounted}
use partsim.SporadicServer.Slice.{at, started, ready_executing_lem, slice-moves_budget}
use partsim.SporadicServer.Smaller.{change_budget-total}
use partsim.SporadicServer.Forget.{change_budget-forgets}

abbrev evts : SporadicEvents
evts = record { band_ex = 0; repl = 1; idle_evt = 2 }

abbrev world : SporadicWorld ℤ (Unit {0})
world = record { has_first = λ _. true; notify_null = pure tt; kernel_on_arrival = pure tt }

world-IsDetached : IsDetached world evts
world-IsDetached s = record { members = refl; event = refl }

abbrev at_rest : SporadicServer ℤ (Unit {0})
at_rest = record {
  sim = initial;
  vtime = new_timer integers;
  status = idle;
  q = pos 4;
  p = pos 10;
  cap = pos 4;
  last_time = pos 0;
  recharging_time = pos 0;
  repl_queue = [];
  capacity_queue = [];
  curr_exe = none;
  rest = tt;
}

at_rest-IsAccounted : IsAccounted evts at_rest
unfolding ◌+ℤ◌
at_rest-IsAccounted = record {
  balance = refl;
  current = λ h. absurd (cc);
  behind = λ h. absurd (cc);
  waiting = λ h. absurd (cc);
}

-- It has woken, and not executed.
abbrev awake : SporadicServer ℤ (Unit {0})
awake = record at_rest { status = ready; repl_queue = (pos 10, pos 0) ∷ [] }

woken : idle_ready integers at_rest ≡ (return tt, awake)
unfolding idle_ready set_value prepare_replenishment ◌+ℤ◌
woken = refl

abbrev running_now : SporadicServer ℤ (Unit {0})
running_now =
    started integers evts awake initial-IsValid refl refl (omega arith)
      (not_max_sum 0 4 (omega arith))

started_now : ready_executing integers evts awake ≡ (return tt, running_now)
started_now =
    ready_executing_lem integers evts awake initial-IsValid refl refl (omega arith)
      (not_max_sum 0 4 (omega arith))

-- At the time 3.
abbrev used : SporadicServer ℤ (Unit {0})
used = (executing_ready integers evts (at (pos 3) running_now)).1

used_lem : executing_ready integers evts (at (pos 3) running_now) ≡ (return tt, used)
unfolding executing_ready stop credit drop
used_lem = refl

Reaches-IsAccounted_example : IsAccounted evts used
Reaches-IsAccounted_example =
    Reaches-IsAccounted integers evts world world-IsDetached (omega arith) (omega arith)
      at_rest-IsAccounted
      (next
        (next (next (next here (wakes refl refl woken)) (runs refl started_now))
          (outside (record { members = refl; event = refl })))
        (preempted refl used_lem))

in_time : pos 3 ≤ℤ pos 0 +ℤ pos 4
unfolding ◌+ℤ◌
in_time = omega arith

-- It has woken while 3 units that it used have not come back.
abbrev twice : SporadicServer ℤ (Unit {0})
twice = record awake { repl_queue = (pos 8, pos 3) ∷ (pos 10, pos 0) ∷ [] }

slice-moves_budget_example :
    let s1 = (ready_executing integers evts twice).1 in
    let s2 = (executing_ready integers evts (at (pos 3) s1)).1 in
    ((ready_executing integers evts twice).0 ≡ return tt)
    × (is_queued 0 s1.sim ≡ true)
    × ((s1.sim.events 0).time ≡ pos 0 +ℤ pos 4)
    × ((executing_ready integers evts (at (pos 3) s1)).0 ≡ return tt)
    × (is_queued 0 s2.sim ≡ false)
    × (s2.cap ≡ pos 4 -ℤ (pos 3 -ℤ pos 0))
    × (pos 0 ≤ℤ s2.cap)
    × (s2.repl_queue ≡ ((pos 8, pos 3) ∷ []) ++ (pos 10, pos 0 +ℤ (pos 3 -ℤ pos 0)) ∷ [])
slice-moves_budget_example =
    slice-moves_budget integers evts twice (pos 3) initial-IsValid refl refl (omega arith)
      (not_max_sum 0 4 (omega arith)) ((pos 8, pos 3) ∷ []) (pos 10) (pos 0) refl (omega arith)
      in_time

-- It went idle before the 3 units that it used came back.
abbrev early : SporadicServer ℤ (Unit {0})
early = record at_rest { cap = pos 1; repl_queue = (pos 10, pos 3) ∷ [] }

early_total : total early ≡ pos 4
unfolding ◌+ℤ◌
early_total = refl

change_budget-total_example :
    let s' = (sporadic_change_budget integers evts (pos 2) early).1 in
    (t : Tick) × ((sporadic_change_budget integers evts (pos 2) early).0 ≡ return t)
    × (total s' ≡ pos 2)
    × (s'.q ≡ pos 2)
    × (pos 0 ≤ℤ s'.cap)
    × (s'.cap ≤ℤ pos 1)
    × IsFair s'.capacity_queue
    × IsFair s'.repl_queue
change_budget-total_example =
    change_budget-total integers evts early (pos 2) refl refl (omega arith) early_total
      (omega arith) (omega arith) (omega arith) tt (omega arith, tt)

-- A server that executes with the replenishments that the change leaves.
abbrev no_repl : SporadicServer ℤ (Unit {0})
no_repl = record running_now {
  repl_queue = (sporadic_change_budget integers evts (pos 2) awake).1.repl_queue;
}

change_budget-forgets_example :
    (u : Tick) × ((sporadic_change_budget integers evts (pos 2) awake).0 ≡ return u)
    × ((sporadic_change_budget integers evts (pos 2) awake).1.repl_queue ≡ [])
    × ((executing_ready integers evts no_repl).0 ≡ throw null_dereference)
change_budget-forgets_example =
    change_budget-forgets integers evts awake no_repl (pos 2) (pos 10) refl refl refl refl refl
      (omega arith) (omega arith) refl refl
