-- ===== src/CbServer/Examples.antt =====
-- A server with a budget of 3 in every 10 ticks. The numbers of its timer are integers here.
use partsim.Prelude.{
  ℕ, ◌^◌, ◌-◌, ◌≡◌, ◌≢◌, refl, sym, subst, ◌∙◌, arith, true, false, ◌||◌, ◌==◌, none,
}
use partsim.Prelude.Int.{ℤ, pos, ◌+ℤ◌, ◌≤ℤ◌}
use partsim.Prelude.Action.{Action, Outcome, return, pure}
use partsim.PriorityList.Order.{contains}
use partsim.Event.Post.{posted, contains-posted}
use partsim.Event.Examples.{initial, initial-IsValid, not_max, not_max_sum}
use partsim.Scheduler.Examples.{two_tasks, one_ready}
use partsim.CapacityTimer.Examples.{integers}
use partsim.CapacityTimer.{TimerStatus, stopped, running}
use partsim.CbServer.{
  CbServer, ServerStatus, ServerEvents, ready, executing, original, ready_executing,
  executing_ready, executing_recharging,
}
use partsim.CbServer.Handlers.{Surroundings}
use partsim.CbServer.Budget.{Recharged, executing_recharging-outcome}
use partsim.CbServer.Slice.{Preempted, at, ready_executing_lem, slice-outcome}

abbrev evts : ServerEvents
evts = record {
  band_ex = 21;
  dline_miss = 22;
  recharging_evt = 23;
  sched_evt = 24;
  desched_evt = 25;
  dispatch_evt = 26;
  repl = 27;
  idle_evt = 28;
}

abbrev Server : Type 0
Server = CbServer ℤ (Unit {0})

abbrev nothing : Action Server (Unit {0})
nothing = pure tt

abbrev around : Surroundings ℤ (Unit {0})
around = record {
  kernel_activate = nothing;
  kernel_on_arrival = nothing;
  kernel_suspend = nothing;
  kernel_dispatch = nothing;
  has_processor = λ s. true;
  schedule = λ t. nothing;
  deschedule = λ t. nothing;
  task = λ a. two_tasks;
  is_empty = λ s. false;
}

abbrev server_of : ServerStatus → TimerStatus → Server
server_of x timer = record {
  sim = initial;
  sched = one_ready;
  vtime = record { last_time = pos 0; value = pos 0; status = timer; der = pos 1 };
  status = x;
  q = pos 3;
  p = pos 10;
  d = pos 10;
  cap = pos 3;
  last_time = pos 0;
  hr = false;
  idle_policy = original;
  abs_dline = pos 10;
  arr = pos 0;
  last_arr = pos 0;
  dline = pos 0;
  last_exec_time = pos 0;
  curr_exe = none;
  killed = false;
  yielding = false;
  rest = tt;
}

executing_recharging-outcome_example :
    ((executing_recharging integers evts (server_of executing running)).0 ≡ return tt)
    × Recharged evts
        (server_of executing running)
        (executing_recharging integers evts (server_of executing running)).1
executing_recharging-outcome_example =
    executing_recharging-outcome integers evts (server_of executing running) initial-IsValid refl
      refl (omega arith) (not_max 0 (omega arith)) (not_max 10 (omega arith))

abbrev waiting : Server
waiting = server_of ready stopped

exhausts_at : pos 0 +ℤ pos 3 ≢ pos (2 ^ 63 - 1)
exhausts_at = not_max_sum 0 3 (omega arith)

-- The only event that is queued is the exhaustion, at time 3.
two_unpassed :
    (z : ℕ)
    → contains z (ready_executing integers evts waiting).1.sim.event_queue ≡ true
    → pos 2 ≤ℤ ((ready_executing integers evts waiting).1.sim.events z).time
unfolding ◌+ℤ◌
two_unpassed =
    subst
      (λ (r : Outcome (Unit {0}) × Server).
        (z : ℕ) → contains z r.1.sim.event_queue ≡ true → pos 2 ≤ℤ (r.1.sim.events z).time)
      (sym (
        ready_executing_lem integers evts waiting initial-IsValid refl refl (omega arith)
          exhausts_at))
      only
  where
    only :
        (z : ℕ)
        → contains z (posted 21 (pos 0 +ℤ pos 3) false initial).event_queue ≡ true
        → pos 2 ≤ℤ ((posted 21 (pos 0 +ℤ pos 3) false initial).events z).time
    only z c =
        let m =
          contains-posted 21 (pos 0 +ℤ pos 3) false initial z initial-IsValid refl exhausts_at in
        let either : ((z == 21) || contains z initial.event_queue) ≡ true = sym m ∙ c in
        let here : (z == 21) ≡ true = ground arith in rw here (omega arith)

slice-outcome_example :
    ((ready_executing integers evts waiting).0 ≡ return tt)
    × ((executing_ready integers evts (at (pos 2) (ready_executing integers evts waiting).1)).0
        ≡ return tt)
    × Preempted evts
        (pos 2)
        waiting
        (executing_ready integers evts (at (pos 2) (ready_executing integers evts waiting).1)).1
slice-outcome_example =
    slice-outcome integers evts waiting (pos 2) initial-IsValid refl refl (omega arith) exhausts_at
      two_unpassed
