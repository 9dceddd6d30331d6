-- ===== src/RoundRobin/Examples.antt =====
-- Two models of round robin with slices of 3 and 5, and the time 3, at which the first one ends.
use partsim.Prelude.{Bool, true, false, some, [], ◌∷◌, ◌==◌, if◌then◌else◌}
use partsim.Prelude.Int.{pos}
use partsim.Prelude.Action.{modify}
use partsim.Event.{Sim}
use partsim.Event.Examples.{initial}
use partsim.Scheduler.{Scheduler, rr, new_model}
use partsim.Scheduler.Examples.{two_tasks}
use partsim.RoundRobin.{RrScheduler, RrWorld}

abbrev at_three : Sim
at_three = record initial { glob_time = pos 3 }

-- Task 1 has model 11 and task 2 model 12; both are ready.
abbrev in_turns : Scheduler
in_turns = record {
  models = λ m.
      if m == 11
      then record (new_model 1 (rr (pos 3))) { active = true }
      else record (new_model 2 (rr (pos 5))) { active = true };
  queue = 11 ∷ 12 ∷ [];
  tasks = (1, 11) ∷ (2, 12) ∷ [];
  curr_exe = some 1;
}

abbrev turns : RrScheduler Bool
turns = record {
  sim = at_three;
  sched = in_turns;
  default_slice = pos 3;
  enabled = true;
  has_kernel = true;
  rest = false;
}

-- The rest is whether a dispatch was asked for.
abbrev noting : RrWorld Bool
noting = record { task = λ a. two_tasks; dispatch = modify (λ r. record r { rest = true }) }
