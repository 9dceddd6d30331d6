-- ===== src/Task/Examples.antt =====
-- A task with one instruction and a relative deadline of 8. The end of the instruction is event 50,
-- which it posts 5 ticks ahead when it is scheduled, and drops when it is descheduled or reset.
use partsim.Prelude.{ℕ, ◌≡◌, ◌==◌, refl, arith, Bool, true, false, some, List, [], ◌∷◌}
use partsim.Prelude.Int.{ℤ, pos, ◌+ℤ◌}
use partsim.Prelude.Action.{Action, return, pure}
use partsim.Tick.{Tick}
use partsim.Event.Order.{IsValid}
use partsim.Event.Examples.{initial, initial-IsValid, not_max, not_max_sum}
use partsim.Event.{Sim, post, drop}
use partsim.Event.Drop.{dropped-IsValid, contains-dropped}
use partsim.Event.Post.{posted}
use partsim.Task.{
  on_sim, Task, TaskState, TaskEvents, TaskWorld, tsk_idle, tsk_ready, tsk_exec, handle_arrival,
  new_run,
}
use partsim.Task.Arrivals.{Acted, IsInner, ArrivalOutcome, handle_arrival-outcome, new_run-outcome}

abbrev evts : TaskEvents
evts = record {
  arr_evt = 31;
  end_evt = 32;
  sched_evt = 33;
  desched_evt = 34;
  fake_arr_evt = 35;
  kill_evt = 36;
  dead_evt = 37;
}

abbrev nothing : Action (Task (Unit {0})) (Unit {0})
nothing = pure tt

abbrev its_end : ℕ → Bool
its_end z = z == 50

abbrev drops_end : ℕ → Action (Task (Unit {0})) (Unit {0})
drops_end _ = on_sim (drop 50)

abbrev posts_end : ℕ → Action (Task (Unit {0})) (Unit {0})
posts_end _ s = on_sim (post 50 (s.sim.glob_time +ℤ pos 5) false) s

abbrev world : TaskWorld (Unit {0})
world = record {
  kernel_suspend = nothing;
  kernel_dispatch = nothing;
  kernel_on_arrival = nothing;
  kernel_on_end = nothing;
  next_int_time = pure (pos 5);
  instr_reset = drops_end;
  instr_schedule = posts_end;
  instr_deschedule = drops_end;
  instr_exec_time = λ s i. pos 1;
  notify_feedback = λ t. nothing;
  set_workload = nothing;
  set_idle_workload = nothing;
  has_cpu = λ s. true;
  has_old_cpu = λ s. true;
}

drops_end-Acted : (i : ℕ) (s : Task (Unit {0})) → IsValid s.sim → Acted its_end s (drops_end i s)
unfolding drop
drops_end-Acted i s v = record {
  returned = refl;
  members = refl;
  valid = dropped-IsValid 50 s.sim v;
  clock = refl;
  queue = λ z h. let c = contains-dropped 50 s.sim z v in ground (arith, c);
}

drops_end-IsInner : IsInner its_end drops_end
drops_end-IsInner = record { acts = drops_end-Acted }

abbrev task_of : TaskState → List Tick → ℤ → Task (Unit {0})
task_of x queue size = record {
  sim = initial;
  state = x;
  has_int_time = true;
  last_arrival = pos 0;
  phase = pos 6;
  arrival = pos 0;
  execd_time = pos 0;
  arr_queue = queue;
  arr_queue_size = size;
  instr_queue = 1 ∷ [];
  act_instr = 0;
  kernel = some 1;
  last_sched = pos 0;
  dl = pos 0;
  rdl = pos 8;
  has_feedback = false;
  rest = tt;
}

abbrev buffering : Task (Unit {0})
buffering = task_of tsk_ready (pos 3 ∷ []) (pos 1)

abbrev idle_task : Task (Unit {0})
idle_task = task_of tsk_idle [] (pos 1)

handle_arrival-outcome_example :
    ArrivalOutcome its_end evts (pos 2) idle_task (handle_arrival evts world (pos 2) idle_task)
handle_arrival-outcome_example =
    handle_arrival-outcome its_end evts world drops_end-IsInner (pos 2) idle_task initial-IsValid
      refl refl (not_max_sum 2 8 (omega arith))

new_run-outcome_example :
    ((new_run evts world buffering).0 ≡ return tt)
    × IsValid (new_run evts world buffering).1.sim
    × ((new_run evts world buffering).1.arr_queue ≡ [])
    × ((new_run evts world buffering).1.state ≡ tsk_idle)
    × ((new_run evts world buffering).1.dl ≡ pos 0)
    × (((new_run evts world buffering).1.sim.events 31).is_in_queue ≡ true)
    × (((new_run evts world buffering).1.sim.events 31).time ≡ pos 6)
new_run-outcome_example =
    new_run-outcome evts world buffering 1 [] refl refl initial-IsValid refl (omega arith)
      (not_max 6 (omega arith))

-- The end of the instruction is queued for time 7.
abbrev working : Sim
working = posted 50 (pos 7) false initial

abbrev running_task : Task (Unit {0})
running_task = record (task_of tsk_exec [] (pos 1)) { sim = working }
