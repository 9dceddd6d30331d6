-- ===== src/MrtKernel/Examples.antt =====
-- Two processors and two ready tasks, of which the one with the earlier deadline runs on processor
-- 1.
use partsim.Prelude.{
  ℕ, ◌+◌, ◌*◌, ◌≡◌, ◌≢◌, refl, ap, Option, ==_iff, arith, true, false, some, none, [], ◌∷◌, ◌==◌,
  if◌then◌else◌, inl,
}
use partsim.Prelude.Int.{pos, pos_part, ◌+ℤ◌, ◌≤ℤ◌}
use partsim.Prelude.Action.{Action, return, on_part}
use partsim.Event.{Sim, drop}
use partsim.Event.Examples.{initial, initial-IsValid, not_max, not_max_sum}
use partsim.Event.Post.{posted, posted-IsValid}
use partsim.Event.Drop.{dropped, dropped-IsValid}
use partsim.Scheduler.{Scheduler, edf, new_model, model_cmp, get_priority}
use partsim.Scheduler.Order.{IsValid}
use partsim.Scheduler.Service.{AllEdf}
use partsim.Scheduler.Examples.{two_tasks}
use partsim.MrtKernel.{
  MrtKernel, Machine, on_sim, on_arrival, dispatch_on, new_run, on_begin_dispatch_multi,
  on_end_dispatch_multi, schedule_if_any, set_curr_exe, get_processor, find_processor, count_new,
  is_new,
}
use partsim.MrtKernel.Invariant.{IsWired, is_queued}
use partsim.MrtKernel.Handlers.{IsCooperative, Scheduled}
use partsim.MrtKernel.Reach.{here, next, arrives, begins, finishes, IsIdle, Reaches-one_processor}
use partsim.MrtKernel.Begin.{IsQuiet, Begun, on_begin_dispatch_multi-chooses}
use partsim.MrtKernel.NewRun.{new_run-keeps_switch}
use partsim.MrtKernel.GlobalEdf.{on_begin_dispatch_multi-edf}

-- The event of the task `t`, which it drops when it is scheduled and when it leaves a processor.
abbrev own_evt : ℕ → ℕ
own_evt t = 2 * (100 + t)

abbrev leaves : ℕ → Action (Sim × Unit {0}) (Unit {0})
leaves t = on_part (λ s. s.0) (λ x s. (x, s.1)) (drop (own_evt t))

abbrev comes : ℕ → Action (MrtKernel (Unit {0})) (Unit {0})
comes t = on_sim (drop (own_evt t))

abbrev machine : Machine (Unit {0})
machine = record {
  schedule = comes;
  deschedule = leaves;
  task = λ a. two_tasks;
  begin_evt = λ p. 2 * p;
  end_evt = λ p. 2 * p + 1;
}

machine-IsWired : IsWired machine
machine-IsWired = record { apart = λ p q. ground arith; single = λ p q e. omega arith }

other_event : (t p : ℕ) → (2 * p + 1 == own_evt t) ≡ false
other_event t p = ground (arith, ==_iff (2 * p + 1) (own_evt t))

leaves-IsCooperative : IsCooperative machine leaves
unfolding drop
leaves-IsCooperative = record {
  flags = λ t s p. let other = other_event t p in rw (other, is_queued) refl;
}

machine-IsQuiet : IsQuiet machine
unfolding drop
machine-IsQuiet = record {
  returns = λ t s. refl;
  valid = λ t s v. dropped-IsValid (own_evt t) s.0 v;
  clock = λ t s. refl;
  flags = λ t s p. let other = other_event t p in rw (other, is_queued) refl;
}

comes-Scheduled : (t : ℕ) (k : MrtKernel (Unit {0})) → Scheduled machine k (comes t k)
unfolding drop
comes-Scheduled t k = record {
  returned = refl;
  members = refl;
  flags = λ p. let other = other_event t p in rw (other, is_queued) refl;
}

-- Task 1 has model 11 and task 2 model 12; both are ready.
abbrev both_ready : Scheduler
both_ready = record {
  models = λ m. record (new_model (if m == 11 then 1 else 2) (edf false (pos 0))) { active = true };
  queue = 12 ∷ 11 ∷ [];
  tasks = (1, 11) ∷ (2, 12) ∷ [];
  curr_exe = none;
}

both_ready-IsValid : IsValid two_tasks both_ready
unfolding model_cmp get_priority
both_ready-IsValid = record {
  sorted = ((refl, tt), (tt, tt));
  actives = λ m c. refl;
  registered = λ t m f. ground arith;
  queued = λ m c. ground arith;
  numbers = λ t u m k f g e. ap pos_part e;
}

both_ready-AllEdf : AllEdf both_ready
both_ready-AllEdf m c = (pos 0, refl)

-- A switch takes 2 ticks, and a migration 3 more.
abbrev idle_kernel : MrtKernel (Unit {0})
idle_kernel = record {
  sim = initial;
  sched = both_ready;
  cpus = 0 ∷ 1 ∷ [];
  curr_exe = λ p. none;
  old_exe = λ t. none;
  dispatched = [];
  switching = λ p. false;
  end_task = λ p. none;
  context_switch_delay = pos 2;
  migration_delay = pos 3;
  rest = tt;
}

-- Task 1 last ran on processor 1, where task 2 runs now.
abbrev busy_kernel : MrtKernel (Unit {0})
busy_kernel = record idle_kernel {
  curr_exe = λ p. if p == 1 then some 2 else none;
  old_exe = λ t. if t == 1 then some 1 else none;
  dispatched = (2, 1) ∷ [];
}

one_new : count_new busy_kernel 2 0 ≡ 1
unfolding count_new is_new get_processor find_processor partsim.Scheduler.get_task_n
one_new = refl

idle_kernel-IsIdle : IsIdle machine idle_kernel
idle_kernel-IsIdle = record { runs = λ p. refl; switches = λ p. refl; queued = λ p. refl }

abbrev arrived : MrtKernel (Unit {0})
arrived = (on_arrival machine 2 idle_kernel).1

abbrev begun : MrtKernel (Unit {0})
begun = (on_begin_dispatch_multi machine 0 (on_sim (drop 0) arrived).1).1

-- The switch to task 2 ends on processor 0.
abbrev ending : MrtKernel (Unit {0})
ending = (on_sim (drop 1) begun).1

abbrev ended : MrtKernel (Unit {0})
ended = (on_end_dispatch_multi machine 0 ending).1

under_way : is_queued 1 begun.sim ≡ true
unfolding on_arrival on_begin_dispatch_multi partsim.Scheduler.insert count_new
    partsim.Scheduler.get_task_n partsim.PriorityList.insert model_cmp get_priority
    partsim.Tick.to_int32 partsim.MrtKernel.next_free_proc drop partsim.Event.post
    partsim.Event.set_time partsim.Event.take_order partsim.Event.enqueue partsim.PriorityList.erase
    partsim.Event.cmp partsim.MrtKernel.first_not_dispatched find_processor get_processor
    partsim.MrtKernel.is_dispatched is_new partsim.MrtKernel.dispatch dispatch_on
    partsim.MrtKernel.evict partsim.MrtKernel.place ◌+ℤ◌ partsim.Scheduler.insert_model
under_way = refl

quietly :
    (o : Option ℕ) (k : MrtKernel (Unit {0})) → Scheduled machine k (schedule_if_any machine o k)
quietly none k = record { returned = refl; members = refl; flags = λ p. refl }
quietly (some t) k = comes-Scheduled t k

Reaches-one_processor_example :
    ((p q t : ℕ) → ended.curr_exe p ≡ some t → ended.curr_exe q ≡ some t → p ≡ q)
    × ((p : ℕ) → ended.switching p ≡ true → ended.curr_exe p ≡ none)
    × ((p q t : ℕ)
        → ended.switching p ≡ true
        → ended.end_task p ≡ some t
        → ended.curr_exe q ≢ some t)
Reaches-one_processor_example =
    Reaches-one_processor machine idle_kernel ended machine-IsWired leaves-IsCooperative
      idle_kernel-IsIdle
      (next idle_kernel arrived ended (arrives 2 idle_kernel) (
        next arrived begun ended (begins 0 arrived) (
          next begun ended ended
            (finishes 0 begun under_way
              (quietly (ending.end_task 0) (set_curr_exe 0 (ending.end_task 0) ending)))
            (here ended))))

on_begin_dispatch_multi-chooses_example :
    ((on_begin_dispatch_multi machine 0 busy_kernel).0 ≡ return tt)
    × Begun machine 0 busy_kernel (on_begin_dispatch_multi machine 0 busy_kernel).1
unfolding ◌+ℤ◌
on_begin_dispatch_multi-chooses_example =
    on_begin_dispatch_multi-chooses machine 0 busy_kernel machine-IsQuiet initial-IsValid refl
      (omega arith) (omega arith) (not_max_sum 0 2 (omega arith)) (not_max_sum 0 5 (omega arith))

on_begin_dispatch_multi-edf_example :
    (t : ℕ) × ((on_begin_dispatch_multi machine 0 busy_kernel).1.end_task 0 ≡ some t)
    × ((two_tasks t).deadline ≤ℤ pos 9)
unfolding ◌+ℤ◌
on_begin_dispatch_multi-edf_example =
    on_begin_dispatch_multi-edf machine 0 busy_kernel 11 machine-IsQuiet initial-IsValid refl
      (omega arith) (omega arith) (not_max_sum 0 2 (omega arith)) (not_max_sum 0 5 (omega arith))
      both_ready-IsValid both_ready-AllEdf refl (inl refl)

-- The last run ended within a switch on processor 0, which was to end at 7.
abbrev cut_off_sim : Sim
cut_off_sim = dropped 1 (posted 1 (pos 7) false initial)

cut_off_sim-IsValid : partsim.Event.Order.IsValid cut_off_sim
cut_off_sim-IsValid = dropped-IsValid 1 (posted 1 (pos 7) false initial) (
    posted-IsValid 1 (pos 7) false initial initial-IsValid refl (omega arith)
      (not_max 7 (omega arith)))

abbrev cut_off : MrtKernel (Unit {0})
cut_off = record idle_kernel {
  sim = cut_off_sim;
  switching = λ p. p == 0;
  end_task = λ p. if p == 0 then some 2 else none;
}

new_run-keeps_switch_example :
    ((dispatch_on machine 0 (new_run machine cut_off).1).0 ≡ return tt)
    × (((dispatch_on machine 0 (new_run machine cut_off).1).1.sim.events 0).is_in_queue ≡ true)
    × (((dispatch_on machine 0 (new_run machine cut_off).1).1.sim.events 0).time ≡ pos 7)
new_run-keeps_switch_example =
    new_run-keeps_switch machine 0 cut_off machine-IsWired cut_off_sim-IsValid refl (omega arith)
      (not_max 7 (omega arith))
