-- ===== src/Kernel/Examples.antt =====
-- A kernel with one ready task, over tasks that drop their event when they leave the processor, and
-- one with a resource manager.
use partsim.Prelude.{
  ◌+◌, ◌==◌, ==_iff, ◌||◌, ℕ, ◌^◌, ◌-◌, ◌≡◌, ◌≢◌, refl, arith, true, false, Option, some, List, [],
  ◌∷◌,
}
use partsim.Prelude.Int.{pos, ◌+ℤ◌, ◌-ℤ◌, ◌≤ℤ◌}
use partsim.Prelude.Action.{Action, return, pure}
use partsim.PriorityList.Order.{contains}
use partsim.Event.{Sim, drop, post, set_time, take_order, enqueue}
use partsim.Event.Order.{IsValid}
use partsim.Event.Examples.{initial, initial-IsValid, not_max, not_max_sum}
use partsim.Scheduler.Examples.{
  two_tasks, one_ready, one_ready-IsValid, one_ready-AllEdf, first_ready,
}
use partsim.Scheduler.{Scheduler, find, extract, extract_model}
use partsim.Resource.{Request, Manager, request, request_name}
use partsim.Kernel.Locking.{with_fcfs, extracted}
use partsim.Kernel.Handover.{Serves, Parked, HandedOver, request_resource-hands_over}
use partsim.Event.Drop.{dropped-IsValid}
use partsim.Event.Post.{posted, posted-IsValid}
use partsim.Kernel.{
  deschedule_if_any, on_sim, RtKernel, Machine, on_begin_dispatch, suspend, request_resource,
  release_resource,
}
use partsim.Kernel.Dispatch.{
  Cooperated, Stops, on_begin_dispatch-switches, on_begin_dispatch-edf_earliest,
}

-- A task posts no event, and drops its own one, 40 and its number, when it leaves the processor.
abbrev starts : {A : Type 0} → ℕ → Action (RtKernel A) (Unit {0})
starts _ = pure tt

abbrev leaves : {A : Type 0} → ℕ → Action (RtKernel A) (Unit {0})
leaves t = on_sim (drop (40 + t))

abbrev machine : {A : Type 0} → Machine A
machine = record {
  schedule = starts;
  deschedule = leaves;
  task = λ a. two_tasks;
  res_request = λ t r n. pure true;
  res_release = λ t r n. pure tt;
}

leaves-Cooperated :
    {A : Type 0} (t : ℕ) (k : RtKernel A)
    → IsValid k.sim
    → k.end_dispatch_evt ≡ 4
    → Cooperated k (leaves t k)
unfolding drop
leaves-Cooperated t k v e = record {
  returned = refl;
  valid = dropped-IsValid (40 + t) k.sim v;
  members = refl;
  clock = refl;
  flag =
      let other : (4 == 40 + t) ≡ false = ground (arith, ==_iff 4 (40 + t)) in rw e (rw other refl);
}

-- The event 42 of task 2 is queued for time 7.
abbrev busy : Sim
busy = posted 42 (pos 7) false initial

busy-IsValid : IsValid busy
busy-IsValid =
    posted-IsValid 42 (pos 7) false initial initial-IsValid refl (omega arith)
      (not_max 7 (omega arith))

-- Event 3 begins a dispatch and event 4 ends it; a switch takes 2 ticks.
abbrev kernel_of : Sim → Option ℕ → RtKernel (Unit {0})
kernel_of s running = record {
  sim = s;
  sched = one_ready;
  curr_exe = running;
  handled = 1 ∷ 2 ∷ [];
  is_context_switching = false;
  context_switch_delay = pos 2;
  begin_dispatch_evt = 3;
  end_dispatch_evt = 4;
  has_cpu = true;
  has_res_manager = false;
  rest = tt;
}

-- Task 2 runs, and task 1 is ready.
abbrev second : RtKernel (Unit {0})
second = kernel_of busy (some 2)

second-Stops : Stops machine second
second-Stops t e = leaves-Cooperated t second busy-IsValid refl

on_begin_dispatch-switches_example :
    ((on_begin_dispatch machine second).0 ≡ return tt)
    × IsValid (on_begin_dispatch machine second).1.sim
    × ((on_begin_dispatch machine second).1.curr_exe ≡ some 1)
    × ((on_begin_dispatch machine second).1.is_context_switching ≡ true)
    × (((on_begin_dispatch machine second).1.sim.events 4).is_in_queue ≡ true)
    × (((on_begin_dispatch machine second).1.sim.events 4).time ≡ pos 0 +ℤ pos 2)
    × ((z : ℕ)
        → contains z (on_begin_dispatch machine second).1.sim.event_queue
          ≡ ((z == 4) || contains z (deschedule_if_any machine (some 2) second).1.sim.event_queue))
    × ((on_begin_dispatch machine second).1.rest ≡ tt)
on_begin_dispatch-switches_example =
    on_begin_dispatch-switches machine second 1 second-Stops busy-IsValid first_ready refl refl
      (omega arith) two
  where
    two : pos 0 +ℤ pos 2 ≢ pos (2 ^ 63 - 1)
    two = not_max_sum 0 2 (omega arith)

on_begin_dispatch-edf_earliest_example :
    ((on_begin_dispatch machine second).1.curr_exe ≡ some 1)
    × ((m : ℕ)
        → contains m one_ready.queue ≡ true
        → (two_tasks 1).deadline ≤ℤ (two_tasks (one_ready.models m).rt_task).deadline)
on_begin_dispatch-edf_earliest_example =
    on_begin_dispatch-edf_earliest machine second 1 second-Stops busy-IsValid one_ready-IsValid
      one_ready-AllEdf first_ready refl refl (omega arith) (not_max_sum 0 2 (omega arith))

-- Task 1 runs and asks for the unit of resource 0, which task 2 holds.
abbrev locked_by_two : List Request → Manager (Unit {0})
locked_by_two waiting = record {
  names = ("mutex", 0) ∷ [];
  resources =
      λ r. record { total = pos 1; available = pos 0; available_initial = pos 1; owner = some 2 };
  blocked = λ r. waiting;
  kernels = tt;
}

abbrev locking_kernel : Scheduler → ℕ → List Request → RtKernel (Manager (Unit {0}))
locking_kernel s running waiting = record {
  sim = busy;
  sched = s;
  curr_exe = some running;
  handled = 1 ∷ 2 ∷ [];
  is_context_switching = false;
  context_switch_delay = pos 2;
  begin_dispatch_evt = 3;
  end_dispatch_evt = 4;
  has_cpu = true;
  has_res_manager = true;
  rest = locked_by_two waiting;
}

abbrev first_runs : RtKernel (Manager (Unit {0}))
first_runs = locking_kernel one_ready 1 []

-- Later task 2 runs, while task 1 waits.
abbrev second_runs : RtKernel (Manager (Unit {0}))
second_runs =
    locking_kernel (extract_model two_tasks 11 one_ready) 2 (record { task = 1; nr = pos 1 } ∷ [])

locking_kernel-Serves :
    (s : Scheduler) (running : ℕ) (waiting : List Request)
    → find 1 s ≡ some 11
    → Serves 1 11 "mutex" 0 (locking_kernel s running waiting)
locking_kernel-Serves s running waiting known = record {
  valid = busy-IsValid;
  far = not_max 0 (omega arith);
  managed = refl;
  known = known;
  named = refl;
}

request_resource-hands_over_example :
    Parked machine 11 first_runs (request_resource (with_fcfs machine) 1 "mutex" (pos 1) first_runs)
    × HandedOver machine 1 11 0
        (pos 0 +ℤ pos 1 -ℤ pos 1)
        second_runs
        (release_resource (with_fcfs machine) 2 "mutex" (pos 1) second_runs)
unfolding request_resource request_name request suspend extract extract_model drop post set_time
    take_order enqueue partsim.PriorityList.insert partsim.PriorityList.erase partsim.Event.cmp
request_resource-hands_over_example =
    request_resource-hands_over machine first_runs second_runs 1 11 11 2 "mutex" 0 (pos 1) (pos 1)
      (leaves-Cooperated 1 (extracted machine 11 first_runs) busy-IsValid refl)
      (locking_kernel-Serves one_ready 1 [] refl) refl refl (omega arith) (omega arith)
      (locking_kernel-Serves (extract_model two_tasks 11 one_ready) 2
        (record { task = 1; nr = pos 1 } ∷ []) refl)
      refl refl (unfold ◌+ℤ◌ in omega arith)
