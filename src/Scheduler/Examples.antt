-- ===== src/Scheduler/Examples.antt =====
-- Two tasks under EDF, with deadlines 9 and 4, and models under RM and TrueFIFO.
use partsim.Prelude.{ℕ, ◌≡◌, refl, ap, true, false, [], ◌∷◌, some, none, arith, ◌==◌, if◌then◌else◌}
use partsim.Prelude.Int.{pos, pos_part}
use partsim.Scheduler.{Scheduler, RtTask, edf, new_model, insert, get_first}
use partsim.Scheduler.Order.{IsValid}
use partsim.Scheduler.Service.{InsertOutcome, insert-outcome, AllEdf}

abbrev pub two_tasks : ℕ → RtTask
two_tasks t = record {
  deadline = if t == 1 then pos 9 else pos 4;
  rel_dline = if t == 1 then pos 9 else pos 4;
  arrival = pos 0;
  last_sched = pos 0;
  task_number = pos t;
}

-- Task 1 has model 11, and task 2 model 12. The one of task 1 is ready.
abbrev pub one_ready : Scheduler
one_ready = record {
  models = λ m.
      if m == 11
      then record { rt_task = 1; active = true; insert_time = pos 0; policy = edf false (pos 0) }
      else new_model 2 (edf false (pos 0));
  queue = 11 ∷ [];
  tasks = (1, 11) ∷ (2, 12) ∷ [];
  curr_exe = none;
}

pub one_ready-IsValid : IsValid two_tasks one_ready
one_ready-IsValid = record {
  sorted = (tt, tt);
  actives = λ m c. ground arith;
  registered = λ t m f. ground arith;
  queued = λ m c. ground arith;
  numbers = λ t u m k f g e. ap pos_part e;
}

insert-outcome_example :
    InsertOutcome two_tasks one_ready 2 (pos 3) (insert two_tasks (pos 3) 2 one_ready)
insert-outcome_example =
    insert-outcome two_tasks one_ready one_ready-IsValid (pos 3) 2 (λ m f. ground arith)

pub first_ready : get_first one_ready ≡ some 1
unfolding get_first
first_ready = refl

pub one_ready-AllEdf : AllEdf one_ready
one_ready-AllEdf m c = (pos 0, ground arith)
