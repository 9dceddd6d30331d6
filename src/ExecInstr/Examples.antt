-- ===== src/ExecInstr/Examples.antt =====
-- An instruction that has executed 2 of 5 ticks, with integers in the place of doubles.
use partsim.Prelude.{◌≡◌, refl, arith, true, false, inl}
use partsim.Prelude.Int.{ℤ, pos, ◌+ℤ◌, ◌*ℤ◌, int_laws}
use partsim.Prelude.Action.{return, pure}
use partsim.Event.Examples.{initial, initial-IsValid, not_max_sum}
use partsim.CapacityTimer.Examples.{integers}
use partsim.ExecInstr.{ExecInstr, InstrWorld, schedule, deschedule, refresh_exec}
use partsim.ExecInstr.Progress.{IsExact, IsUnit, IsAt, Stopped, moved_to}
use partsim.ExecInstr.Slice.{schedule-slice}
use partsim.ExecInstr.Refresh.{refresh_exec-restarts}

times_one : (x : ℤ) → x *ℤ pos 1 ≡ x
unfolding ◌*ℤ◌
times_one x = ground arith

integers-IsExact : IsExact integers
integers-IsExact = record {
  mul_one = times_one;
  div_one = λ x. refl;
  add = λ a b h. omega int_laws;
  sub = λ a b h le. omega int_laws;
  lt = λ a b h k. ground arith;
  ceil = λ a h. refl;
  to_tick = λ a h. refl;
}

abbrev alone : InstrWorld ℤ (Unit {0})
alone = record {
  cost = pure (pos 5);
  has_cpu = λ a. true;
  has_old_cpu = λ a. true;
  speed = λ a. pos 1;
  old_speed = λ a. pos 1;
  set_workload = pure tt;
  set_idle = pure tt;
  father_instr_end = pure tt;
}

alone-IsUnit : IsUnit integers alone
alone-IsUnit = record {
  has_cpu = λ a. refl;
  has_old_cpu = λ a. refl;
  speed = λ a. refl;
  old_speed = λ a. refl;
  works = λ a. refl;
  idles = λ a. refl;
}

abbrev half_done : ExecInstr ℤ (Unit {0})
half_done = record {
  sim = initial;
  is_beg_of_instr = false;
  execd_time = pos 2;
  current_cost = pos 5;
  act_cycles = pos 2;
  last_time = pos 0;
  executing = false;
  rest = tt;
}

half_done-IsAt : IsAt integers half_done 2 5
half_done-IsAt = record {
  begun = refl;
  cycles = refl;
  time = refl;
  cost = refl;
  left = omega arith;
  small = omega arith;
}

schedule-slice_example :
    ((schedule integers alone 4 half_done).0 ≡ return tt)
    × (((schedule integers alone 4 half_done).1.sim.events 4).is_in_queue ≡ true)
    × (((schedule integers alone 4 half_done).1.sim.events 4).time ≡ pos 0 +ℤ pos 3)
    × ((deschedule integers alone 4
          (moved_to (pos 0 +ℤ pos 1) (schedule integers alone 4 half_done).1)).0
        ≡ return tt)
    × Stopped integers 4 2 5 1
        (deschedule integers alone 4
          (moved_to (pos 0 +ℤ pos 1) (schedule integers alone 4 half_done).1)).1
schedule-slice_example =
    schedule-slice integers alone 4 half_done 2 5 1 integers-IsExact alone-IsUnit
      (inl half_done-IsAt) initial-IsValid refl (not_max_sum 0 3 (omega arith)) (omega arith)

refresh_exec-restarts_example :
    ((refresh_exec integers alone 4 (pos 1) (pos 1) half_done).0 ≡ return tt)
    × ((refresh_exec integers alone 4 (pos 1) (pos 1) half_done).1.execd_time ≡ pos 2)
    × (((refresh_exec integers alone 4 (pos 1) (pos 1) half_done).1.sim.events 4).time
        ≡ pos 0 +ℤ pos 5)
refresh_exec-restarts_example =
    refresh_exec-restarts integers alone 4 half_done 2 5 0 integers-IsExact half_done-IsAt
      (omega arith) (omega int_laws) initial-IsValid (not_max_sum 0 5 (omega arith))
