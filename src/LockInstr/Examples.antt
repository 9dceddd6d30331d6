-- ===== src/LockInstr/Examples.antt =====
-- Task 1 is in server 10, which is task 2 of the `RTKernel` 20; it waits for a resource that task 5
-- has.
use partsim.Prelude.{◌≡◌, refl, Bool, true, false, none, some, ◌==◌, if◌then◌else◌}
use partsim.Prelude.Action.{Action, return, modify, ◌>>=◌, ◌>>◌}
use partsim.LockInstr.{WaitInstr, LockWorld, after_request, wait_schedule, wait_new_run}
use partsim.LockInstr.Blocking.{direct, served, Nested, wait_schedule-requests_once}

-- The rest is whether the resource is free, and whether the instruction has ended.
abbrev locks : LockWorld (Bool × Bool)
locks = record {
  get_kernel = λ a t. if t == 1 then some 10 else some 20;
  is_rt_kernel = λ k. k == 20;
  as_task = λ k. if k == 10 then some 2 else none;
  request = λ w. (return w.rest.0, record w { rest = (false, w.rest.1) });
  release = modify (λ w. record w { rest = (true, w.rest.1) });
  father_instr_end = modify (λ w. record w { rest = (w.rest.0, true) });
}

abbrev not_free : WaitInstr (Bool × Bool)
not_free = record { waiting = false; rest = (false, false) }

abbrev freed : (Bool × Bool) → Bool × Bool
freed a = (true, a.1)

in_server : (a : Bool × Bool) → Nested locks a 1 1 2 20
in_server a = served refl refl refl (direct refl refl)

wait_schedule-requests_once_example :
    let outside : Action (WaitInstr (Bool × Bool)) (Unit {0}) =
      modify (λ v. record v { rest = freed v.rest }) in
    let later : WaitInstr (Bool × Bool) = record { waiting = false; rest = (true, false) } in
    let blocked : Action (WaitInstr (Bool × Bool)) (Unit {0}) =
      wait_schedule locks 2 1 >> outside in
    (wait_schedule locks 2 1 not_free ≡ (return tt, record not_free { waiting = true }))
    × ((blocked >> wait_schedule locks 2 1) not_free ≡ locks.father_instr_end later)
    × (((blocked >> wait_new_run locks) >> wait_schedule locks 2 1) not_free
        ≡ (locks.request >>= after_request locks) later)
wait_schedule-requests_once_example =
    wait_schedule-requests_once locks not_free not_free freed (in_server (false, false))
      (in_server (true, false)) refl refl
