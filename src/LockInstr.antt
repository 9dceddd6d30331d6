-- ===== src/LockInstr.antt =====
-- librtsim/waitinstr.cpp: the instructions that wait for a resource and that release it. Tasks and
-- kernels are numbers; a server is both, a kernel for its tasks and a task for its own kernel.
-- `rest` is everything but `_waiting`. Construction from text and debug output are left out.
pub mod Blocking
pub mod Examples
use partsim.Prelude.{ℕ, Bool, true, false, Option, none, some, zero, suc, if◌then◌else◌}
use partsim.Prelude.Action.{
  Action, get, modify, pure, raise, ◌>>=◌, ◌>>◌, kernel_not_found, out_of_fuel,
}

pub record WaitInstr (A : Type 0) : Type 0 where
  pub waiting : Bool
  pub rest : A

-- `getKernel` of a task; whether a kernel is an `RTKernel`, and which task it is; `requestResource`
-- and `releaseResource` of the kernel of the task, for the task and the resource of the
-- instruction; and `onInstrEnd` of the task.
pub record LockWorld (A : Type 0) : Type 0 where
  pub get_kernel : A → ℕ → Option ℕ
  pub is_rt_kernel : ℕ → Bool
  pub as_task : ℕ → Option ℕ
  pub request : Action (WaitInstr A) Bool
  pub release : Action (WaitInstr A) (Unit {0})
  pub father_instr_end : Action (WaitInstr A) (Unit {0})

module _ {A : Type 0} (world : LockWorld A) where
  -- The two casts, which a null pointer passes unchanged.
  abbrev pub is_rt : Option ℕ → Bool
  is_rt none = false
  is_rt (some k) = world.is_rt_kernel k

  abbrev pub task_of : Option ℕ → Option ℕ
  task_of none = none
  task_of (some k) = world.as_task k

  -- `findKernelTask`: the task and the kernel that it leaves, or nothing where the fuel is used up.
  unfoldable pub find_kernel_task : A → ℕ → Option ℕ → Option (Option ℕ × Option ℕ)
  find_kernel_task a fuel none = some (none, none)
  find_kernel_task a zero (some t) = none
  find_kernel_task a (suc fuel) (some t) =
      let kernel = world.get_kernel a t in
      let rest = find_kernel_task a fuel (task_of kernel) in
      if is_rt kernel then some (some t, kernel) else rest

  abbrev pub check_found : Option (Option ℕ × Option ℕ) → Action (WaitInstr A) (Unit {0})
  check_found none = raise out_of_fuel
  check_found (some (none, _)) = raise kernel_not_found
  check_found (some (some _, _)) = pure tt

  -- `if (!found) throw`
  unfoldable pub find_or_throw : (fuel father : ℕ) → Action (WaitInstr A) (Unit {0})
  find_or_throw fuel father w = check_found (find_kernel_task w.rest fuel (some father)) w

  abbrev pub set_waiting : Bool → Action (WaitInstr A) (Unit {0})
  set_waiting b = modify (λ w. record w { waiting = b })

  abbrev pub after_request : Bool → Action (WaitInstr A) (Unit {0})
  after_request true = world.father_instr_end
  after_request false = set_waiting true

  abbrev pub enter_or_leave : Bool → Action (WaitInstr A) (Unit {0})
  enter_or_leave false = do granted ← world.request; after_request granted
  enter_or_leave true = do set_waiting false; world.father_instr_end

  -- `WaitInstr::schedule`
  unfoldable pub wait_schedule : (fuel father : ℕ) → Action (WaitInstr A) (Unit {0})
  wait_schedule fuel father = do find_or_throw fuel father; w ← get; enter_or_leave w.waiting

  -- `WaitInstr::newRun`
  unfoldable pub wait_new_run : Action (WaitInstr A) (Unit {0})
  wait_new_run = set_waiting false

  -- `SignalInstr::schedule`
  unfoldable pub signal_schedule : (fuel father : ℕ) → Action (WaitInstr A) (Unit {0})
  signal_schedule fuel father = do find_or_throw fuel father; world.release; world.father_instr_end
