-- ===== src/LockInstr/Blocking.antt =====
-- A task in servers, in an `RTKernel`: the search finds the kernel, and a wait requests once.
use partsim.Prelude.{ℕ, ◌≡◌, refl, ◌∙◌, true, false, some, suc}
use partsim.Prelude.Action.{Action, return, modify, ◌>>=◌, ◌>>◌}
use partsim.LockInstr.{
  WaitInstr, LockWorld, find_kernel_task, find_or_throw, after_request, wait_schedule, wait_new_run,
}

-- The task `t` is in `n` servers, the outermost of which is the task `top` of the `RTKernel` `k`.
pub data Nested {A : Type 0} (world : LockWorld A) (a : A) : (n t top k : ℕ) → Type 0 where
  direct :
      {t k : ℕ}
      → world.get_kernel a t ≡ some k
      → world.is_rt_kernel k ≡ true
      → Nested world a 0 t t k
  served :
      {n t s u top k : ℕ}
      → world.get_kernel a t ≡ some s
      → world.is_rt_kernel s ≡ false
      → world.as_task s ≡ some u
      → Nested world a n u top k
      → Nested world a (suc n) t top k

module _ {A : Type 0} (world : LockWorld A) where
  find_kernel_task_lem :
      (a : A) {n t top k : ℕ}
      → Nested world a n t top k
      → find_kernel_task world a (suc n) (some t) ≡ some (some top, some k)
  unfolding find_kernel_task
  find_kernel_task_lem a (direct kernel real) = rw (kernel, real) refl
  find_kernel_task_lem a (served kernel server task above) =
      rw (kernel, server, task) (find_kernel_task_lem a above)

  found :
      (w : WaitInstr A) {n t top k : ℕ}
      → Nested world w.rest n t top k
      → find_or_throw world (suc n) t w ≡ (return tt, w)
  unfolding find_or_throw
  found w nested = rw (find_kernel_task_lem w.rest nested) refl

  wait_request :
      (w : WaitInstr A) {n t top k : ℕ}
      → Nested world w.rest n t top k
      → w.waiting ≡ false
      → wait_schedule world (suc n) t w ≡ (world.request >>= after_request world) w
  unfolding wait_schedule
  wait_request w nested out = rw (found w nested, out) refl

  wait_resume :
      (w : WaitInstr A) {n t top k : ℕ}
      → Nested world w.rest n t top k
      → w.waiting ≡ true
      → wait_schedule world (suc n) t w ≡ world.father_instr_end (record w { waiting = false })
  unfolding wait_schedule
  wait_resume w nested blocked = rw (found w nested, blocked) refl

-- A wait of a task in `n` servers, of which the outermost is in an `RTKernel`, that was not
-- waiting, where the request is refused and leaves `w'`: it returns, and does not end. When it is
-- scheduled again, after any change of the rest that leaves the task in servers in an `RTKernel`,
-- it ends without another request, and waits no more. In a new run after such a change it requests
-- again.
pub wait_schedule-requests_once :
    {A : Type 0} (world : LockWorld A) (w w' : WaitInstr A) (change : A → A)
    {n t top k n' top' k' : ℕ}
    → Nested world w.rest n t top k
    → Nested world (change w'.rest) n' t top' k'
    → w.waiting ≡ false
    → world.request w ≡ (return false, w')
    → let outside : Action (WaitInstr A) (Unit {0}) =
        modify (λ v. record v { rest = change v.rest }) in
      let later : WaitInstr A = record { waiting = false; rest = change w'.rest } in
      let blocked : Action (WaitInstr A) (Unit {0}) = wait_schedule world (suc n) t >> outside in
      (wait_schedule world (suc n) t w ≡ (return tt, record w' { waiting = true }))
      × ((blocked >> wait_schedule world (suc n') t) w ≡ world.father_instr_end later)
      × (((blocked >> wait_new_run world) >> wait_schedule world (suc n') t) w
          ≡ (world.request >>= after_request world) later)
unfolding wait_new_run
wait_schedule-requests_once {A} world w w' change {n} {t} inside later out asked =
    let first : wait_schedule world (suc n) t w ≡ (return tt, record w' { waiting = true }) =
      wait_request world w inside out ∙ rw asked refl in
    (
      first,
      rw first (wait_resume world (record { waiting = true; rest = change w'.rest }) later refl),
      rw first (wait_request world (record { waiting = false; rest = change w'.rest }) later refl),
    )
