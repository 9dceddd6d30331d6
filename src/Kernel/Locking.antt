-- ===== src/Kernel/Locking.antt =====
-- The kernel of one processor with a FCFSResManager, whose calls of `suspend`, `activate` and
-- `dispatch` come back to the same kernel. No task is in a server.
use Prim.Native.String.{String}
use partsim.Prelude.{
  ℕ, ◌≡◌, ◌≢◌, refl, ap, ◌∙◌, true, false, ◌||◌, [], ◌∷◌, ◌++◌, some, none, arith, ==_iff, length,
  ltb,
}
use partsim.Prelude.Int.{ℤ, pos, ◌+ℤ◌, ◌≤ℤ◌, ◌<ℤ◌, ltb_ℤ}
use partsim.Prelude.Action.{Action, return, unless, on_part, resource_manager_not_set}
use partsim.Tick.{max_tick}
use partsim.Event.Order.{IsValid}
use partsim.Event.Repost.{reposted-IsValid}
use partsim.Scheduler.{find, insert_model, extract_model}
use partsim.Scheduler.Service.{insert_known, extract_known}
use partsim.Resource.{
  Request, Kernels, Manager, rt_kernel, find_name, request, release, request_name, release_name,
  put_blocked, find_non_server_kernel,
}
use partsim.Resource.Single.{handed, returned, release_one}
use partsim.Kernel.{
  RtKernel, Machine, same_task, dispatch, activate, suspend, request_resource, release_resource,
}
use partsim.Kernel.Dispatch.{asked, dispatch_lem, Cooperated}

module _ {B : Type 0} where
  -- The manager in the rest of the kernel, with the kernel as what it calls, and back.
  abbrev manager_of : RtKernel (Manager B) → Manager (RtKernel (Manager B))
  manager_of k = record {
    names = k.rest.names;
    resources = k.rest.resources;
    blocked = k.rest.blocked;
    kernels = k;
  }

  abbrev put_manager : Manager (RtKernel (Manager B)) → RtKernel (Manager B) → RtKernel (Manager B)
  put_manager m _ = record m.kernels {
    rest = record {
      names = m.names;
      resources = m.resources;
      blocked = m.blocked;
      kernels = m.kernels.rest.kernels;
    };
  }

  abbrev on_manager :
      {C : Type 0} → Action (Manager (RtKernel (Manager B))) C → Action (RtKernel (Manager B)) C
  on_manager a = on_part manager_of put_manager a

  abbrev this_kernel : Machine (Manager B) → Kernels (RtKernel (Manager B))
  this_kernel env = record {
    get_kernel = λ t. rt_kernel 0;
    suspend = suspend env;
    activate = activate env;
    dispatch = λ j. dispatch;
  }

  -- The machine with a `FCFSResManager` over this kernel.
  abbrev pub with_fcfs : Machine (Manager B) → Machine (Manager B)
  with_fcfs env = record env {
    res_request = λ t name n. on_manager (request_name (this_kernel env) t name n);
    res_release = λ t name n. on_manager (release_name (this_kernel env) t name n);
  }

module _ {A : Type 0} (env : Machine A) (k k' k'' : RtKernel A) (t : ℕ) (name : String) (n : ℤ)
    (managed : k.has_res_manager ≡ true) (after : dispatch k' ≡ (return tt, k'')) where
  passes : unless k.has_res_manager resource_manager_not_set k ≡ (return tt, k)
  passes = ap (λ b. unless b resource_manager_not_set k) managed

  request_refused :
      env.res_request t name n k ≡ (return false, k')
      → request_resource env t name n k ≡ (return false, k'')
  unfolding request_resource
  request_refused refused = rw (passes, refused, after) refl

  release_done :
      env.res_release t name n k ≡ (return tt, k')
      → release_resource env t name n k ≡ (return tt, k'')
  unfolding release_resource
  release_done done = rw (passes, done, after) refl

-- The kernel whose running task `t`, with the model `i`, has left the ready queue.
abbrev pub extracted :
    {B : Type 0} → Machine (Manager B) → ℕ → RtKernel (Manager B) → RtKernel (Manager B)
extracted env i k = record k { sched = extract_model (env.task k.rest) i k.sched }

module _ {B : Type 0} (env : Machine (Manager B)) (k : RtKernel (Manager B)) (t i : ℕ)
    (stops : Cooperated (extracted env i k) (env.deschedule t (extracted env i k)))
    (v : IsValid k.sim) (far : k.sim.glob_time ≢ max_tick) (known : find t k.sched ≡ some i) where
  -- The running task suspended.
  abbrev stopped : RtKernel (Manager B)
  stopped = record (env.deschedule t (extracted env i k)).1 { curr_exe = none }

  suspend_running : k.curr_exe ≡ some t → suspend env t k ≡ (return tt, stopped)
  unfolding suspend
  suspend_running runs =
      let same : same_task k.curr_exe (some t) ≡ true = rw runs (ground (arith, ==_iff t t)) in
      rw (extract_known (env.task k.rest) k.sched t i known) (rw same (rw stops.returned refl))

  module _ (name : String) (r : ℕ) (n : ℤ) (named : find_name name k.rest.names ≡ some r) where
    abbrev queued : Manager (RtKernel (Manager B))
    queued =
        put_blocked r (k.rest.blocked r ++ record { task = t; nr = n } ∷ [])
          (record (manager_of k) { kernels = stopped })

    request_waits :
        k.curr_exe ≡ some t
        → (k.rest.resources r).available <ℤ n
        → request (this_kernel env) t r n (manager_of k) ≡ (return false, queued)
    unfolding request
    request_waits runs few =
        let w : (ltb 0 (length (k.rest.blocked r)) || ltb_ℤ (k.rest.resources r).available n)
            ≡ true =
          ground arith in
        rw w (rw (suspend_running runs) refl)

    request_named :
        request_name (this_kernel env) t name n (manager_of k)
        ≡ request (this_kernel env) t r n (manager_of k)
    unfolding request_name
    request_named = rw (named, request_name) refl

    request_blocks :
        k.curr_exe ≡ some t
        → (k.rest.resources r).available <ℤ n
        → on_manager (request_name (this_kernel env) t name n) k
          ≡ (return false, put_manager queued k)
    request_blocks runs few =
        ap (λ x. (x.0, put_manager x.1 k)) (request_named ∙ request_waits runs few)

    abbrev pub blocked_kernel : RtKernel (Manager B)
    blocked_kernel = put_manager queued k

    same_clock : blocked_kernel.sim.glob_time ≡ k.sim.glob_time
    same_clock = stops.clock

    dispatch_blocked : dispatch blocked_kernel ≡ (return tt, asked blocked_kernel)
    dispatch_blocked = dispatch_lem blocked_kernel stops.valid (rw same_clock far)

    pub request_resource_blocks :
        k.has_res_manager ≡ true
        → k.curr_exe ≡ some t
        → (k.rest.resources r).available <ℤ n
        → request_resource (with_fcfs env) t name n k ≡ (return false, asked blocked_kernel)
    request_resource_blocks managed runs few =
        request_refused (with_fcfs env) k blocked_kernel (asked blocked_kernel) t name n managed
          dispatch_blocked (request_blocks runs few)

-- A release to the only waiting request, of a task that the scheduler knows.
module _ {B : Type 0} (env : Machine (Manager B)) (k : RtKernel (Manager B)) (v : IsValid k.sim)
    (far : k.sim.glob_time ≢ max_tick) (q : Request) (i : ℕ) (known : find q.task k.sched ≡ some i)
    (name : String) (r : ℕ) (n : ℤ) where
  abbrev awake : RtKernel (Manager B)
  awake = record k { sched = insert_model (env.task k.rest) k.sim.glob_time i k.sched }

  activate_known : activate env q.task k ≡ (return tt, awake)
  unfolding activate
  activate_known = rw (insert_known (env.task k.rest) k.sched q.task k.sim.glob_time i known) refl

  abbrev pub handed_kernel : RtKernel (Manager B)
  handed_kernel =
      put_manager
        (handed (this_kernel env) r q (returned (this_kernel env) r q n (manager_of k))
          (asked awake))
        k

  pub release_resource_hands :
      (t : ℕ)
      → k.has_res_manager ≡ true
      → find_name name k.rest.names ≡ some r
      → k.rest.blocked r ≡ q ∷ []
      → pos 0 <ℤ (k.rest.resources r).available +ℤ n
      → q.nr ≤ℤ (k.rest.resources r).available +ℤ n
      → release_resource (with_fcfs env) t name n k ≡ (return tt, asked handed_kernel)
  unfolding release_name find_non_server_kernel
  release_resource_hands t managed named alone back fits =
      let one : release (this_kernel env) t r n (manager_of k) ≡ (
        return tt,
        handed (this_kernel env) r q (returned (this_kernel env) r q n (manager_of k))
            (asked awake),
      ) =
        release_one (this_kernel env) r q t n (manager_of k) awake (asked awake) alone back fits
          activate_known (dispatch_lem awake v far) in
      let by_name : release_name (this_kernel env) t name n (manager_of k)
          ≡ release (this_kernel env) t r n (manager_of k) =
        rw (named, release_name) refl in
      release_done (with_fcfs env) k handed_kernel (asked handed_kernel) t name n managed
        (dispatch_lem handed_kernel (reposted-IsValid k.begin_dispatch_evt k.sim v far) far)
        (ap (λ x. (x.0, put_manager x.1 k)) (by_name ∙ one))
