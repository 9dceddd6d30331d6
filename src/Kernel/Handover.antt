-- ===== src/Kernel/Handover.antt =====
-- One processor with a FCFSResManager: a task that is refused a resource, and the release that
-- wakes it.
use Prim.Native.String.{String}
use partsim.Prelude.{
  ℕ, ◌≡◌, ◌≢◌, refl, sym, ap, ◌∙◌, true, false, [], ◌∷◌, some, none, arith, ◌==◌, ==_iff, subst,
  Bool,
}
use partsim.Prelude.Int.{ℤ, pos, ◌+ℤ◌, ◌-ℤ◌, ◌≤ℤ◌, ◌<ℤ◌, int_laws}
use partsim.Prelude.Action.{Outcome, return}
use partsim.Tick.{Tick, max_tick}
use partsim.PriorityList.Order.{contains}
use partsim.Event.Order.{IsValid}
use partsim.Event.Repost.{reposted-IsValid, contains-reposted, reposted-time}
use partsim.Scheduler.{find, insert_model, extract_model}
use partsim.Resource.{Manager, find_name, lock, unlock}
use partsim.Kernel.{RtKernel, Machine, request_resource, release_resource}
use partsim.Kernel.Dispatch.{asked, Cooperated}
use partsim.Kernel.Locking.{
  with_fcfs, extracted, blocked_kernel, request_resource_blocks, handed_kernel,
  release_resource_hands,
}

-- A kernel with a manager that can serve the task `t`, with the model `i`, and the resource `r`.
pub record Serves {B : Type 0} (t i : ℕ) (name : String) (r : ℕ) (k : RtKernel (Manager B))
    : Type 0 where
  pub valid : IsValid k.sim
  pub far : k.sim.glob_time ≢ max_tick
  pub managed : k.has_res_manager ≡ true
  pub known : find t k.sched ≡ some i
  pub named : find_name name k.rest.names ≡ some r

-- The event `e`, which begins a dispatch, is queued at the time `now`.
pub record AsksDispatch {A : Type 0} (e : ℕ) (now : Tick) (k : RtKernel A) : Type 0 where
  pub valid : IsValid k.sim
  pub queued : contains e k.sim.event_queue ≡ true
  pub at : (k.sim.events e).time ≡ now

asked-AsksDispatch :
    {A : Type 0} (k : RtKernel A)
    → IsValid k.sim
    → k.sim.glob_time ≢ max_tick
    → AsksDispatch k.begin_dispatch_evt k.sim.glob_time (asked k)
asked-AsksDispatch k v far = record {
  valid = reposted-IsValid k.begin_dispatch_evt k.sim v far;
  queued =
      let there = contains-reposted k.begin_dispatch_evt k.sim v far k.begin_dispatch_evt in
      ground (arith, there, ==_iff k.begin_dispatch_evt k.begin_dispatch_evt);
  at = reposted-time k.begin_dispatch_evt k.sim v far;
}

renamed :
    {A : Type 0} (k : RtKernel A) {e e' : ℕ} {now now' : Tick}
    → e ≡ e'
    → now ≡ now'
    → AsksDispatch e now k
    → AsksDispatch e' now' k
renamed k event time d = subst (λ (x : ℕ × Tick). AsksDispatch x.0 x.1 k) (λ i. (event i, time i)) d

-- A request of the task that runs, with the model `i`, which was refused at the kernel `k`.
pub record Parked {B : Type 0} (env : Machine (Manager B)) (i : ℕ) (k : RtKernel (Manager B))
    (result : Outcome Bool × RtKernel (Manager B)) : Type 0 where
  pub refused : result.0 ≡ return false
  pub nobody_runs : result.1.curr_exe ≡ none
  pub not_ready : result.1.sched ≡ extract_model (env.task k.rest) i k.sched
  pub dispatches : AsksDispatch k.begin_dispatch_evt k.sim.glob_time result.1

-- A release at the kernel `k` that made the task `t`, with the model `i`, ready and owner of the
-- resource `r`, of which `left` units are left.
pub record HandedOver {B : Type 0} (env : Machine (Manager B)) (t i r : ℕ) (left : ℤ)
    (k : RtKernel (Manager B)) (result : Outcome (Unit {0}) × RtKernel (Manager B)) : Type 0 where
  pub released : result.0 ≡ return tt
  pub same_runs : result.1.curr_exe ≡ k.curr_exe
  pub now_ready : result.1.sched ≡ insert_model (env.task k.rest) k.sim.glob_time i k.sched
  pub dispatches : AsksDispatch k.begin_dispatch_evt k.sim.glob_time result.1
  pub nobody_waits : result.1.rest.blocked r ≡ []
  pub now_available : (result.1.rest.resources r).available ≡ left
  pub now_owner : (result.1.rest.resources r).owner ≡ some t

module _ {B : Type 0} (env : Machine (Manager B)) (k : RtKernel (Manager B)) (t i : ℕ)
    (name : String) (r : ℕ) (a : Serves t i name r k) where
  request_resource-Parked :
      (n : ℤ)
      → Cooperated (extracted env i k) (env.deschedule t (extracted env i k))
      → k.curr_exe ≡ some t
      → (k.rest.resources r).available <ℤ n
      → Parked env i k (request_resource (with_fcfs env) t name n k)
  request_resource-Parked n stops runs few =
      let left = stops.members in
      let clock = stops.clock in
      let parked = blocked_kernel env k t i stops a.valid a.far a.known name r n a.named in
      let asks = asked-AsksDispatch parked stops.valid (rw clock a.far) in
      subst (Parked env i k)
        (sym (
          request_resource_blocks env k t i stops a.valid a.far a.known name r n a.named a.managed
            runs few))
        (record {
          refused = refl;
          nobody_runs = refl;
          not_ready = ap (λ x. x.sched) left;
          dispatches = renamed (asked parked) (ap (λ x. x.begin_dispatch_evt) left) clock asks;
        })

  release_resource-HandedOver :
      (u : ℕ) (n n' : ℤ)
      → k.rest.blocked r ≡ record { task = t; nr = n } ∷ []
      → pos 0 <ℤ n
      → n ≤ℤ (k.rest.resources r).available +ℤ n'
      → HandedOver env t i r
          ((k.rest.resources r).available +ℤ n' -ℤ n)
          k
          (release_resource (with_fcfs env) u name n' k)
  unfolding lock unlock
  release_resource-HandedOver u n n' alone wants enough =
      let asks =
        asked-AsksDispatch
          (handed_kernel env k a.valid a.far (record { task = t; nr = n }) i a.known name r n')
          (reposted-IsValid k.begin_dispatch_evt k.sim a.valid a.far) a.far in
      let same : (r == r) ≡ true = ground (arith, ==_iff r r) in
      subst (HandedOver env t i r ((k.rest.resources r).available +ℤ n' -ℤ n) k)
        (sym (
          release_resource_hands env k a.valid a.far (record { task = t; nr = n }) i a.known name r
            n' u a.managed a.named alone (omega (int_laws, wants, enough)) enough))
        (record {
          released = refl;
          same_runs = refl;
          now_ready = refl;
          dispatches = asks;
          nobody_waits = rw same refl;
          now_available = rw same refl;
          now_owner = rw same refl;
        })

-- `requestResource` of the running task `t` for `n > 0` units where fewer are there and nobody
-- waits, and later, from any kernel that has left the resource and its queue alone,
-- `releaseResource` by another task of enough units, where the task is descheduled cooperatively,
-- at kernels with the manager, the model of the task, the resource, a well-formed event queue and a
-- clock before `MAXTICK`: the request answers `false`; the task leaves the scheduler and the
-- processor, and a dispatch is asked for at once. The release returns; the task is inserted into
-- the scheduler again, what runs stays, a dispatch is asked for at once, nobody waits any more, and
-- the units are taken for the task, which owns the resource.
pub request_resource-hands_over :
    {B : Type 0} (env : Machine (Manager B)) (k k' : RtKernel (Manager B)) (t i i' u : ℕ)
    (name : String) (r : ℕ) (n n' : ℤ)
    → Cooperated (extracted env i k) (env.deschedule t (extracted env i k))
    → Serves t i name r k
    → k.curr_exe ≡ some t
    → k.rest.blocked r ≡ []
    → pos 0 <ℤ n
    → (k.rest.resources r).available <ℤ n
    → Serves t i' name r k'
    → k'.rest.blocked r ≡ (request_resource (with_fcfs env) t name n k).1.rest.blocked r
    → k'.rest.resources r ≡ (request_resource (with_fcfs env) t name n k).1.rest.resources r
    → n ≤ℤ (k.rest.resources r).available +ℤ n'
    → Parked env i k (request_resource (with_fcfs env) t name n k)
      × HandedOver env t i' r
          ((k.rest.resources r).available +ℤ n' -ℤ n)
          k'
          (release_resource (with_fcfs env) u name n' k')
request_resource-hands_over env k k' t i i' u name r n n' stops a runs nobody wants few b queue
      resource enough =
    let refuses =
      request_resource_blocks env k t i stops a.valid a.far a.known name r n a.named a.managed runs
        few in
    let same : (r == r) ≡ true = ground (arith, ==_iff r r) in
    let alone : k'.rest.blocked r ≡ record { task = t; nr = n } ∷ [] =
      queue ∙ ap (λ x. x.1.rest.blocked r) refuses ∙ rw (same, nobody) refl in
    let kept : k'.rest.resources r ≡ k.rest.resources r =
      resource ∙ ap (λ x. x.1.rest.resources r) refuses in
    (
      request_resource-Parked env k t i name r a n stops runs few,
      subst
          (λ x.
            HandedOver env t i' r (x.available +ℤ n' -ℤ n) k'
              (release_resource (with_fcfs env) u name n' k'))
          kept
          (release_resource-HandedOver env k' t i' name r b u n n' alone wants (rw kept enough)),
    )
