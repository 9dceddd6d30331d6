-- ===== src/Kernel/Dispatch.antt =====
-- Dispatching: which task the kernel runs, and when.
use partsim.Prelude.{
  ℕ, ◌≡◌, ◌≢◌, refl, sym, ap, ◌∙◌, true, false, ◌||◌, Option, some, none, arith, ◌==◌, subst,
}
use partsim.Prelude.Int.{pos, ◌+ℤ◌, ◌≤ℤ◌, int_laws}
use partsim.Prelude.Action.{Outcome, return, throw, event_already_posted}
use partsim.Tick.{Tick, max_tick}
use partsim.PriorityList.Order.{contains}
use partsim.Event.{Sim, drop}
use partsim.Event.Order.{IsValid}
use partsim.Event.Post.{posted, posted-IsValid, contains-posted, post_lem, post_queued}
use partsim.Event.Repost.{reposted, repost_lem, reposted-IsValid, contains-reposted, reposted-time}
use partsim.Scheduler.{find, insert_model, get_first, notify}
use partsim.Scheduler.Service.{insert_known, AllEdf, edf-earliest}
use partsim.Kernel.{
  RtKernel, Machine, same_task, dispatch, on_arrival, on_begin_dispatch, on_end_dispatch,
  deschedule_if_any, begin_switch,
}

module _ {A : Type 0} where
  abbrev pub asked : RtKernel A → RtKernel A
  asked k = record k { sim = reposted k.begin_dispatch_evt k.sim }

  pub dispatch_lem :
      (k : RtKernel A)
      → IsValid k.sim
      → k.sim.glob_time ≢ max_tick
      → dispatch k ≡ (return tt, asked k)
  unfolding dispatch drop
  dispatch_lem k v far = rw (repost_lem k.begin_dispatch_evt k.sim v far)

-- An arrival at the kernel, of a task that the scheduler knows, in a well-formed queue before
-- `MAXTICK`: it returns; the task's model is inserted into the ready queue; the event that begins a
-- dispatch is queued at the current time, once, also if it was queued before; the rest of the event
-- queue, the running task and a context switch that is under way stay.
pub on_arrival-outcome :
    {A : Type 0} (env : Machine A) (k : RtKernel A) (t m : ℕ)
    → IsValid k.sim
    → k.sim.glob_time ≢ max_tick
    → find t k.sched ≡ some m
    → ((on_arrival env t k).0 ≡ return tt)
      × IsValid (on_arrival env t k).1.sim
      × ((on_arrival env t k).1.sched ≡ insert_model (env.task k.rest) k.sim.glob_time m k.sched)
      × ((z : ℕ)
          → contains z (on_arrival env t k).1.sim.event_queue
            ≡ ((z == k.begin_dispatch_evt) || contains z k.sim.event_queue))
      × (((on_arrival env t k).1.sim.events k.begin_dispatch_evt).time ≡ k.sim.glob_time)
      × ((on_arrival env t k).1.curr_exe ≡ k.curr_exe)
      × ((on_arrival env t k).1.is_context_switching ≡ k.is_context_switching)
unfolding on_arrival
on_arrival-outcome env k t m v far known =
    rw (insert_known (env.task k.rest) k.sched t k.sim.glob_time m known) (
      rw
        (dispatch_lem
          (record k { sched = insert_model (env.task k.rest) k.sim.glob_time m k.sched }) v far)
        (
          refl,
          reposted-IsValid k.begin_dispatch_evt k.sim v far,
          refl,
          contains-reposted k.begin_dispatch_evt k.sim v far,
          reposted-time k.begin_dispatch_evt k.sim v far,
          refl,
          refl,
        ))

-- What a task's method that the kernel `k` calls has done: it returned, kept the event queue well
-- formed, and left the kernel's own members, the clock and the event that ends a dispatch alone.
-- Other events it may post and drop.
pub record Cooperated {A : Type 0} (k : RtKernel A) (result : Outcome (Unit {0}) × RtKernel A)
    : Type 0 where
  pub returned : result.0 ≡ return tt
  pub valid : IsValid result.1.sim
  pub members : record result.1 { sim = k.sim; rest = k.rest } ≡ k
  pub clock : result.1.sim.glob_time ≡ k.sim.glob_time
  pub flag :
      (result.1.sim.events k.end_dispatch_evt).is_in_queue
      ≡ (k.sim.events k.end_dispatch_evt).is_in_queue

-- The task that runs, if there is one, is descheduled so.
abbrev pub Stops : {A : Type 0} → Machine A → RtKernel A → Type 0
Stops env k = (t : ℕ) → k.curr_exe ≡ some t → Cooperated k (env.deschedule t k)

module _ {A : Type 0} (env : Machine A) (k : RtKernel A) (stops : Stops env k)
    (v : IsValid k.sim) where
  -- After the running task, if there is one, was descheduled.
  vacates_by : (c : Option ℕ) → k.curr_exe ≡ c → Cooperated k (deschedule_if_any env c k)
  vacates_by none e = record {
    returned = refl;
    valid = v;
    members = refl;
    clock = refl;
    flag = refl;
  }
  vacates_by (some t) e = stops t e

  vacates : Cooperated k (deschedule_if_any env k.curr_exe k)
  vacates = vacates_by k.curr_exe refl

  abbrev vacant : RtKernel A
  vacant = (deschedule_if_any env k.curr_exe k).1

  abbrev switching : ℕ → RtKernel A
  switching t = record vacant { is_context_switching = true; curr_exe = some t }

  begins :
      (t : ℕ)
      → get_first k.sched ≡ some t
      → same_task k.curr_exe (some t) ≡ false
      → on_begin_dispatch env k ≡ begin_switch env (some t) vacant
  unfolding on_begin_dispatch
  begins t first differs = rw (first, differs, vacates.returned)

  -- The members of the vacated kernel that the switch reads.
  same_members :
      (vacant.end_dispatch_evt ≡ k.end_dispatch_evt)
      × (vacant.context_switch_delay ≡ k.context_switch_delay)
  same_members =
      let x = vacates in
      (
        ap (λ (u : RtKernel A). u.end_dispatch_evt) x.members,
        ap (λ (u : RtKernel A). u.context_switch_delay) x.members,
      )

  -- A switch while another one is under way.
  switch_again :
      (t : ℕ)
      → (k.sim.events k.end_dispatch_evt).is_in_queue ≡ true
      → begin_switch env (some t) vacant ≡ (throw event_already_posted, switching t)
  switch_again t queued =
      let x = vacates in
      let (e, _) = same_members in
      let flag : (vacant.sim.events vacant.end_dispatch_evt).is_in_queue ≡ true =
        rw e (x.flag ∙ queued) in
      rw (
        post_queued vacant.end_dispatch_evt (vacant.sim.glob_time +ℤ vacant.context_switch_delay)
          false vacant.sim flag)

  abbrev end_time : Tick
  end_time = vacant.sim.glob_time +ℤ vacant.context_switch_delay

  module _ (free : (k.sim.events k.end_dispatch_evt).is_in_queue ≡ false)
      (delay : pos 0 ≤ℤ k.context_switch_delay)
      (far : k.sim.glob_time +ℤ k.context_switch_delay ≢ max_tick) where
    vacant_free : (vacant.sim.events vacant.end_dispatch_evt).is_in_queue ≡ false
    vacant_free = let x = vacates in let (e, _) = same_members in rw e (x.flag ∙ free)

    same_time : end_time ≡ k.sim.glob_time +ℤ k.context_switch_delay
    same_time = let x = vacates in let (_, d) = same_members in rw (d, x.clock)

    ahead : vacant.sim.glob_time ≤ℤ end_time
    ahead =
        let (_, d) = same_members in
        let nonneg : pos 0 ≤ℤ vacant.context_switch_delay = rw d delay in omega (int_laws, nonneg)

    not_last : end_time ≢ max_tick
    not_last e = far (sym same_time ∙ e)

    abbrev switched : ℕ → RtKernel A
    switched t = record (switching t) {
      sim = posted vacant.end_dispatch_evt end_time false vacant.sim;
    }

    switch_lem : (t : ℕ) → begin_switch env (some t) vacant ≡ (return tt, switched t)
    switch_lem t = rw (
        post_lem vacant.end_dispatch_evt end_time false vacant.sim vacates.valid vacant_free ahead
          not_last)

    switched-IsValid : (t : ℕ) → IsValid (switched t).sim
    switched-IsValid t =
        posted-IsValid vacant.end_dispatch_evt end_time false vacant.sim vacates.valid vacant_free
          ahead not_last

    abbrev on_posted : Sim
    on_posted = posted vacant.end_dispatch_evt end_time false vacant.sim

    switched-contains :
        (z : ℕ)
        → contains z on_posted.event_queue
          ≡ ((z == vacant.end_dispatch_evt) || contains z vacant.sim.event_queue)
    switched-contains z =
        contains-posted vacant.end_dispatch_evt end_time false vacant.sim z vacates.valid
          vacant_free not_last

-- The event that begins a dispatch, where the task that runs, if there is one, is descheduled
-- cooperatively, with a well-formed event queue, and another task first in the ready queue than the
-- one that runs. If no context switch is under way (its end is not queued), the delay is not
-- negative and the switch ends before `MAXTICK`: the handler returns; the first ready task is the
-- current one; the tasks and the event queue are as the descheduling of the old task left them,
-- but that the end of the switch is queued, exactly the delay from now.
pub on_begin_dispatch-switches :
    {A : Type 0} (env : Machine A) (k : RtKernel A) (t : ℕ)
    → Stops env k
    → IsValid k.sim
    → get_first k.sched ≡ some t
    → same_task k.curr_exe (some t) ≡ false
    → (k.sim.events k.end_dispatch_evt).is_in_queue ≡ false
    → pos 0 ≤ℤ k.context_switch_delay
    → k.sim.glob_time +ℤ k.context_switch_delay ≢ max_tick
    → ((on_begin_dispatch env k).0 ≡ return tt)
      × IsValid (on_begin_dispatch env k).1.sim
      × ((on_begin_dispatch env k).1.curr_exe ≡ some t)
      × ((on_begin_dispatch env k).1.is_context_switching ≡ true)
      × (((on_begin_dispatch env k).1.sim.events k.end_dispatch_evt).is_in_queue ≡ true)
      × (((on_begin_dispatch env k).1.sim.events k.end_dispatch_evt).time
          ≡ k.sim.glob_time +ℤ k.context_switch_delay)
      × ((z : ℕ)
          → contains z (on_begin_dispatch env k).1.sim.event_queue ≡ (
              (z == k.end_dispatch_evt)
              || contains z (deschedule_if_any env k.curr_exe k).1.sim.event_queue))
      × ((on_begin_dispatch env k).1.rest ≡ (deschedule_if_any env k.curr_exe k).1.rest)
on_begin_dispatch-switches env k t stops v first differs free delay far =
    let (e, _) = same_members env k stops v in
    rw (begins env k stops v t first differs ∙ switch_lem env k stops v free delay far t) (
      refl,
      switched-IsValid env k stops v free delay far t,
      refl,
      refl,
      rw (← e) (ground arith),
      rw (← e, ← same_time env k stops v free delay far) (ground arith),
      subst
          (λ x.
            (z : ℕ)
            → contains z (on_posted env k stops v free delay far).event_queue
              ≡ ((z == x) || contains z (vacant env k stops v).sim.event_queue))
          e (switched-contains env k stops v free delay far),
      refl,
    )

-- The same event while a context switch is under way (its end is queued): the handler throws that
-- the event is posted already, after the kernel has made the first ready task the current one.
pub on_begin_dispatch-throws :
    {A : Type 0} (env : Machine A) (k : RtKernel A) (t : ℕ)
    → Stops env k
    → IsValid k.sim
    → get_first k.sched ≡ some t
    → same_task k.curr_exe (some t) ≡ false
    → (k.sim.events k.end_dispatch_evt).is_in_queue ≡ true
    → ((on_begin_dispatch env k).0 ≡ throw event_already_posted)
      × ((on_begin_dispatch env k).1.curr_exe ≡ some t)
on_begin_dispatch-throws env k t stops v first differs queued =
    rw (begins env k stops v t first differs ∙ switch_again env k stops v t queued) (refl, refl)

-- The end of a context switch to a task that is scheduled cooperatively: it returns, the
-- task is the current one of the kernel and of the scheduler, and no switch is under way.
pub on_end_dispatch-runs :
    {A : Type 0} (env : Machine A) (k : RtKernel A) (t : ℕ)
    → Cooperated k (env.schedule t k)
    → IsValid k.sim
    → k.curr_exe ≡ some t
    → ((on_end_dispatch env k).0 ≡ return tt)
      × IsValid (on_end_dispatch env k).1.sim
      × ((on_end_dispatch env k).1.curr_exe ≡ some t)
      × ((on_end_dispatch env k).1.sched.curr_exe ≡ some t)
      × ((on_end_dispatch env k).1.is_context_switching ≡ false)
unfolding on_end_dispatch notify
on_end_dispatch-runs env k t starts v current =
    let same = ap (λ (u : RtKernel _). u.curr_exe) starts.members in
    rw (current, on_end_dispatch)
      (rw starts.returned (refl, starts.valid, same ∙ current, same ∙ current, refl))

-- Under EDF, on a well-formed scheduler with no priority set from outside: the task to which the
-- begin of a dispatch switches, under the conditions of `on_begin_dispatch-switches`, has the
-- earliest deadline of the ready tasks.
pub on_begin_dispatch-edf_earliest :
    {A : Type 0} (env : Machine A) (k : RtKernel A) (t : ℕ)
    → Stops env k
    → IsValid k.sim
    → partsim.Scheduler.Order.IsValid (env.task k.rest) k.sched
    → AllEdf k.sched
    → get_first k.sched ≡ some t
    → same_task k.curr_exe (some t) ≡ false
    → (k.sim.events k.end_dispatch_evt).is_in_queue ≡ false
    → pos 0 ≤ℤ k.context_switch_delay
    → k.sim.glob_time +ℤ k.context_switch_delay ≢ max_tick
    → ((on_begin_dispatch env k).1.curr_exe ≡ some t)
      × ((m : ℕ)
          → contains m k.sched.queue ≡ true
          → (env.task k.rest t).deadline ≤ℤ (env.task k.rest (k.sched.models m).rt_task).deadline)
on_begin_dispatch-edf_earliest env k t stops v sched edf first differs free delay far =
    let (_, _, current, _, _, _, _, _) =
      on_begin_dispatch-switches env k t stops v first differs free delay far in
    (current, edf-earliest (env.task k.rest) k.sched t sched edf first)
