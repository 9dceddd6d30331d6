-- ===== src/CbServer/Arrival.antt =====
-- What wakes a constant bandwidth server, and what it does not.
use partsim.Prelude.{ℕ, ◌≡◌, ◌≢◌, refl, ◌∙◌, false, ◌||◌, ◌⊎◌, inl, inr, some, ◌==◌}
use partsim.Prelude.Int.{pos, ◌+ℤ◌, ◌-ℤ◌, ◌≤ℤ◌, ◌<ℤ◌}
use partsim.Prelude.Action.{Action, Outcome, return, throw, assertion_failed}
use partsim.Tick.{Tick, max_tick}
use partsim.PriorityList.Order.{contains}
use partsim.Event.{drop}
use partsim.Event.Order.{IsValid}
use partsim.Event.Repost.{reposted, repost_lem, reposted-IsValid, contains-reposted, reposted-time}
use partsim.Scheduler.{find, insert_model}
use partsim.Scheduler.Service.{insert_known}
use partsim.CapacityTimer.{Doubles, is_stopped}
use partsim.CbServer.{
  CbServer, ServerEvents, original, reuse_dline, ready, recharging, is_idle, reused_capacity,
}
use partsim.CbServer.Handlers.{Surroundings, dispatch, wake_up, on_arrival}

-- The part of the budget that the time up to the deadline is worth, rounded down.
abbrev pub share : {D A : Type 0} → Doubles D → CbServer D A → Tick
share num s = num.floor (
    num.div (num.mul (num.of_tick (s.abs_dline -ℤ s.sim.glob_time)) (num.of_tick s.q))
      (num.of_tick s.p))

-- What `idle_ready` answers.
abbrev pub WakeOutcome :
    {D A : Type 0}
    → Doubles D
    → ServerEvents
    → CbServer D A
    → Outcome (Unit {0}) × CbServer D A
    → Type 0
WakeOutcome num evt s (throw x, s') =
    (x ≡ assertion_failed) × ((is_idle s.status ≡ false) ⊎ (is_stopped s.vtime.status ≡ false))
WakeOutcome num evt s (return _, s') =
    (s'.status ≡ ready)
    × (s'.sim ≡ s.sim)
    × (s'.q ≡ s.q)
    × ((((s.idle_policy ≡ original) ⊎ (s.abs_dline ≤ℤ s.sim.glob_time) ⊎ (share num s ≡ pos 0))
          × (s'.cap ≡ s.q)
          × (s'.d ≡ s.sim.glob_time +ℤ s.p)
          × (s'.abs_dline ≡ s'.d))
        ⊎ ((s.idle_policy ≡ reuse_dline)
            × (s.sim.glob_time <ℤ s.abs_dline)
            × (share num s ≢ pos 0)
            × (s'.cap ≡ share num s)
            × (s'.d ≡ s.d)
            × (s'.abs_dline ≡ s.abs_dline)))

module _ {D A : Type 0} (num : Doubles D) (evt : ServerEvents) (s : CbServer D A) where
  -- `vtime.set_value(SIMUL.getTime())`, at the end.
  abbrev timed : CbServer D A → CbServer D A
  timed u = record u { vtime = record u.vtime { value = num.of_tick u.sim.glob_time } }

  abbrev full : CbServer D A
  full = record s {
    status = ready;
    cap = s.q;
    d = s.sim.glob_time +ℤ s.p;
    abs_dline = s.sim.glob_time +ℤ s.p;
  }

  abbrev partial : CbServer D A
  partial = record s { status = ready; cap = reused_capacity num evt s }

module _ {D A : Type 0} (num : Doubles D) (evt : ServerEvents) (env : Surroundings D A) where
  dispatch_lem :
      (s : CbServer D A)
      → IsValid s.sim
      → s.sim.glob_time ≢ max_tick
      → dispatch num evt env s ≡ (return tt, record s { sim = reposted evt.dispatch_evt s.sim })
  unfolding dispatch drop
  dispatch_lem s v far = rw (repost_lem evt.dispatch_evt s.sim v far)

  abbrev joined : ℕ → CbServer D A → CbServer D A
  joined m s = record s {
    yielding = false;
    sched = insert_model (env.task s.rest) s.sim.glob_time m s.sched;
  }

  arrives :
      (s : CbServer D A) (t m : ℕ)
      → find t s.sched ≡ some m
      → on_arrival num evt env t s ≡ wake_up num evt env env.kernel_on_arrival (joined m s)
  unfolding on_arrival
  arrives s t m known = rw (insert_known (env.task s.rest) s.sched t s.sim.glob_time m known)

  sleeps_on :
      (tell : Action (CbServer D A) (Unit {0})) (s : CbServer D A)
      → (s.status ≡ recharging) ⊎ (s.status ≡ ready)
      → wake_up num evt env tell s ≡ (return tt, s)
  unfolding wake_up
  sleeps_on tell s (inl e) = rw e
  sleeps_on tell s (inr e) = rw e

-- `Server::dispatch` in a well-formed queue before `MAXTICK`: it returns, also if a dispatch was
-- asked for already; the dispatch event is queued at the current time, and nothing else of the
-- queue and of the server changes.
pub server_dispatch-outcome :
    {D A : Type 0} (num : Doubles D) (evt : ServerEvents) (env : Surroundings D A)
    (s : CbServer D A)
    → IsValid s.sim
    → s.sim.glob_time ≢ max_tick
    → ((dispatch num evt env s).0 ≡ return tt)
      × IsValid (dispatch num evt env s).1.sim
      × ((z : ℕ)
          → contains z (dispatch num evt env s).1.sim.event_queue
            ≡ ((z == evt.dispatch_evt) || contains z s.sim.event_queue))
      × (((dispatch num evt env s).1.sim.events evt.dispatch_evt).time ≡ s.sim.glob_time)
      × (record (dispatch num evt env s).1 { sim = s.sim } ≡ s)
server_dispatch-outcome num evt env s v far = rw (dispatch_lem num evt env s v far) (
  refl,
  reposted-IsValid evt.dispatch_evt s.sim v far,
  contains-reposted evt.dispatch_evt s.sim v far,
  reposted-time evt.dispatch_evt s.sim v far,
  refl,
)

-- An arrival at a server that is ready or recharging, of a task that its scheduler knows: it
-- returns; the task joins the server's own ready queue and the server no longer yields; status,
-- budget, capacity, deadline, events and the kernel are not touched.
pub on_arrival-waits :
    {D A : Type 0} (num : Doubles D) (evt : ServerEvents) (env : Surroundings D A)
    (s : CbServer D A) (t m : ℕ)
    → (s.status ≡ recharging) ⊎ (s.status ≡ ready)
    → find t s.sched ≡ some m
    → on_arrival num evt env t s ≡ (
      return tt,
      record s {
        yielding = false;
        sched = insert_model (env.task s.rest) s.sim.glob_time m s.sched;
      },
    )
on_arrival-waits num evt env s t m waits known =
    arrives num evt env s t m known
    ∙ sleeps_on num evt env env.kernel_on_arrival (joined num evt env m s) waits
