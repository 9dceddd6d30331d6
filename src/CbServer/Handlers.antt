-- ===== src/CbServer/Handlers.antt =====
-- librtsim/server.cpp: the server as a kernel for its tasks and as a task of its kernel, with the
-- handlers that librtsim/cbserver.cpp overrides.
use partsim.Prelude.{ℕ, Bool, true, false, not, Option, none, some, ◌==◌, if◌then◌else◌}
use partsim.Prelude.Int.{pos}
use partsim.Prelude.Action.{
  Action, return, get, modify, pure, raise, unless, ◌>>=◌, ◌>>◌, assertion_failed, null_dereference,
}
use partsim.Event.{post, drop, process}
use partsim.Scheduler.{RtTask, insert, extract, get_first, notify}
use partsim.CapacityTimer.{Doubles, get_value}
use partsim.CbServer.{
  CbServer, ServerStatus, ServerEvents, idle, ready, executing, releasing, recharging, is_executing,
  is_idle, on_sim, on_sched, set_status, now, idle_ready, releasing_ready, ready_executing,
  executing_ready, executing_releasing, releasing_idle, executing_recharging, recharging_ready,
  recharging_idle,
}

-- What the server calls: `activate`, `onArrival`, `suspend` (each on the server itself), `dispatch`
-- and whether `getProcessor` answers a CPU, of its kernel; `schedule` and `deschedule` of its
-- tasks; and what its scheduler and `isEmpty` ask of the tasks.
pub record Surroundings (D A : Type 0) : Type 0 where
  pub kernel_activate : Action (CbServer D A) (Unit {0})
  pub kernel_on_arrival : Action (CbServer D A) (Unit {0})
  pub kernel_suspend : Action (CbServer D A) (Unit {0})
  pub kernel_dispatch : Action (CbServer D A) (Unit {0})
  pub has_processor : CbServer D A → Bool
  pub schedule : ℕ → Action (CbServer D A) (Unit {0})
  pub deschedule : ℕ → Action (CbServer D A) (Unit {0})
  pub task : A → ℕ → RtTask
  pub is_empty : CbServer D A → Bool

abbrev pub is_recharging : ServerStatus → Bool
is_recharging recharging = true
is_recharging _ = false

abbrev pub is_ready : ServerStatus → Bool
is_ready ready = true
is_ready _ = false

abbrev pub same : Option ℕ → Option ℕ → Bool
same none none = true
same (some t) (some u) = t == u
same _ _ = false

module _ {D A : Type 0} where
  abbrev pub nobody : Action (CbServer D A) (Unit {0})
  nobody = modify (λ s. record s { curr_exe = none }) >> on_sched (notify none)

  -- A call through a task pointer that may be null.
  abbrev pub on_task :
      (ℕ → Action (CbServer D A) (Unit {0})) → Option ℕ → Action (CbServer D A) (Unit {0})
  on_task m none = raise null_dereference
  on_task m (some t) = m t

  abbrev pub on_task_if_any :
      (ℕ → Action (CbServer D A) (Unit {0})) → Option ℕ → Action (CbServer D A) (Unit {0})
  on_task_if_any m none = pure tt
  on_task_if_any m (some t) = m t

module _ {D A : Type 0} (num : Doubles D) (evt : ServerEvents) (env : Surroundings D A) where
  abbrev pub sched_insert : ℕ → Action (CbServer D A) (Unit {0})
  sched_insert t s = on_sched (insert (env.task s.rest) (now s) t) s

  abbrev pub sched_extract : ℕ → Action (CbServer D A) (Unit {0})
  sched_extract t s = on_sched (extract (env.task s.rest) t) s

  unfoldable pub schedule : Action (CbServer D A) (Unit {0})
  schedule = on_sim (process evt.sched_evt false)

  unfoldable pub deschedule : Action (CbServer D A) (Unit {0})
  deschedule = on_sim (process evt.desched_evt false)

  unfoldable pub dispatch : Action (CbServer D A) (Unit {0})
  dispatch = do
    on_sim (drop evt.dispatch_evt)
    s ← get
    on_sim (post evt.dispatch_evt (now s) false)

  -- What `activate` and `onArrival` do by status, with the kernel's method for a server that wakes.
  unfoldable pub wake_up : Action (CbServer D A) (Unit {0}) → Action (CbServer D A) (Unit {0})
  unfolding dispatch
  wake_up tell s = elim s.status [
    | executing ↦ dispatch s
    | idle ↦ (idle_ready num evt >> tell) s
    | releasing ↦ (releasing_ready num evt >> tell) s
    | recharging ↦ (return tt, s)
    | ready ↦ (return tt, s)
  ]

  unfoldable pub activate : ℕ → Action (CbServer D A) (Unit {0})
  unfolding wake_up
  activate t = sched_insert t >> wake_up env.kernel_activate

  -- `CBServer::onArrival`
  unfoldable pub on_arrival : ℕ → Action (CbServer D A) (Unit {0})
  unfolding wake_up
  on_arrival t = do
    modify (λ s. record s { yielding = false })
    sched_insert t
    wake_up env.kernel_on_arrival

  unfoldable pub suspend : ℕ → Action (CbServer D A) (Unit {0})
  unfolding dispatch
  suspend t = do
    sched_extract t
    s ← get
    unless (is_executing s.status) assertion_failed
    if env.has_processor s then (env.deschedule t >> nobody) else pure tt
    dispatch

  abbrev pub yield_if_empty : Action (CbServer D A) (Unit {0})
  yield_if_empty s =
      if env.is_empty s then (return tt, record s { yielding = true }) else (return tt, s)

  -- `CBServer::onEnd`
  unfoldable pub on_end : ℕ → Action (CbServer D A) (Unit {0})
  unfolding dispatch
  on_end t = do
    s ← get
    unless (is_executing s.status) assertion_failed
    sched_extract t
    nobody
    dispatch
    yield_if_empty

  unfoldable pub on_budget_exhausted : Action (CbServer D A) (Unit {0})
  on_budget_exhausted = do
    s ← get
    unless (is_executing s.status) assertion_failed
    on_sim (drop evt.dispatch_evt)
    on_task_if_any env.deschedule s.curr_exe
    modify (λ s. record s { curr_exe = none })
    env.kernel_suspend
    on_sched (notify none)
    env.kernel_dispatch
    executing_recharging num evt
    s' ← get
    if is_ready s'.status then env.kernel_on_arrival else pure tt

  unfoldable pub on_sched_event : Action (CbServer D A) (Unit {0})
  unfolding dispatch
  on_sched_event = do
    s ← get
    unless (is_ready s.status) assertion_failed
    ready_executing num evt
    dispatch

  unfoldable pub server_on_desched : Action (CbServer D A) (Unit {0})
  server_on_desched s =
      if is_executing s.status
      then (executing_ready num evt >> on_task env.deschedule s.curr_exe >> nobody) s
      else (return tt, s)

  -- `CBServer::onDesched`
  unfoldable pub on_desched : Action (CbServer D A) (Unit {0})
  unfolding server_on_desched
  on_desched s =
      if env.is_empty s then (return tt, record s { yielding = true }) else server_on_desched s

  abbrev pub has_work : CbServer D A → Bool
  has_work s = not (same (get_first s.sched) none)

  unfoldable pub on_recharging : Action (CbServer D A) (Unit {0})
  on_recharging = do
    s ← get
    unless (is_recharging s.status) assertion_failed
    if has_work s
        then (recharging_ready num evt >> env.kernel_on_arrival)
        else (recharging_idle num evt >> nobody)

  abbrev pub switch_to : Option ℕ → Action (CbServer D A) (Unit {0})
  switch_to new s =
      if same new s.curr_exe
      then (return tt, s)
      else (on_task_if_any env.deschedule s.curr_exe
            >> modify (λ s. record s { curr_exe = new })
            >> on_task_if_any env.schedule new)
          s

  unfoldable pub on_dispatch : Action (CbServer D A) (Unit {0})
  on_dispatch = do
    s ← get
    unless (is_executing s.status) assertion_failed
    switch_to (get_first s.sched)
    s' ← get
    if same s'.curr_exe none
        then (on_sched (notify none)
            >> executing_releasing num evt
            >> env.kernel_suspend
            >> env.kernel_dispatch)
        else pure tt

  -- Where no work waits for the refilled budget: releasing until the virtual time, or idle.
  abbrev pub rest_after_replenishment : Action (CbServer D A) (Unit {0})
  rest_after_replenishment s =
      let v = get_value num (now s) s.vtime in
      if num.lt (num.of_tick (now s)) v
      then (set_status releasing >> on_sim (post evt.idle_evt (num.ceil v) false)) s
      else set_status idle s

  unfoldable pub refill : Action (CbServer D A) (Unit {0})
  refill s0 =
      let s = record s0 { cap = s0.q } in
      if has_work s
      then (recharging_ready num evt >> env.kernel_on_arrival) s
      else if is_idle s.status
      then (return tt, s)
      else (rest_after_replenishment >> nobody) s

  unfoldable pub on_replenishment : Action (CbServer D A) (Unit {0})
  unfolding refill
  on_replenishment = do
    on_sim (drop evt.repl)
    s ← get
    elim s.status [
      | recharging ↦ refill
      | releasing ↦ refill
      | idle ↦ refill
      | ready ↦ pure tt
      | executing ↦ pure tt
    ]

  unfoldable pub on_idle : Action (CbServer D A) (Unit {0})
  on_idle = releasing_idle num evt

  -- `Server::newRun`, which `CBServer::newRun` overrides without calling it.
  unfoldable pub server_new_run : Action (CbServer D A) (Unit {0})
  server_new_run = do
    modify (λ s. record s {
      arr = pos 0;
      last_arr = pos 0;
      status = idle;
      dline = pos 0;
      abs_dline = pos 0;
      last_exec_time = pos 0;
    })
    on_sim (drop evt.band_ex)
    on_sim (drop evt.dline_miss)
    on_sim (drop evt.recharging_evt)
    on_sim (drop evt.sched_evt)
    on_sim (drop evt.desched_evt)
    on_sim (drop evt.dispatch_evt)
    modify (λ s. record s { curr_exe = none })
