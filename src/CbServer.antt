-- ===== src/CbServer.antt =====
-- librtsim/cbserver.cpp: the state of a constant bandwidth server and its changes of status. Child
-- modules: Handlers for librtsim/server.cpp and the handlers of events, Budget, Slice and Arrival
-- for the theorems. The server sees the whole simulation: the global event queue (`sim`), its own
-- scheduler, its virtual-time timer and the rest `A`, where kernel and tasks live. Debug output is
-- left out.
pub mod Handlers
pub mod Budget
pub mod Arrival
pub mod Slice
pub mod Examples
use partsim.Prelude.{ℕ, ◌≡◌, Bool, true, false, not, ◌&&◌, ◌||◌, Option, none, some, if◌then◌else◌}
use partsim.Prelude.Int.{ℤ, pos, ◌+ℤ◌, ◌-ℤ◌, leb_ℤ, ltb_ℤ, eqb_ℤ}
use partsim.Prelude.Action.{
  Action, return, get, modify, pure, raise, unless, on_part, ◌>>=◌, ◌>>◌, assertion_failed,
}
use partsim.Tick.{Tick}
use partsim.Event.{Sim, post, drop}
use partsim.Scheduler.{Scheduler, RtTask}
use partsim.CapacityTimer.{
  Doubles, CapacityTimer, TimerStatus, is_stopped, get_value, start, stop, set_value,
}

pub data ServerStatus : Type 0 where
  idle ready executing releasing recharging : ServerStatus

pub data IdlePolicy : Type 0 where
  original reuse_dline : IdlePolicy

-- The members that are events, as pointers.
pub record ServerEvents : Type 0 where
  pub band_ex : ℕ
  pub dline_miss : ℕ
  pub recharging_evt : ℕ
  pub sched_evt : ℕ
  pub desched_evt : ℕ
  pub dispatch_evt : ℕ
  pub repl : ℕ
  pub idle_evt : ℕ

pub record CbServer (D A : Type 0) : Type 0 where
  pub sim : Sim
  pub sched : Scheduler
  pub vtime : CapacityTimer D
  pub status : ServerStatus
  pub q : Tick
  pub p : Tick
  pub d : Tick
  pub cap : Tick
  pub last_time : Tick
  pub hr : Bool
  pub idle_policy : IdlePolicy
  pub abs_dline : Tick
  pub arr : Tick
  pub last_arr : Tick
  pub dline : Tick
  pub last_exec_time : Tick
  pub curr_exe : Option ℕ
  pub killed : Bool
  pub yielding : Bool
  pub rest : A

abbrev pub is_executing : ServerStatus → Bool
is_executing executing = true
is_executing _ = false

abbrev pub is_idle : ServerStatus → Bool
is_idle idle = true
is_idle _ = false

abbrev pub reuses : IdlePolicy → Bool
reuses original = false
reuses reuse_dline = true

module _ {D A : Type 0} where
  abbrev pub on_sim : {B : Type 0} → Action Sim B → Action (CbServer D A) B
  on_sim m = on_part (λ s. s.sim) (λ sim s. record s { sim = sim }) m

  abbrev pub on_sched : {B : Type 0} → Action Scheduler B → Action (CbServer D A) B
  on_sched m = on_part (λ s. s.sched) (λ c s. record s { sched = c }) m

  abbrev pub on_vtime : {B : Type 0} → Action (CapacityTimer D) B → Action (CbServer D A) B
  on_vtime m = on_part (λ s. s.vtime) (λ t s. record s { vtime = t }) m

  abbrev pub set_status : ServerStatus → Action (CbServer D A) (Unit {0})
  set_status x = modify (λ s. record s { status = x })

  -- `SIMUL.getTime()`
  abbrev pub now : CbServer D A → Tick
  now s = s.sim.glob_time

  unfoldable pub set_abs_dead : Tick → Action (CbServer D A) (Unit {0})
  set_abs_dead t = modify (λ s. record s { abs_dline = t })

module _ {D A : Type 0} (num : Doubles D) (evt : ServerEvents) where
  abbrev pub start_vtime : Action (CbServer D A) (Unit {0})
  start_vtime s = on_vtime (start num (now s) (num.div (num.of_tick s.p) (num.of_tick s.q))) s

  abbrev pub stop_vtime : Action (CbServer D A) (Unit {0})
  stop_vtime s = (on_vtime (stop num (now s)) >> pure tt) s

  -- The capacity that is left of a deadline that is still ahead.
  abbrev pub reused_capacity : CbServer D A → Tick
  reused_capacity s =
      if reuses s.idle_policy && ltb_ℤ (now s) s.abs_dline
      then num.floor (
          num.div (num.mul (num.of_tick (s.abs_dline -ℤ now s)) (num.of_tick s.q))
            (num.of_tick s.p))
      else pos 0

  abbrev pub replenish_if_empty : Action (CbServer D A) (Unit {0})
  replenish_if_empty s =
      if eqb_ℤ s.cap (pos 0)
      then (return tt, record s { cap = s.q; d = now s +ℤ s.p; abs_dline = now s +ℤ s.p })
      else (return tt, s)

  unfoldable pub idle_ready : Action (CbServer D A) (Unit {0})
  idle_ready = do
    s ← get
    unless (is_idle s.status) assertion_failed
    set_status ready
    modify (λ s. record s { cap = reused_capacity s })
    replenish_if_empty
    s' ← get
    on_vtime (set_value num (num.of_tick (now s')))

  unfoldable pub releasing_ready : Action (CbServer D A) (Unit {0})
  releasing_ready = do set_status ready; on_sim (drop evt.idle_evt)

  unfoldable pub ready_executing : Action (CbServer D A) (Unit {0})
  ready_executing = do
    set_status executing
    modify (λ s. record s { last_time = now s })
    start_vtime
    s ← get
    on_sim (post evt.band_ex (s.last_time +ℤ s.cap) false)

  -- `cap = cap - (SIMUL.getTime() - last_time)`
  abbrev pub consume : Action (CbServer D A) (Unit {0})
  consume = modify (λ s. record s { cap = s.cap -ℤ (now s -ℤ s.last_time) })

  unfoldable pub executing_ready : Action (CbServer D A) (Unit {0})
  executing_ready = do set_status ready; consume; stop_vtime; on_sim (drop evt.band_ex)

  abbrev pub stop_executing : Action (CbServer D A) (Unit {0})
  stop_executing s =
      if is_executing s.status
      then (consume >> stop_vtime >> on_sim (drop evt.band_ex)) s
      else (return tt, s)

  -- Idle if the virtual time has been reached; otherwise the idle event waits for it.
  unfoldable pub leave : D → Action (CbServer D A) (Unit {0})
  leave v s =
      if num.le v (num.of_tick (now s))
      then set_status idle s
      else (on_sim (post evt.idle_evt (num.to_tick v) false) >> set_status releasing) s

  unfoldable pub executing_releasing : Action (CbServer D A) (Unit {0})
  unfolding leave
  executing_releasing = do stop_executing; s ← get; leave (get_value num (now s) s.vtime)

  unfoldable pub releasing_idle : Action (CbServer D A) (Unit {0})
  releasing_idle = set_status idle

  -- `d = d + P; setAbsDead(d);`
  abbrev pub postpone : Action (CbServer D A) (Unit {0})
  postpone = modify (λ s. record s { d = s.d +ℤ s.p; abs_dline = s.d +ℤ s.p })

  unfoldable pub soft_recharge : Action (CbServer D A) (Unit {0})
  soft_recharge = do
    modify (λ s. record s { cap = s.q })
    postpone
    set_status ready
    s ← get
    on_sim (post evt.repl (now s) false)

  unfoldable pub hard_recharge : Action (CbServer D A) (Unit {0})
  hard_recharge = do
    modify (λ s. record s { cap = pos 0 })
    s ← get
    on_sim (post evt.repl s.d false)
    postpone
    set_status recharging

  unfoldable pub executing_recharging : Action (CbServer D A) (Unit {0})
  unfolding soft_recharge hard_recharge
  executing_recharging = do
    on_sim (drop evt.band_ex)
    stop_vtime
    s ← get
    if s.hr then hard_recharge else soft_recharge

  unfoldable pub recharging_ready : Action (CbServer D A) (Unit {0})
  recharging_ready = set_status ready

  unfoldable pub recharging_idle : Action (CbServer D A) (Unit {0})
  recharging_idle = raise assertion_failed

  -- The branch of `changeBudget` for a server that executes.
  unfoldable pub repost_budget : Action (CbServer D A) (Unit {0})
  repost_budget = do
    consume
    modify (λ s. record s { last_time = now s })
    on_sim (drop evt.band_ex)
    s ← get
    on_sim (post evt.band_ex (now s +ℤ s.cap) false)
    stop_vtime
    start_vtime

  -- `Q = n; cap += n - Q;`: the second statement reads the new `Q`.
  abbrev pub set_budget : Tick → Action (CbServer D A) (Unit {0})
  set_budget n =
      modify (λ s. record s { q = n }) >> modify (λ s. record s { cap = s.cap +ℤ (n -ℤ s.q) })

  unfoldable pub change_budget : Tick → Action (CbServer D A) Tick
  unfolding repost_budget
  change_budget n s =
      if leb_ℤ n (pos 0)
      then (return (pos 0), s)
      else if eqb_ℤ n s.q
      then (return (now s), s)
      else (set_budget n
            >> (if is_executing s.status then repost_budget else pure tt)
            >> pure (now s))
          s

  unfoldable pub get_virtual_time : CbServer D A → D
  get_virtual_time s =
      if is_idle s.status then num.of_tick (now s) else get_value num (now s) s.vtime

  -- `CBServer::newRun`
  unfoldable pub cbs_new_run : Action (CbServer D A) (Unit {0})
  cbs_new_run = do
    modify (λ s. record s { cap = s.q; last_time = pos 0; status = idle })
    s ← get
    if is_stopped s.vtime.status then pure tt else stop_vtime
    on_vtime (set_value num (num.of_tick (pos 0)))
