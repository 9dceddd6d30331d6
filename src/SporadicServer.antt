-- ===== src/SporadicServer.antt =====
-- librtsim/sporadicserver.cpp: a server that gets the budget it used back one period after it began
-- to use it. The state is the event queue, the virtual time, the members of `SporadicServer`, and
-- in `rest` the scheduler and the kernel. `front`, `back` and `begin` of an empty list are
-- undefined in the source, and raise `null_dereference` here. Debug output is left out.
pub mod Handlers
pub mod Queues
pub mod Execution
pub mod Balance
pub mod Replenish
pub mod Reach
pub mod Slice
pub mod Cut
pub mod Smaller
pub mod Forget
pub mod Budget
pub mod Examples
use partsim.Prelude.{
  ℕ, Bool, true, false, Option, none, some, List, [], ◌∷◌, ◌++◌, ◌<◌, length, ltb, if◌then◌else◌,
}
use partsim.Prelude.Int.{pos, ◌+ℤ◌, ◌-ℤ◌, ltb_ℤ, eqb_ℤ}
use partsim.Prelude.Action.{
  Action, get, modify, pure, raise, unless, on_part, ◌>>=◌, ◌>>◌, assertion_failed,
  null_dereference,
}
use partsim.Tick.{Tick}
use partsim.Event.{Sim, post, drop}
use partsim.CapacityTimer.{Doubles, CapacityTimer, is_stopped, get_value, start, stop, set_value}
use partsim.CbServer.{
  ServerStatus, idle, ready, executing, releasing, recharging, is_executing, is_idle,
}

-- A replenishment: when, and how much.
abbrev pub Replenishment : Type 0
Replenishment = Tick × Tick

pub record SporadicEvents : Type 0 where
  pub band_ex : ℕ
  pub repl : ℕ
  pub idle_evt : ℕ

pub record SporadicServer (D A : Type 0) : Type 0 where
  pub sim : Sim
  pub vtime : CapacityTimer D
  pub status : ServerStatus
  pub q : Tick
  pub p : Tick
  pub cap : Tick
  pub last_time : Tick
  pub recharging_time : Tick
  pub repl_queue : List Replenishment
  pub capacity_queue : List Replenishment
  pub curr_exe : Option ℕ
  pub rest : A

abbrev pub is_contending : ServerStatus → Bool
is_contending ready = true
is_contending executing = true
is_contending _ = false

-- `back().second += amount`
abbrev pub add_last : Tick → List Replenishment → Option (List Replenishment)
add_last amount [] = none
add_last amount ((t, b) ∷ []) = some ((t, b +ℤ amount) ∷ [])
add_last amount (r ∷ (x ∷ xs)) = elim (add_last amount (x ∷ xs)) [
  | none ↦ none
  | some ys ↦ some (r ∷ ys)
]

module _ {D A : Type 0} where
  abbrev pub on_sim : {B : Type 0} → Action Sim B → Action (SporadicServer D A) B
  on_sim m = on_part (λ s. s.sim) (λ sim s. record s { sim = sim }) m

  abbrev pub on_vtime : {B : Type 0} → Action (CapacityTimer D) B → Action (SporadicServer D A) B
  on_vtime m = on_part (λ s. s.vtime) (λ t s. record s { vtime = t }) m

  abbrev pub on_rest : {B : Type 0} → Action A B → Action (SporadicServer D A) B
  on_rest m = on_part (λ s. s.rest) (λ a s. record s { rest = a }) m

  abbrev pub set_status : ServerStatus → Action (SporadicServer D A) (Unit {0})
  set_status x = modify (λ s. record s { status = x })

  abbrev pub now : SporadicServer D A → Tick
  now s = s.sim.glob_time

  -- The time that it has executed since `last_time`.
  abbrev pub executed : SporadicServer D A → Tick
  executed s = now s -ℤ s.last_time

  abbrev pub consume : Action (SporadicServer D A) (Unit {0})
  consume = modify (λ s. record s { cap = s.cap -ℤ executed s })

  abbrev pub put_repl : Option (List Replenishment) → Action (SporadicServer D A) (Unit {0})
  put_repl none = raise null_dereference
  put_repl (some rs) = modify (λ s. record s { repl_queue = rs })

  -- `repl_queue.back().second += SIMUL.getTime() - last_time`
  unfoldable pub credit : Action (SporadicServer D A) (Unit {0})
  credit s = put_repl (add_last (executed s) s.repl_queue) s

  unfoldable pub prepare_replenishment : Tick → Action (SporadicServer D A) (Unit {0})
  prepare_replenishment t =
      modify (λ s. record s { repl_queue = s.repl_queue ++ (t +ℤ s.p, pos 0) ∷ [] })

  unfoldable pub releasing_idle : Action (SporadicServer D A) (Unit {0})
  releasing_idle = set_status idle

  unfoldable pub recharging_idle : Action (SporadicServer D A) (Unit {0})
  recharging_idle = raise assertion_failed

  -- A replenishment whose time has passed is used up next.
  abbrev pub take_capacity : List Replenishment → Action (SporadicServer D A) (Unit {0})
  take_capacity [] = set_status recharging
  take_capacity ((t, b) ∷ rs) = do
    modify (λ s. record s { capacity_queue = rs; cap = s.cap +ℤ b })
    prepare_replenishment t
    modify (λ s. record s { last_time = now s; status = ready })

  unfoldable pub recharging_ready : Action (SporadicServer D A) (Unit {0})
  unfolding prepare_replenishment
  recharging_ready = do set_status ready; s ← get; prepare_replenishment (now s)

module _ {D A : Type 0} (evt : SporadicEvents) where
  abbrev pub post_front : List Replenishment → Action (SporadicServer D A) (Unit {0})
  post_front [] = pure tt
  post_front ((t, _) ∷ _) = on_sim (post evt.repl t false)

  unfoldable pub check_repl : Action (SporadicServer D A) (Unit {0})
  check_repl s =
      if (s.sim.events evt.repl).is_in_queue then pure tt s else post_front s.repl_queue s

  unfoldable pub releasing_ready : Action (SporadicServer D A) (Unit {0})
  unfolding prepare_replenishment
  releasing_ready = do
    set_status ready
    s ← get
    prepare_replenishment (now s)
    on_sim (drop evt.idle_evt)

module _ {D A : Type 0} (num : Doubles D) where
  -- `vtime.start((double) P / double(budget))`
  abbrev pub start_vtime : Tick → Action (SporadicServer D A) (Unit {0})
  start_vtime budget s =
      on_vtime (start num (now s) (num.div (num.of_tick s.p) (num.of_tick budget))) s

  abbrev pub stop_vtime : Action (SporadicServer D A) (Unit {0})
  stop_vtime s = (on_vtime (stop num (now s)) >> pure tt) s

  unfoldable pub sporadic_new_run : Action (SporadicServer D A) (Unit {0})
  sporadic_new_run = do
    modify (λ s. record s {
      cap = s.q;
      last_time = pos 0;
      recharging_time = pos 0;
      status = idle;
      repl_queue = [];
      capacity_queue = [];
    })
    s ← get
    if is_stopped s.vtime.status then pure tt else stop_vtime
    on_vtime (set_value num (num.of_tick (pos 0)))

  unfoldable pub sporadic_virtual_time : SporadicServer D A → D
  sporadic_virtual_time s =
      if is_idle s.status then num.of_tick (now s) else get_value num (now s) s.vtime

  unfoldable pub idle_ready : Action (SporadicServer D A) (Unit {0})
  unfolding prepare_replenishment
  idle_ready = do
    s ← get
    unless (is_idle s.status) assertion_failed
    modify (λ s. record s { status = ready; cap = s.q })
    on_vtime (set_value num (num.of_tick (now s)))
    prepare_replenishment (now s)

module _ {D A : Type 0} (num : Doubles D) (evt : SporadicEvents) where
  unfoldable pub ready_executing : Action (SporadicServer D A) (Unit {0})
  ready_executing = do
    set_status executing
    modify (λ s. record s { last_time = now s })
    s ← get
    start_vtime num s.q
    on_sim (post evt.band_ex (s.last_time +ℤ s.cap) false)

  unfoldable pub executing_ready : Action (SporadicServer D A) (Unit {0})
  unfolding credit
  executing_ready = do set_status ready; consume; on_sim (drop evt.band_ex); stop_vtime num; credit

  abbrev pub stop_running : Action (SporadicServer D A) (Unit {0})
  stop_running = do consume; on_sim (drop evt.band_ex); credit; check_repl evt; stop_vtime num

  abbrev pub stop_executing : Action (SporadicServer D A) (Unit {0})
  stop_executing s = if is_executing s.status then stop_running s else pure tt s

  -- Idle if the virtual time has been reached; otherwise the idle event waits for it.
  abbrev pub leave : D → Action (SporadicServer D A) (Unit {0})
  leave v s =
      if num.le v (num.of_tick (now s))
      then set_status idle s
      else (on_sim (post evt.idle_evt (num.ceil v) false) >> set_status releasing) s

  unfoldable pub executing_releasing : Action (SporadicServer D A) (Unit {0})
  unfolding credit check_repl
  executing_releasing = do stop_executing; s ← get; leave (get_value num (now s) s.vtime)

  unfoldable pub executing_recharging : Action (SporadicServer D A) (Unit {0})
  unfolding credit check_repl prepare_replenishment
  executing_recharging = do
    on_sim (drop evt.band_ex)
    consume
    credit
    check_repl evt
    stop_vtime num
    s ← get
    take_capacity s.capacity_queue
