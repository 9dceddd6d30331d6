-- ===== src/Scheduler/Model.antt =====
-- `TaskModel` and its subclasses.
use partsim.Prelude.{ℕ, Bool, true, false, if◌then◌else◌}
use partsim.Prelude.Int.{ℤ, pos, ltb_ℤ, eqb_ℤ, leb_ℤ, ◌-ℤ◌}
use partsim.Prelude.Action.{Outcome, return, throw, cannot_change_priority}
use partsim.Tick.{Tick, to_int32}

-- What the scheduler asks of an `AbsRTTask`; `last_sched` is `Task::getLastSched`.
pub record RtTask : Type 0 where
  pub deadline : Tick
  pub rel_dline : Tick
  pub arrival : Tick
  pub last_sched : Tick
  pub task_number : ℤ

-- The fields that the subclasses of `TaskModel` add.
pub data Policy : Type 0 where
  edf : (ext_p : Bool) (prio : ℤ) → Policy
  fp : (prio : Tick) → Policy
  rm : (ext_p : Bool) (prio : Tick) → Policy
  fifo true_fifo : Policy
  rr : (slice : Tick) → Policy

pub record TaskModel : Type 0 where
  pub rt_task : ℕ
  pub active : Bool
  pub insert_time : ℤ
  pub policy : Policy

-- The constructor of `TaskModel`.
abbrev pub new_model : ℕ → Policy → TaskModel
new_model t p = record { rt_task = t; active = false; insert_time = pos 0; policy = p }

module _ (task : ℕ → RtTask) where
  -- The virtual method `getPriority() const`. `RMModel` declares a `getPriority()` that is not
  -- `const`, so it overrides nothing: a call through `TaskModel *` reaches the one of `FPModel`.
  unfoldable pub get_priority : TaskModel → Tick
  get_priority m = elim m.policy [
    | edf ext_p prio ↦ if ext_p then prio else (task m.rt_task).deadline
    | fp prio ↦ prio
    | rm ext_p prio ↦ prio
    | fifo ↦ (task m.rt_task).arrival
    | true_fifo ↦ pos 0
    | rr slice ↦ pos 1
  ]

  -- `RMModel::getPriority()`, which only a call on an `RMModel` object reaches.
  unfoldable pub rm_get_priority : TaskModel → Tick
  rm_get_priority m = elim m.policy [
    | rm ext_p prio ↦ if ext_p then prio else (task m.rt_task).rel_dline
    | _ ↦ pos 0
  ]

  -- `changePriority`
  unfoldable pub change_priority : Tick → TaskModel → Outcome TaskModel
  change_priority p m = elim m.policy [
    | edf ext_p prio ↦ return (
        if eqb_ℤ p (task m.rt_task).deadline
        then record m { policy = edf false prio }
        else record m { policy = edf true (to_int32 p) })
    | fp prio ↦ return (record m { policy = fp p })
    | rm ext_p prio ↦ return (
        if eqb_ℤ p (task m.rt_task).rel_dline
        then record m { policy = rm false prio }
        else record m { policy = rm true p })
    | fifo ↦ return m
    | true_fifo ↦ return m
    | rr slice ↦ throw cannot_change_priority
  ]

  -- `TaskModelCmp`: the order of `std::tuple` on priority, insertion time and task number.
  unfoldable pub model_cmp : TaskModel → TaskModel → Bool
  model_cmp a b =
      if ltb_ℤ (get_priority a) (get_priority b)
      then true
      else if ltb_ℤ (get_priority b) (get_priority a)
      then false
      else if ltb_ℤ a.insert_time b.insert_time
      then true
      else if ltb_ℤ b.insert_time a.insert_time
      then false
      else ltb_ℤ (task a.rt_task).task_number (task b.rt_task).task_number

  -- `RRModel::isRoundExpired` at the time `now`.
  unfoldable pub is_round_expired : Tick → TaskModel → Bool
  is_round_expired now m = elim m.policy [
    | rr slice ↦
        if ltb_ℤ (pos 0) slice then leb_ℤ slice (now -ℤ (task m.rt_task).last_sched) else false
    | _ ↦ false
  ]
