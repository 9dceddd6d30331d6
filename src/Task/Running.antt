-- ===== src/Task/Running.antt =====
-- When a task may start and stop to execute.
use partsim.Prelude.{ℕ, ◌≡◌, Bool, false, not, ◌&&◌, ◌⊎◌, ◌==◌}
use partsim.Prelude.Action.{Outcome, return, throw, task_not_active, task_already_executing}
use partsim.PriorityList.Order.{contains}
use partsim.Event.Order.{IsValid}
use partsim.Event.Drop.{dropped}
use partsim.Task.{Task, TaskEvents, tsk_idle, tsk_ready, tsk_exec, tsk_blocked}

-- The task that executes, as its instruction is scheduled.
abbrev pub executing : {A : Type 0} → TaskEvents → Task A → Task A
executing evt s = record s { sim = dropped evt.desched_evt s.sim; state = tsk_exec }

-- What `onSched` answers, at an instruction whose events are `mine`.
abbrev pub SchedOutcome :
    {A : Type 0} → (ℕ → Bool) → TaskEvents → Task A → Outcome (Unit {0}) × Task A → Type 0
SchedOutcome mine evt s (throw x, s') =
    (s' ≡ s)
    × (((x ≡ task_not_active) × (s.state ≡ tsk_idle))
        ⊎ ((x ≡ task_already_executing) × (s.state ≡ tsk_exec)))
SchedOutcome mine evt s (return _, s') =
    ((s.state ≡ tsk_ready) ⊎ (s.state ≡ tsk_blocked))
    × (s'.state ≡ tsk_exec)
    × IsValid s'.sim
    × ((z : ℕ)
        → mine z ≡ false
        → contains z s'.sim.event_queue
          ≡ (contains z s.sim.event_queue && not (z == evt.desched_evt)))
