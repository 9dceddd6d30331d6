-- ===== src/Task/Preemption.antt =====
-- When a task that executes is descheduled.
use partsim.Prelude.{ℕ, ◌≡◌, ◌≢◌, Bool, true, false, not, ◌&&◌, ◌⊎◌, ◌==◌, some, get_elem?}
use partsim.Prelude.Int.{◌+ℤ◌}
use partsim.Prelude.Action.{Outcome, return, throw, task_not_active, task_not_executing}
use partsim.PriorityList.Order.{contains}
use partsim.Event.Order.{IsValid}
use partsim.Event.Drop.{dropped}
use partsim.Task.{Task, TaskEvents, TaskWorld, tsk_idle, tsk_ready, tsk_exec}
use partsim.Task.Arrivals.{Acted}

-- The task with its end out of the queue.
abbrev pub ending : {A : Type 0} → TaskEvents → Task A → Task A
ending evt s = record s { sim = dropped evt.end_evt s.sim }

-- The same with its instruction descheduled.
abbrev pub interrupted : {A : Type 0} → TaskEvents → TaskWorld A → ℕ → Task A → Task A
interrupted evt env i s = (env.instr_deschedule i (ending evt s)).1

-- What `onDesched` answers of a task at the instruction `i`.
abbrev pub DeschedOutcome :
    {A : Type 0}
    → (ℕ → Bool)
    → TaskEvents
    → TaskWorld A
    → ℕ
    → Task A
    → Outcome (Unit {0}) × Task A
    → Type 0
DeschedOutcome mine evt env i s (throw x, s') =
    (s' ≡ s)
    × (((x ≡ task_not_active) × (s.state ≡ tsk_idle))
        ⊎ ((x ≡ task_not_executing) × (s.state ≢ tsk_exec)))
DeschedOutcome mine evt env i s (return _, s') =
    (s.state ≡ tsk_exec)
    × (s'.state ≡ tsk_ready)
    × (s'.execd_time ≡ s.execd_time +ℤ env.instr_exec_time (interrupted evt env i s) i)
    × IsValid s'.sim
    × ((z : ℕ)
        → mine z ≡ false
        → contains z s'.sim.event_queue ≡ (contains z s.sim.event_queue && not (z == evt.end_evt)))

module _ {A : Type 0} (mine : ℕ → Bool) (evt : TaskEvents) (env : TaskWorld A) (s : Task A) (i : ℕ)
    (deschedules : Acted mine (ending evt s) (env.instr_deschedule i (ending evt s)))
    (v : IsValid s.sim) (cpu : env.has_old_cpu s ≡ true)
    (instr : get_elem? s.instr_queue s.act_instr ≡ some i) where
  abbrev left : Task A
  left = interrupted evt env i s

  abbrev ended : Task A
  ended = record left {
    execd_time = left.execd_time +ℤ env.instr_exec_time left i;
    state = tsk_ready;
  }
