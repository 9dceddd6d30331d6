-- ===== src/Task/Handlers.antt =====
-- librtsim/task.cpp: the handlers of a task's events.
use partsim.Prelude.{ℕ, ◌+◌, false, not, none, some, length, get_elem?, ◌==◌, if◌then◌else◌}
use partsim.Prelude.Int.{◌+ℤ◌}
use partsim.Prelude.Action.{
  Action, return, throw, get, modify, pure, unless, ◌>>=◌, ◌>>◌, task_not_active,
  task_not_executing, task_already_executing, no_cpu, null_dereference,
}
use partsim.Tick.{Tick}
use partsim.Event.{post, drop, process}
use partsim.Task.{
  Task, TaskEvents, TaskWorld, tsk_idle, tsk_ready, tsk_exec, is_active, is_executing, on_sim, now,
  set_state, chk_buff_arrival, buff_arrival, get_buff_arrival, handle_arrival, reactivate,
  deschedule, end_run,
}

module _ {A : Type 0} (evt : TaskEvents) (env : TaskWorld A) where
  -- A call through `actInstr`; past the end of the list that is undefined.
  abbrev pub on_act_instr : (ℕ → Action (Task A) (Unit {0})) → Action (Task A) (Unit {0})
  on_act_instr m s = elim (get_elem? s.instr_queue s.act_instr) [
    | none ↦ (throw null_dereference, s)
    | some i ↦ m i s
  ]

  -- `execdTime += (*actInstr)->getExecTime()`
  abbrev pub add_exec_time : Action (Task A) (Unit {0})
  add_exec_time =
      on_act_instr
        (λ i. modify (λ s. record s { execd_time = s.execd_time +ℤ env.instr_exec_time s i }))

  -- `getExecTime`
  unfoldable pub get_exec_time : Action (Task A) Tick
  get_exec_time s =
      if is_active s.state
      then (elim (get_elem? s.instr_queue s.act_instr) [
        | none ↦ (throw null_dereference, s)
        | some i ↦ (return (s.execd_time +ℤ env.instr_exec_time s i), s)
      ])
      else (return s.execd_time, s)

  unfoldable pub on_arrival : Action (Task A) (Unit {0})
  unfolding buff_arrival reactivate
  on_arrival s =
      ((if is_active s.state
            then (on_sim (process evt.dead_evt false) >> buff_arrival)
            else (handle_arrival evt env (now s) >> env.kernel_on_arrival))
          >> reactivate evt env)
        s

  -- The last part of `onEndInstance` and `onKill`.
  unfoldable pub finish_instance : Action (Task A) (Unit {0})
  unfolding chk_buff_arrival
  finish_instance = do
    env.kernel_on_end
    set_state tsk_idle
    s ← get
    if s.has_feedback then (get_exec_time >>= env.notify_feedback) else pure tt
    s' ← get
    if chk_buff_arrival s' then on_sim (process evt.fake_arr_evt false) else pure tt

  unfoldable pub on_end_instance : Action (Task A) (Unit {0})
  unfolding finish_instance
  on_end_instance = do
    on_sim (drop evt.dead_evt)
    s ← get
    unless (is_active s.state) task_not_active
    unless (is_executing s.state) task_not_executing
    modify (λ s. record s { act_instr = 0; last_arrival = s.arrival })
    s' ← get
    unless (env.has_cpu s') null_dereference
    finish_instance

  unfoldable pub kill_instance : Action (Task A) (Unit {0})
  unfolding chk_buff_arrival deschedule
  kill_instance = do
    s ← get
    if chk_buff_arrival s then on_sim (post evt.fake_arr_evt (now s) false) else pure tt
    s' ← get
    if is_executing s'.state then deschedule evt env else pure tt
    t ← get
    on_sim (post evt.kill_evt (now t) false)

  unfoldable pub on_kill : Action (Task A) (Unit {0})
  unfolding finish_instance end_run
  on_kill = do
    on_sim (drop evt.dead_evt)
    on_sim (drop evt.kill_evt)
    modify (λ s. record s { last_arrival = s.arrival })
    s ← get
    unless (env.has_cpu s) null_dereference
    finish_instance
    end_run evt env

  unfoldable pub on_sched : Action (Task A) (Unit {0})
  on_sched = do
    s ← get
    unless (env.has_cpu s) null_dereference
    unless (is_active s.state) task_not_active
    unless (not (is_executing s.state)) task_already_executing
    on_sim (drop evt.desched_evt)
    set_state tsk_exec
    env.set_workload
    on_act_instr env.instr_schedule

  unfoldable pub on_desched : Action (Task A) (Unit {0})
  on_desched = do
    s ← get
    unless (env.has_old_cpu s) null_dereference
    unless (is_active s.state) task_not_active
    unless (is_executing s.state) task_not_executing
    on_sim (drop evt.end_evt)
    on_act_instr env.instr_deschedule
    add_exec_time
    set_state tsk_ready

  unfoldable pub on_instr_end : Action (Task A) (Unit {0})
  on_instr_end = do
    s ← get
    unless (is_active s.state) task_not_active
    unless (env.has_cpu s) no_cpu
    env.set_idle_workload
    add_exec_time
    modify (λ s. record s { act_instr = s.act_instr + 1 })
    s' ← get
    if s'.act_instr == length s'.instr_queue
        then on_sim (post evt.end_evt (now s') false)
        else (if is_executing s'.state then on_act_instr env.instr_schedule else pure tt)

  unfoldable pub on_fake_arrival : Action (Task A) (Unit {0})
  unfolding get_buff_arrival
  on_fake_arrival = do arr ← get_buff_arrival; handle_arrival evt env arr; env.kernel_on_arrival
