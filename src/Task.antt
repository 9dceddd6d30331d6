-- ===== src/Task.antt =====
-- librtsim/task.cpp: a task, its instances and its events. Child modules: Handlers for the handlers
-- of its events, Buffer, Arrivals, Running and Preemption for the theorems. An instruction (`Instr
-- *`) is a number, and the iterator `actInstr` a position in the list of instructions. The
-- processor that an event carries for traces is left out, as are names, placeholders and debug
-- output.
pub mod Handlers
pub mod Buffer
pub mod Arrivals
pub mod Running
pub mod Preemption
pub mod Examples
use partsim.Prelude.{
  ℕ, zero, suc, ◌≡◌, Bool, true, false, not, ◌&&◌, ◌||◌, ltb, Option, none, some, List, [], ◌∷◌,
  ◌++◌, length, get_elem?, if◌then◌else◌,
}
use partsim.Prelude.Int.{ℤ, pos, ◌+ℤ◌, leb_ℤ, ltb_ℤ}
use partsim.Prelude.Action.{
  Action, Outcome, return, throw, get, modify, pure, raise, unless, on_part, ◌>>=◌, ◌>>◌,
  task_already_active, task_cannot_block, empty_task, null_dereference, kernel_already_set,
  out_of_fuel,
}
use partsim.Tick.{Tick}
use partsim.Event.{Sim, post, drop, process}

pub data TaskState : Type 0 where
  tsk_idle tsk_ready tsk_exec tsk_blocked : TaskState

pub record TaskEvents : Type 0 where
  pub arr_evt : ℕ
  pub end_evt : ℕ
  pub sched_evt : ℕ
  pub desched_evt : ℕ
  pub fake_arr_evt : ℕ
  pub kill_evt : ℕ
  pub dead_evt : ℕ

-- `rest` is the world around the task: kernel, instructions, processor, random variables.
pub record Task (A : Type 0) : Type 0 where
  pub sim : Sim
  pub state : TaskState
  pub has_int_time : Bool
  pub last_arrival : Tick
  pub phase : Tick
  pub arrival : Tick
  pub execd_time : Tick
  pub arr_queue : List Tick
  pub arr_queue_size : ℤ
  pub instr_queue : List ℕ
  pub act_instr : ℕ
  pub kernel : Option ℕ
  pub last_sched : Tick
  pub dl : Tick
  pub rdl : Tick
  pub has_feedback : Bool
  pub rest : A

-- What the task calls: methods of its kernel on the task, `(Tick) int_time->get()`, methods of an
-- instruction, `feedback->notify`, `setWorkload` of the processor for running and for idling, and
-- whether there is a processor.
pub record TaskWorld (A : Type 0) : Type 0 where
  pub kernel_suspend : Action (Task A) (Unit {0})
  pub kernel_dispatch : Action (Task A) (Unit {0})
  pub kernel_on_arrival : Action (Task A) (Unit {0})
  pub kernel_on_end : Action (Task A) (Unit {0})
  pub next_int_time : Action (Task A) Tick
  pub instr_reset : ℕ → Action (Task A) (Unit {0})
  pub instr_schedule : ℕ → Action (Task A) (Unit {0})
  pub instr_deschedule : ℕ → Action (Task A) (Unit {0})
  pub instr_exec_time : Task A → ℕ → Tick
  pub notify_feedback : Tick → Action (Task A) (Unit {0})
  pub set_workload : Action (Task A) (Unit {0})
  pub set_idle_workload : Action (Task A) (Unit {0})
  pub has_cpu : Task A → Bool
  pub has_old_cpu : Task A → Bool

abbrev pub is_active : TaskState → Bool
is_active tsk_idle = false
is_active _ = true

abbrev pub is_executing : TaskState → Bool
is_executing tsk_exec = true
is_executing _ = false

abbrev pub is_blocked : TaskState → Bool
is_blocked tsk_blocked = true
is_blocked _ = false

-- `pop_back` of a queue that is not empty.
unfoldable pub pop_back : List Tick → List Tick
pop_back [] = []
pop_back (x ∷ []) = []
pop_back (x ∷ y ∷ ys) = x ∷ pop_back (y ∷ ys)

-- `while (chkBuffArrival()) unbuffArrival();`
unfoldable pub unbuff_all : ℕ → List Tick → Option (List Tick)
unfolding pop_back
unbuff_all fuel [] = some []
unbuff_all zero (x ∷ xs) = none
unbuff_all (suc fuel) (x ∷ xs) = unbuff_all fuel (pop_back (x ∷ xs))

module _ {A : Type 0} where
  abbrev pub on_sim : {B : Type 0} → Action Sim B → Action (Task A) B
  on_sim m = on_part (λ s. s.sim) (λ sim s. record s { sim = sim }) m

  abbrev pub now : Task A → Tick
  now s = s.sim.glob_time

  abbrev pub set_state : TaskState → Action (Task A) (Unit {0})
  set_state x = modify (λ s. record s { state = x })

  unfoldable pub chk_buff_arrival : Task A → Bool
  chk_buff_arrival s = ltb 0 (length s.arr_queue)

  unfoldable pub buff_arrival : Action (Task A) (Unit {0})
  buff_arrival = modify (λ s.
      if leb_ℤ (pos (length s.arr_queue)) s.arr_queue_size
      then record s { arr_queue = s.arr_queue ++ now s ∷ [] }
      else s)

  unfoldable pub unbuff_arrival : Action (Task A) (Unit {0})
  unfolding pop_back
  unbuff_arrival = modify (λ s. record s { arr_queue = pop_back s.arr_queue })

  unfoldable pub get_buff_arrival : Action (Task A) Tick
  get_buff_arrival s = elim s.arr_queue [
    | [] ↦ (throw null_dereference, s)
    | t ∷ ts ↦ (return t, record s { arr_queue = ts })
  ]

  unfoldable pub set_kernel : ℕ → Action (Task A) (Unit {0})
  set_kernel k s = elim s.kernel [
    | some _ ↦ (throw kernel_already_set, s)
    | none ↦ (return tt, record s { kernel = some k })
  ]

module _ {A : Type 0} (evt : TaskEvents) (env : TaskWorld A) where
  unfoldable pub new_run : Action (Task A) (Unit {0})
  unfolding unbuff_all
  new_run s = elim s.instr_queue [
    | [] ↦ (throw empty_task, s)
    | i ∷ is ↦ elim (unbuff_all (length s.arr_queue) s.arr_queue) [
      | none ↦ (throw out_of_fuel, s)
      | some queue ↦
          let s' = record s {
            act_instr = 0;
            state = tsk_idle;
            arr_queue = queue;
            arrival = s.phase;
            last_arrival = s.phase;
          } in
          ((if s.has_int_time then on_sim (post evt.arr_evt s.phase false) else pure tt)
              >> modify (λ s. record s { dl = pos 0 }))
            s'
    ]
  ]

  -- The queue of arrivals is emptied by `pop_front`.
  unfoldable pub end_run : Action (Task A) (Unit {0})
  end_run = do
    modify (λ s. record s { arr_queue = [] })
    on_sim (drop evt.arr_evt)
    on_sim (drop evt.end_evt)
    on_sim (drop evt.sched_evt)
    on_sim (drop evt.desched_evt)
    on_sim (drop evt.fake_arr_evt)
    on_sim (drop evt.dead_evt)
    on_sim (drop evt.kill_evt)

  unfoldable pub schedule : Action (Task A) (Unit {0})
  schedule = do modify (λ s. record s { last_sched = now s }); on_sim (process evt.sched_evt false)

  unfoldable pub deschedule : Action (Task A) (Unit {0})
  deschedule = do on_sim (drop evt.sched_evt); on_sim (process evt.desched_evt false)

  unfoldable pub reactivate : Action (Task A) (Unit {0})
  reactivate s =
      if s.has_int_time
      then (env.next_int_time >>= (λ v s'.
            if ltb_ℤ (pos 0) v
            then on_sim (post evt.arr_evt (now s' +ℤ v) false) s'
            else (return tt, s')))
          s
      else (return tt, s)

  abbrev pub reset_all : List ℕ → Action (Task A) (Unit {0})
  reset_all [] = pure tt
  reset_all (i ∷ is) = env.instr_reset i >> reset_all is

  -- The absolute deadline, and its event if it is not in the past.
  abbrev pub set_deadline : Action (Task A) (Unit {0})
  set_deadline s =
      let s' = record s { dl = s.arrival +ℤ s.rdl } in
      if leb_ℤ (now s') s'.dl then on_sim (post evt.dead_evt s'.dl false) s' else (return tt, s')

  unfoldable pub handle_arrival : Tick → Action (Task A) (Unit {0})
  handle_arrival arr = do
    s ← get
    unless (not (is_active s.state)) task_already_active
    modify (λ s. record s { arrival = arr; execd_time = pos 0; act_instr = 0 })
    reset_all s.instr_queue
    set_state tsk_ready
    set_deadline

  unfoldable pub block : Action (Task A) (Unit {0})
  block = do
    s ← get
    unless (is_active s.state && not (is_blocked s.state)) task_cannot_block
    env.kernel_suspend
    set_state tsk_blocked
    env.kernel_dispatch

  unfoldable pub unblock : Action (Task A) (Unit {0})
  unblock = set_state tsk_ready >> env.kernel_on_arrival

  -- `activate(t)`
  unfoldable pub activate_at : Tick → Action (Task A) (Unit {0})
  activate_at t = on_sim (drop evt.arr_evt) >> on_sim (post evt.arr_evt t false)
