-- ===== src/ExecInstr.antt =====
-- librtsim/exeinstr.cpp: an instruction that takes processor time. The state is the event queue and
-- the members of `ExecInstr`; `rest` holds the task and its processor, which the record
-- `InstrWorld` asks. A `double` is a value of a type `D` with the operations of `Doubles`.
-- Construction from text and debug output are left out.
pub mod Progress
pub mod Slice
pub mod Refresh
pub mod Examples
use partsim.Prelude.{ℕ, Bool, true, false, if◌then◌else◌}
use partsim.Prelude.Int.{pos, ◌+ℤ◌, ◌-ℤ◌, leb_ℤ}
use partsim.Prelude.Action.{
  Action, get, modify, pure, unless, on_part, ◌>>=◌, ◌>>◌, assertion_failed, no_cpu,
}
use partsim.Tick.{Tick}
use partsim.Event.{Sim, post, drop}
use partsim.CapacityTimer.{Doubles}

pub record ExecInstr (D A : Type 0) : Type 0 where
  pub sim : Sim
  pub is_beg_of_instr : Bool
  pub execd_time : Tick
  pub current_cost : Tick
  pub act_cycles : D
  pub last_time : Tick
  pub executing : Bool
  pub rest : A

-- `Tick(cost->get())`; whether `getCPU` and `getOldCPU` are not null, and their speeds;
-- `setWorkload` of the instruction's workload and of "idle"; and `_father->onInstrEnd()`.
pub record InstrWorld (D A : Type 0) : Type 0 where
  pub cost : Action A Tick
  pub has_cpu : A → Bool
  pub has_old_cpu : A → Bool
  pub speed : A → D
  pub old_speed : A → D
  pub set_workload : Action A (Unit {0})
  pub set_idle : Action A (Unit {0})
  pub father_instr_end : Action (ExecInstr D A) (Unit {0})

module _ {D A : Type 0} where
  abbrev pub on_sim : {B : Type 0} → Action Sim B → Action (ExecInstr D A) B
  on_sim m = on_part (λ i. i.sim) (λ s i. record i { sim = s }) m

  abbrev pub on_rest : {B : Type 0} → Action A B → Action (ExecInstr D A) B
  on_rest m = on_part (λ i. i.rest) (λ a i. record i { rest = a }) m

  unfoldable pub get_exec_time : ExecInstr D A → Tick
  get_exec_time i =
      if i.executing then i.execd_time +ℤ i.sim.glob_time -ℤ i.last_time else i.execd_time

  unfoldable pub end_run : ℕ → Action (ExecInstr D A) (Unit {0})
  end_run end_evt = on_sim (drop end_evt)

module _ {D A : Type 0} (num : Doubles D) (world : InstrWorld D A) (end_evt : ℕ) where
  abbrev pub zero_cycles : D
  zero_cycles = num.of_tick (pos 0)

  unfoldable pub new_run : Action (ExecInstr D A) (Unit {0})
  new_run = modify (λ i. record i {
    act_cycles = zero_cycles;
    last_time = pos 0;
    is_beg_of_instr = true;
    execd_time = pos 0;
    executing = false;
  })

  unfoldable pub reset : Action (ExecInstr D A) (Unit {0})
  reset = do
    modify (λ i. record i {
      act_cycles = zero_cycles;
      last_time = pos 0;
      is_beg_of_instr = true;
      execd_time = pos 0;
    })
    on_sim (drop end_evt)

  -- `if (isBegOfInstr)`
  abbrev pub begin_instr : Bool → Action (ExecInstr D A) (Unit {0})
  begin_instr false = pure tt
  begin_instr true = do
    modify (λ i. record i { execd_time = pos 0; act_cycles = zero_cycles; is_beg_of_instr = false })
    c ← on_rest world.cost
    modify (λ i. record i { current_cost = c })

  -- The time until the end, as `schedule` computes it.
  unfoldable pub time_left : ExecInstr D A → D → Tick
  time_left i speed =
      if num.lt (num.mul i.act_cycles speed) (num.of_tick i.current_cost)
      then num.ceil
          (num.div (num.sub (num.of_tick i.current_cost) (num.mul i.act_cycles speed)) speed)
      else pos 0

  abbrev pub post_end : Tick → Action (ExecInstr D A) (Unit {0})
  post_end tmp i =
      (unless (leb_ℤ (pos 0) tmp) assertion_failed
          >> on_sim (post end_evt (i.sim.glob_time +ℤ tmp) false))
        i

  unfoldable pub schedule : Action (ExecInstr D A) (Unit {0})
  unfolding time_left
  schedule = do
    modify (λ i. record i { last_time = i.sim.glob_time; executing = true })
    i ← get
    begin_instr i.is_beg_of_instr
    i' ← get
    unless (world.has_cpu i'.rest) no_cpu
    on_rest world.set_workload
    i'' ← get
    post_end (time_left i'' (world.speed i''.rest))

  -- What was executed since `lastTime`, at a speed.
  abbrev pub account : D → ExecInstr D A → ExecInstr D A
  account speed i = record i {
    act_cycles =
        num.add i.act_cycles (num.mul (num.of_tick (i.sim.glob_time -ℤ i.last_time)) speed);
    execd_time = i.execd_time +ℤ (i.sim.glob_time -ℤ i.last_time);
    last_time = i.sim.glob_time;
  }

  abbrev pub stop_if : Bool → Action (ExecInstr D A) (Unit {0})
  stop_if false = pure tt
  stop_if true = do
    i ← get
    unless (world.has_old_cpu i.rest) no_cpu
    on_rest world.set_idle
    modify (λ i. account (world.old_speed i.rest) i)

  unfoldable pub deschedule : Action (ExecInstr D A) (Unit {0})
  deschedule = do
    on_sim (drop end_evt)
    i ← get
    stop_if i.executing
    modify (λ i. record i { executing = false })

  unfoldable pub on_end : Action (ExecInstr D A) (Unit {0})
  on_end = do
    modify (λ i. record i {
      execd_time = i.execd_time +ℤ (i.sim.glob_time -ℤ i.last_time);
      is_beg_of_instr = true;
      executing = false;
      last_time = i.sim.glob_time;
      act_cycles = zero_cycles;
    })
    on_sim (drop end_evt)
    world.father_instr_end

  -- The rest of the cost in ticks, which only the assertion and the message read.
  abbrev pub refreshed_left : ExecInstr D A → D → Tick
  refreshed_left i new_speed =
      if num.lt i.act_cycles (num.of_tick i.current_cost)
      then num.ceil (num.div (num.sub (num.of_tick i.current_cost) i.act_cycles) new_speed)
      else pos 0

  unfoldable pub refresh_exec : (old_speed new_speed : D) → Action (ExecInstr D A) (Unit {0})
  refresh_exec old_speed new_speed = do
    on_sim (drop end_evt)
    modify (account old_speed)
    i ← get
    unless (leb_ℤ (pos 0) (refreshed_left i new_speed)) assertion_failed
    on_sim (
        post end_evt
          (i.sim.glob_time +ℤ num.to_tick (num.div (num.of_tick i.current_cost) new_speed)) false)
