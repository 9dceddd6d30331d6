-- ===== src/ExecInstr/Progress.antt =====
-- How far an instruction is, and what its theorems ask of doubles and of the processor.
use partsim.Prelude.{ℕ, ◌+◌, ◌-◌, ◌^◌, ◌≤◌, ◌<◌, ◌≡◌, ◌⊎◌, true, false, ltb}
use partsim.Prelude.Int.{pos}
use partsim.Prelude.Action.{return}
use partsim.Tick.{Tick}
use partsim.CapacityTimer.{Doubles}
use partsim.ExecInstr.{ExecInstr, InstrWorld}

-- A `double` is exact on the whole numbers below 2^53, and one is neutral.
pub record IsExact {D : Type 0} (num : Doubles D) : Type 0 where
  pub mul_one : (x : D) → num.mul x (num.of_tick (pos 1)) ≡ x
  pub div_one : (x : D) → num.div x (num.of_tick (pos 1)) ≡ x
  pub add :
      (a b : ℕ)
      → a + b < 2 ^ 53
      → num.add (num.of_tick (pos a)) (num.of_tick (pos b)) ≡ num.of_tick (pos (a + b))
  pub sub :
      (a b : ℕ)
      → a < 2 ^ 53
      → b ≤ a
      → num.sub (num.of_tick (pos a)) (num.of_tick (pos b)) ≡ num.of_tick (pos (a - b))
  pub lt :
      (a b : ℕ)
      → a < 2 ^ 53
      → b < 2 ^ 53
      → num.lt (num.of_tick (pos a)) (num.of_tick (pos b)) ≡ ltb a b
  pub ceil : (a : ℕ) → a < 2 ^ 53 → num.ceil (num.of_tick (pos a)) ≡ pos a
  pub to_tick : (a : ℕ) → a < 2 ^ 53 → num.to_tick (num.of_tick (pos a)) ≡ pos a

-- The task is always on a processor of speed one, whose methods return.
pub record IsUnit {D A : Type 0} (num : Doubles D) (world : InstrWorld D A) : Type 0 where
  pub has_cpu : (a : A) → world.has_cpu a ≡ true
  pub has_old_cpu : (a : A) → world.has_old_cpu a ≡ true
  pub speed : (a : A) → world.speed a ≡ num.of_tick (pos 1)
  pub old_speed : (a : A) → world.old_speed a ≡ num.of_tick (pos 1)
  pub works : (a : A) → (world.set_workload a).0 ≡ return tt
  pub idles : (a : A) → (world.set_idle a).0 ≡ return tt

module _ {D A : Type 0} (num : Doubles D) where
  -- Of `c` ticks, `e` are executed.
  pub record IsAt (i : ExecInstr D A) (e c : ℕ) : Type 0 where
    pub begun : i.is_beg_of_instr ≡ false
    pub cycles : i.act_cycles ≡ num.of_tick (pos e)
    pub time : i.execd_time ≡ pos e
    pub cost : i.current_cost ≡ pos c
    pub left : e ≤ c
    pub small : c < 2 ^ 53

  -- The instruction goes on, or begins and draws its cost.
  abbrev pub GoesOn : InstrWorld D A → ExecInstr D A → (e c : ℕ) → Type 0
  GoesOn world i e c =
      IsAt i e c
      ⊎ ((i.is_beg_of_instr ≡ true)
          × (e ≡ 0)
          × ((world.cost i.rest).0 ≡ return (pos c))
          × (c < 2 ^ 53))

-- The clock has moved to `t`.
abbrev pub moved_to : {D A : Type 0} → Tick → ExecInstr D A → ExecInstr D A
moved_to t i = record i { sim = record i.sim { glob_time = t } }

-- What `deschedule` leaves of an instruction that executed for `n` ticks.
pub record Stopped {D A : Type 0} (num : Doubles D) (end_evt e c n : ℕ) (s : ExecInstr D A)
    : Type 0 where
  pub at : IsAt num s (e + n) c
  pub idle : s.executing ≡ false
  pub out : (s.sim.events end_evt).is_in_queue ≡ false
