-- ===== src/RoundRobin.antt =====
-- librtsim/scheduler/rrsched.cpp: the round robin scheduler, a scheduler with an event that ends
-- the slice of a task. Its models are those of the scheduler with the policy `rr`; `dynamic_cast`
-- to another policy gives null. `front` of an empty queue is undefined in the source, and raises
-- `null_dereference` here. `rest` holds the tasks and the kernel. Debug output is left out.
pub mod Rotation
pub mod Examples
use partsim.Prelude.{
  ℕ, ◌≡◌, Bool, true, false, not, ◌||◌, Option, none, some, List, [], ◌∷◌, ◌==◌, if◌then◌else◌,
}
use partsim.Prelude.Int.{ℤ, pos, ◌+ℤ◌, ltb_ℤ, eqb_ℤ}
use partsim.Prelude.Action.{
  Action, get, modify, pure, raise, unless, on_part, ◌>>=◌, ◌>>◌, task_not_found, assertion_failed,
  null_dereference,
}
use partsim.Tick.{Tick, to_int32}
use partsim.PriorityList.{insert as set_insert, erase, front}
use partsim.Event.{Sim, post, drop}
use partsim.Scheduler.{
  Scheduler, TaskModel, RtTask, Policy, rr, new_model, is_round_expired, store, find, before,
  enqueue_model,
}

pub record RrScheduler (A : Type 0) : Type 0 where
  pub sim : Sim
  pub sched : Scheduler
  pub default_slice : Tick
  pub enabled : Bool
  pub has_kernel : Bool
  pub rest : A

-- What a task answers, and `_kernel->dispatch()`.
pub record RrWorld (A : Type 0) : Type 0 where
  pub task : A → ℕ → RtTask
  pub dispatch : Action (RrScheduler A) (Unit {0})

-- `getRRSlice` of a model that is an `RRModel`.
abbrev pub slice_of : TaskModel → Option Tick
slice_of m = elim m.policy [ rr slice ↦ some slice | _ ↦ none ]

module _ {A : Type 0} where
  abbrev pub on_sim : {B : Type 0} → Action Sim B → Action (RrScheduler A) B
  on_sim m = on_part (λ r. r.sim) (λ s r. record r { sim = s }) m

  abbrev pub on_sched : {B : Type 0} → Action Scheduler B → Action (RrScheduler A) B
  on_sched m = on_part (λ r. r.sched) (λ s r. record r { sched = s }) m

  -- The model of a task and its slice.
  unfoldable pub rr_model : ℕ → RrScheduler A → Option (ℕ × Tick)
  rr_model t r = elim (find t r.sched) [
    | none ↦ none
    | some m ↦ elim (slice_of (r.sched.models m)) [ none ↦ none | some slice ↦ some (m, slice) ]
  ]

  abbrev pub put_slice : Tick → Option (ℕ × Tick) → Action (RrScheduler A) (Unit {0})
  put_slice slice none = raise task_not_found
  put_slice slice (some (m, _)) =
      on_sched (modify (λ s. store m (record (s.models m) { policy = rr slice }) s))

  unfoldable pub set_rr_slice : ℕ → Tick → Action (RrScheduler A) (Unit {0})
  unfolding rr_model
  set_rr_slice t slice r = put_slice slice (rr_model t r) r

  -- `addTask`, whose model is constructed at the address `m`.
  unfoldable pub add_task : (m t : ℕ) → Tick → Action (RrScheduler A) (Unit {0})
  add_task m t slice = do
    on_sched (enqueue_model m (new_model t (rr (pos 1))))
    r ← get
    let chosen = if ltb_ℤ slice (pos 1) then r.default_slice else slice
    on_sched (modify (λ s. store m (record (s.models m) { policy = rr chosen }) s))

  -- The end of the slice, `slice` from now.
  abbrev pub post_round : ℕ → Tick → Action (RrScheduler A) (Unit {0})
  post_round rr_evt slice r = on_sim (post rr_evt (r.sim.glob_time +ℤ slice) false) r

  abbrev pub start_slice : ℕ → Option (ℕ × Tick) → Action (RrScheduler A) (Unit {0})
  start_slice rr_evt none = raise task_not_found
  start_slice rr_evt (some (_, slice)) =
      if ltb_ℤ (pos 0) slice then post_round rr_evt slice else pure tt

  abbrev pub start_task : ℕ → Option ℕ → Action (RrScheduler A) (Unit {0})
  start_task rr_evt none r = pure tt r
  start_task rr_evt (some t) r = start_slice rr_evt (rr_model t r) r

  unfoldable pub notify : ℕ → Option ℕ → Action (RrScheduler A) (Unit {0})
  notify rr_evt t r =
      if r.enabled then (on_sim (drop rr_evt) >> start_task rr_evt t) r else pure tt r

-- The model at the front leaves the queue, and comes back if it is active.
unfoldable pub rotate : (ℕ → RtTask) → Tick → ℕ → Scheduler → Scheduler
rotate task now m s =
    let rest = erase (before task s.models) m s.queue in
    let s' = store m (record (s.models m) { insert_time = to_int32 now }) s in
    if (s.models m).active
    then record s' { queue = (set_insert (before task s'.models) m rest).0 }
    else record s { queue = rest }

module _ {A : Type 0} (world : RrWorld A) (rr_evt : ℕ) where
  abbrev pub is_expired : ℕ → RrScheduler A → Bool
  is_expired m r = is_round_expired (world.task r.rest) r.sim.glob_time (r.sched.models m)

  -- The slice of the model that is first now, after the round of `m`.
  abbrev pub next_slice : (m : ℕ) → ℕ → Option Tick → Action (RrScheduler A) (Unit {0})
  next_slice m first none r = pure tt r
  next_slice m first (some slice) r =
      if eqb_ℤ slice (pos 0)
      then on_sim (drop rr_evt) r
      else if not (first == m) || is_expired first r
      then (on_sim (drop rr_evt) >> post_round rr_evt slice) r
      else pure tt r

  abbrev pub next_round : (m : ℕ) → Option ℕ → Action (RrScheduler A) (Unit {0})
  next_round m none r = raise null_dereference r
  next_round m (some first) r = next_slice m first (slice_of (r.sched.models first)) r

  abbrev pub inform : Action (RrScheduler A) (Unit {0})
  inform r = if r.has_kernel then world.dispatch r else pure tt r

  abbrev pub end_slice : ℕ → RrScheduler A → RrScheduler A
  end_slice m r =
      if is_expired m r
      then record r { sched = rotate (world.task r.rest) r.sim.glob_time m r.sched }
      else r

  -- The round of the model `m` at the front of the queue, which is an `RRModel` if it has a slice.
  abbrev pub round_of : ℕ → Option Tick → Action (RrScheduler A) (Unit {0})
  round_of m none = pure tt
  round_of m (some _) = do modify (end_slice m); r ← get; next_round m (front r.sched.queue); inform

  abbrev pub round_front : Option ℕ → Action (RrScheduler A) (Unit {0})
  round_front none r = raise null_dereference r
  round_front (some m) r = round_of m (slice_of (r.sched.models m)) r

  unfoldable pub round : Action (RrScheduler A) (Unit {0})
  round r = if r.enabled then round_front (front r.sched.queue) r else pure tt r

  -- `isRoundExpired` of a task.
  abbrev pub expired_model : Option (ℕ × Tick) → Action (RrScheduler A) Bool
  expired_model none r = raise task_not_found r
  expired_model (some (m, _)) r = pure (is_expired m r) r

  unfoldable pub rr_is_round_expired : ℕ → Action (RrScheduler A) Bool
  rr_is_round_expired t = do
    r ← get
    unless r.enabled assertion_failed
    expired_model (rr_model t r)
