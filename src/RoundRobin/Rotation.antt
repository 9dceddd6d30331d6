-- ===== src/RoundRobin/Rotation.antt =====
-- A task whose slice is over goes behind the others.
use partsim.Prelude.{ℕ, ◌≡◌, ◌≢◌}
use partsim.Prelude.Int.{◌<ℤ◌}
use partsim.Tick.{Tick, to_int32}
use partsim.PriorityList.{insert as set_insert}
use partsim.Scheduler.{Scheduler, RtTask, rr, store}

-- A model of round robin that was inserted before the time `now`.
abbrev pub IsEarlier : Scheduler → Tick → (m x : ℕ) → Type 0
IsEarlier s now m x =
    (x ≢ m)
    × ((slice : Tick) × ((s.models x).policy ≡ rr slice))
    × ((s.models x).insert_time <ℤ to_int32 now)

module _ (task : ℕ → RtTask) (now : Tick) (m : ℕ) (s : Scheduler) (slice : Tick)
    (own : (s.models m).policy ≡ rr slice) where
  abbrev renewed : Scheduler
  renewed = store m (record (s.models m) { insert_time = to_int32 now }) s
