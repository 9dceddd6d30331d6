-- ===== src/CapacityTimer.antt =====
-- librtsim/capacitytimer.cpp: a quantity that grows with time while the timer runs. A `double` is a
-- value of a type `D` with the operations of the record `Doubles`: nothing is assumed about
-- floating-point arithmetic unless a theorem says so.
pub mod Examples
use partsim.Prelude.{Bool, true, false, not, ◌&&◌, if◌then◌else◌}
use partsim.Prelude.Int.{pos, ◌-ℤ◌}
use partsim.Prelude.Action.{Action, get, modify, pure, unless, ◌>>=◌, ◌>>◌, assertion_failed}
use partsim.Tick.{Tick}

-- `of_tick` is `double(t)`, and the three conversions back are `Tick(x)`, `Tick::ceil` and
-- `Tick::floor`.
pub record Doubles (D : Type 0) : Type 0 where
  pub of_tick : Tick → D
  pub to_tick : D → Tick
  pub ceil : D → Tick
  pub floor : D → Tick
  pub add : D → D → D
  pub sub : D → D → D
  pub mul : D → D → D
  pub div : D → D → D
  pub le : D → D → Bool
  pub lt : D → D → Bool
  pub eq : D → D → Bool

pub data TimerStatus : Type 0 where
  stopped running : TimerStatus

pub record CapacityTimer (D : Type 0) : Type 0 where
  pub last_time : Tick
  pub value : D
  pub status : TimerStatus
  pub der : D

abbrev pub is_stopped : TimerStatus → Bool
is_stopped stopped = true
is_stopped running = false

module _ {D : Type 0} (num : Doubles D) where
  -- The constructor.
  abbrev pub new_timer : CapacityTimer D
  new_timer = record {
    last_time = pos 0;
    value = num.of_tick (pos 0);
    status = stopped;
    der = num.of_tick (pos 1);
  }

  -- `get_value` at the time `now`.
  unfoldable pub get_value : Tick → CapacityTimer D → D
  get_value now t =
      if is_stopped t.status
      then t.value
      else num.add t.value (num.mul (num.of_tick (now -ℤ t.last_time)) t.der)

  unfoldable pub start : Tick → D → Action (CapacityTimer D) (Unit {0})
  start now speed = do
    t ← get
    unless (is_stopped t.status) assertion_failed
    modify (λ t. record t { der = speed; last_time = now; status = running })

  unfoldable pub stop : Tick → Action (CapacityTimer D) D
  stop now = do
    t ← get
    unless (not (is_stopped t.status)) assertion_failed
    modify (λ t. record t {
      value = num.add t.value (num.mul (num.of_tick (now -ℤ t.last_time)) t.der);
      status = stopped;
    })
    t' ← get
    pure t'.value

  unfoldable pub get_intercept : Tick → Tick → Action (CapacityTimer D) Tick
  unfolding get_value
  get_intercept now v = do
    t ← get
    unless (not (is_stopped t.status) && not (num.eq t.der (num.of_tick (pos 0)))) assertion_failed
    pure (num.floor (num.div (num.sub (num.of_tick v) (get_value now t)) t.der))

  unfoldable pub set_value : D → Action (CapacityTimer D) (Unit {0})
  set_value v = do
    t ← get
    unless (is_stopped t.status) assertion_failed
    modify (λ t. record t { value = v })

  unfoldable pub timer_new_run : Action (CapacityTimer D) (Unit {0})
  timer_new_run =
      modify
        (λ t. record t { status = stopped; value = num.of_tick (pos 0); der = num.of_tick (pos 1) })
