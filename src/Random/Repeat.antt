-- ===== src/Random/Repeat.antt =====
-- A uniform variable draws once, and what is built on it gets the same value again.
use partsim.Prelude.{ℕ, suc, zero, ◌≡◌, refl, true, false, if◌then◌else◌, Bool-cases, inl, inr}
use partsim.Prelude.Int.{pos}
use partsim.Prelude.Action.{return, throw, out_of_fuel}
use partsim.CapacityTimer.{Doubles}
use partsim.Random.{UniformVar, sample, schrage, next_xn, scaled, uniform_get, draw_two}

module _ {D : Type 0} (num : Doubles D) (u : UniformVar D) where
  -- What the next call of `get` generates.
  abbrev pub value : D
  value = scaled num u (next_xn (schrage u.gen.xn))

  abbrev pub generated : UniformVar D
  generated = record u { gen = (sample u.gen).1; generated_value = value }

  get_first_lem :
      num.eq u.generated_value (num.of_tick (pos 0)) ≡ true
      → uniform_get num u ≡ (return value, generated)
  unfolding uniform_get sample
  get_first_lem fresh = rw fresh refl

  get_again_lem :
      num.eq value (num.of_tick (pos 0)) ≡ false
      → uniform_get num generated ≡ (return value, generated)
  unfolding uniform_get sample
  get_again_lem kept = rw kept refl

  module _ (epsilon : D) (kept : num.eq value (num.of_tick (pos 0)) ≡ false) where
    draw_small :
        (fuel : ℕ)
        → num.le value epsilon ≡ true
        → draw_two num epsilon fuel generated ≡ (throw out_of_fuel, generated)
    unfolding draw_two
    draw_small zero small = refl
    draw_small (suc fuel) small =
        rw (get_again_lem kept, get_again_lem kept, small) (draw_small fuel small)

-- A uniform variable that has no value yet, where the value that it generates is not zero: the
-- second call of `get` returns the first value again and draws no number. So the two samples of a
-- normal variable are the same, and its loop does not end, whatever the fuel, if the value is at
-- most `epsilon`.
pub uniform_get-repeats :
    {D : Type 0} (num : Doubles D) (u : UniformVar D) (epsilon : D) (fuel : ℕ)
    → num.eq u.generated_value (num.of_tick (pos 0)) ≡ true
    → num.eq (value num u) (num.of_tick (pos 0)) ≡ false
    → (uniform_get num u ≡ (return (value num u), generated num u))
      × (uniform_get num (generated num u) ≡ (return (value num u), generated num u))
      × (draw_two num epsilon (suc fuel) u ≡ (
          if num.le (value num u) epsilon
          then (throw out_of_fuel, generated num u)
          else (return (value num u, value num u), generated num u)))
unfolding draw_two
uniform_get-repeats num u epsilon fuel fresh kept = (
  get_first_lem num u fresh,
  get_again_lem num u kept,
  elim (Bool-cases (num.le (value num u) epsilon)) [
    | inl small ↦
        rw (get_first_lem num u fresh, get_again_lem num u kept, small)
          (draw_small num u epsilon kept fuel small)
    | inr large ↦ rw (get_first_lem num u fresh, get_again_lem num u kept, large) refl
  ],
)
