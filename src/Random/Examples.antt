-- ===== src/Random/Examples.antt =====
-- The seed 42, a uniform variable over that of 1, and an array of three values.
use partsim.Prelude.{
  ℕ, ◌*◌, ◌%◌, ◌^◌, ◌≡◌, ◌<◌, refl, arith, false, some, List, [], ◌∷◌, get_elem?, length,
  if◌then◌else◌,
}
use partsim.Prelude.Int.{ℤ, pos, ◌-ℤ◌, ◌≤ℤ◌, ◌<ℤ◌, ◌*ℤ◌, ◌+ℤ◌, leb_ℤ, eqb_ℤ}
use partsim.Prelude.Action.{return, throw, out_of_fuel}
use partsim.CapacityTimer.Examples.{integers}
use partsim.Random.{UniformVar, init, sample, schrage, modulus, uniform_get, draw_two, det_get}
use partsim.Random.Lehmer.{drawn, sample-Lehmer}
use partsim.Random.Repeat.{value, generated, uniform_get-repeats}
use partsim.Random.Cycle.{after, det_get-cycles}

-- The first number from the seed 1.
first_number : (sample (record { seed = pos 1; xn = pos 1 })).0 ≡ return (pos 16807)
unfolding sample schrage ◌-ℤ◌ ◌*ℤ◌
first_number = refl

sample-Lehmer_example :
    let g = drawn 4 (init (pos 42) (record { seed = pos 1; xn = pos 1 })).1 in
    ((sample g).0 ≡ return (pos (16807 ^ 5 * 42 % modulus)))
    × (0 < 16807 ^ 5 * 42 % modulus)
    × (pos 0 -ℤ pos (2 ^ 31) ≤ℤ schrage g.xn)
    × (schrage g.xn <ℤ pos (2 ^ 31))
sample-Lehmer_example = sample-Lehmer 4 42 (omega arith) (omega arith)

abbrev unset : UniformVar ℤ
unset = record {
  gen = record { seed = pos 1; xn = pos 1 };
  min = pos 1;
  max = pos 2;
  generated_value = pos 0;
}

kept_value : eqb_ℤ (value integers unset) (pos 0) ≡ false
unfolding schrage ◌-ℤ◌ ◌*ℤ◌ ◌+ℤ◌
kept_value = refl

uniform_get-repeats_example :
    (uniform_get integers unset ≡ (return (value integers unset), generated integers unset))
    × (uniform_get integers (generated integers unset)
        ≡ (return (value integers unset), generated integers unset))
    × (draw_two integers (pos 20000) 8 unset ≡ (
        if leb_ℤ (value integers unset) (pos 20000)
        then (throw out_of_fuel, generated integers unset)
        else (return (value integers unset, value integers unset), generated integers unset)))
uniform_get-repeats_example = uniform_get-repeats integers unset (pos 20000) 7 refl kept_value

abbrev three : List ℕ
three = 5 ∷ 6 ∷ 7 ∷ []

three_full : 0 < length three
three_full = omega arith

det_get-cycles_example :
    (v : ℕ) × (get_elem? three (4 % 3) ≡ some v)
    × ((det_get (after three three_full 4)).0 ≡ return v)
det_get-cycles_example = det_get-cycles three 4 three_full
