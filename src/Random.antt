-- ===== src/Random.antt =====
-- libmetasim/randomvar.cpp: the generator of random numbers, and the random variables that draw
-- from it or run through an array. A `RandNum` is a `long int` of 64 bits: no value that occurs
-- leaves that range, as the theorems show. A `double` is a value of any type with the operations of
-- `Doubles`; parameters read from texts and files are left out.
pub mod Lehmer
pub mod Repeat
pub mod Cycle
pub mod Examples
use partsim.Prelude.{
  ℕ, zero, suc, ◌+◌, ◌/◌, ◌%◌, Bool, true, false, Option, none, some, List, [], ◌∷◌, length, leb,
  get_elem?, if◌then◌else◌,
}
use partsim.Prelude.Int.{ℤ, pos, negsuc, sub_ℕ, ◌+ℤ◌, ◌-ℤ◌, ◌*ℤ◌, ltb_ℤ}
use partsim.Prelude.Action.{
  Action, get, modify, pure, raise, on_part, ◌>>=◌, ◌>>◌, out_of_range, out_of_fuel,
}
use partsim.CapacityTimer.{Doubles}

-- `A`, `M`, `Q` and `R`
abbrev pub multiplier : ℤ
multiplier = pos 16807

abbrev pub modulus : ℕ
modulus = 2147483647

abbrev pub quotient : ℕ
quotient = 127773

abbrev pub remainder : ℤ
remainder = pos 2836

-- Division of C++, which rounds to zero.
abbrev pub div_trunc : ℤ → ℕ → ℤ
div_trunc (pos n) d = pos (n / d)
div_trunc (negsuc n) d = sub_ℕ 0 (suc n / d)

abbrev pub rem_trunc : ℤ → ℕ → ℤ
rem_trunc (pos n) d = pos (n % d)
rem_trunc (negsuc n) d = sub_ℕ 0 (suc n % d)

pub record RandomGen : Type 0 where
  pub seed : ℤ
  pub xn : ℤ

abbrev pub next_xn : ℤ → ℤ
next_xn x = if ltb_ℤ x (pos 0) then x +ℤ pos modulus else x

-- The difference that `sample` computes from the last number.
unfoldable pub schrage : ℤ → ℤ
schrage x = multiplier *ℤ rem_trunc x quotient -ℤ remainder *ℤ div_trunc x quotient

unfoldable pub sample : Action RandomGen ℤ
unfolding schrage
sample = do
  modify (λ g. record g { xn = schrage g.xn })
  modify (λ g. record g { xn = next_xn g.xn })
  g ← get
  pure g.xn

unfoldable pub init : ℤ → Action RandomGen (Unit {0})
init s = modify (λ g. record { seed = s; xn = s })

-- A uniform variable with its generator, which other variables may share.
pub record UniformVar (D : Type 0) : Type 0 where
  pub gen : RandomGen
  pub min : D
  pub max : D
  pub generated_value : D

module _ {D : Type 0} (num : Doubles D) where
  abbrev pub on_gen : {B : Type 0} → Action RandomGen B → Action (UniformVar D) B
  on_gen m = on_part (λ u. u.gen) (λ g u. record u { gen = g }) m

  -- `tmp * (_max - _min) / _gen->getModule() + _min`
  abbrev pub scaled : UniformVar D → ℤ → D
  scaled u x =
      num.add (num.div (num.mul (num.of_tick x) (num.sub u.max u.min)) (num.of_tick (pos modulus)))
        u.min

  abbrev pub generate : Action (UniformVar D) (Unit {0})
  generate = do x ← on_gen sample; modify (λ u. record u { generated_value = scaled u x })

  unfoldable pub uniform_get : Action (UniformVar D) D
  unfolding sample
  uniform_get = do
    u ← get
    if num.eq u.generated_value (num.of_tick (pos 0)) then generate else pure tt
    u' ← get
    pure u'.generated_value

  -- The loop of `NormalVar::get`, which draws the two samples; `epsilon` is the least normal
  -- `double`.
  unfoldable pub draw_two : D → ℕ → Action (UniformVar D) (D × D)
  unfolding uniform_get
  draw_two epsilon zero = raise out_of_fuel
  draw_two epsilon (suc fuel) = do
    u1 ← uniform_get
    u2 ← uniform_get
    let again = draw_two epsilon fuel
    if num.le u1 epsilon then again else pure (u1, u2)

-- `DetVar`: an array of values, and the position of the next one.
pub record DetVar (D : Type 0) : Type 0 where
  pub array : List D
  pub count : ℕ

module _ {D : Type 0} where
  -- `_array[_count]`, which is undefined out of range.
  abbrev pub element : Option D → Action (DetVar D) D
  element none = raise out_of_range
  element (some v) = pure v

  unfoldable pub det_get : Action (DetVar D) D
  det_get = do
    modify (λ v. if leb (length v.array) v.count then record v { count = 0 } else v)
    v ← get
    modify (λ v. record v { count = v.count + 1 })
    element (get_elem? v.array v.count)

  -- The maximum of the rest of the array and of what was found.
  abbrev pub max_loop : Doubles D → D → List D → D
  max_loop num m [] = m
  max_loop num m (x ∷ xs) = max_loop num (if num.lt m x then x else m) xs

  unfoldable pub det_maximum : Doubles D → DetVar D → D
  det_maximum num v = elim v.array [ [] ↦ num.of_tick (pos 0) | x ∷ xs ↦ max_loop num x xs ]

  abbrev pub min_loop : Doubles D → D → List D → D
  min_loop num m [] = m
  min_loop num m (x ∷ xs) = min_loop num (if num.lt x m then x else m) xs

  unfoldable pub det_minimum : Doubles D → DetVar D → D
  det_minimum num v = elim v.array [ [] ↦ num.of_tick (pos 0) | x ∷ xs ↦ min_loop num x xs ]
