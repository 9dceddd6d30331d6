-- ===== src/Random/Lehmer.antt =====
-- The generator is the one of Lehmer with multiplier 7 ^ 5 modulo 2 ^ 31 - 1, by Schrage's method.
use partsim.Prelude.{
  ℕ, zero, suc, ◌+◌, ◌-◌, ◌*◌, ◌/◌, ◌%◌, ◌^◌, ◌≡◌, ◌≤◌, ◌<◌, refl, sym, ap, ◌∙◌, arith,
}
use native.Mathlib.Nat.{mul_assoc, pow-succ'}
use partsim.Prelude.Int.{pos, sub_ℕ, ◌+ℤ◌, ◌-ℤ◌, ◌*ℤ◌, ◌≤ℤ◌, ◌<ℤ◌}
use partsim.Prelude.Action.{return}
use partsim.Random.{RandomGen, init, sample, schrage, modulus, next_xn}

pos-mul : (a b : ℕ) → pos a *ℤ pos b ≡ pos (a * b)
unfolding ◌*ℤ◌
pos-mul a b = ground arith

pos-sub : (a b : ℕ) → pos a -ℤ pos b ≡ sub_ℕ a b
unfolding ◌-ℤ◌
pos-sub a b = ground arith

schrage_lem : (x : ℕ) → schrage (pos x) ≡ sub_ℕ (16807 * (x % 127773)) (2836 * (x / 127773))
unfolding schrage
schrage_lem x =
    rw (pos-mul 16807 (x % 127773), pos-mul 2836 (x / 127773))
      (pos-sub (16807 * (x % 127773)) (2836 * (x / 127773)))

mod_above :
    (x : ℕ)
    → x < modulus
    → 2836 * (x / 127773) ≤ 16807 * (x % 127773)
    → 16807 * x % modulus ≡ 16807 * (x % 127773) - 2836 * (x / 127773)
mod_above x h k = omega arith

mod_below :
    (x : ℕ)
    → x < modulus
    → 16807 * (x % 127773) < 2836 * (x / 127773)
    → 16807 * x % modulus ≡ 16807 * (x % 127773) + modulus - 2836 * (x / 127773)
mod_below x h k = omega arith

next_xn_lem :
    (a b r : ℕ)
    → (b ≤ a → r ≡ a - b)
    → (a < b → r ≡ a + modulus - b)
    → b < modulus
    → next_xn (sub_ℕ a b) ≡ pos r
unfolding ◌+ℤ◌
next_xn_lem a b r h k l = ground arith

next-Lehmer : (x : ℕ) → x < modulus → next_xn (schrage (pos x)) ≡ pos (16807 * x % modulus)
next-Lehmer x h = rw (schrage_lem x) (
    next_xn_lem (16807 * (x % 127773)) (2836 * (x / 127773)) (16807 * x % modulus) (mod_above x h)
      (mod_below x h) (omega arith))

schrage_bounds :
    (x : ℕ)
    → x < modulus
    → (pos 0 -ℤ pos (2 ^ 31) ≤ℤ schrage (pos x)) × (schrage (pos x) <ℤ pos (2 ^ 31))
unfolding ◌-ℤ◌
schrage_bounds x h =
    let above : 16807 * (x % 127773) < 2 ^ 31 = omega arith in
    let below : 2836 * (x / 127773) < 2 ^ 31 = omega arith in rw (schrage_lem x) (ground arith)

-- The modulus is prime to the multiplier.
lehmer_pos : (x : ℕ) → 0 < x → x < modulus → 0 < 16807 * x % modulus
lehmer_pos x h k = omega arith

-- The samples that are drawn after `init`.
abbrev pub drawn : ℕ → RandomGen → RandomGen
drawn zero g = g
drawn (suc n) g = (sample (drawn n g)).1

mod_step : (t : ℕ) → 16807 * (t % modulus) % modulus ≡ 16807 * t % modulus
mod_step t = omega arith

-- The `n`-th number of Lehmer's sequence from `s`.
abbrev pub lehmer : ℕ → ℕ → ℕ
lehmer n s = 16807 ^ n * s % modulus

lehmer-suc : (n s : ℕ) → lehmer (suc n) s ≡ 16807 * lehmer n s % modulus
lehmer-suc n s =
    rw (pow-succ' 16807 n, mul_assoc 16807 (16807 ^ n) s) (sym (mod_step (16807 ^ n * s)))

lehmer_range : (n s : ℕ) → 0 < s → s < modulus → (0 < lehmer n s) × (lehmer n s < modulus)
lehmer_range zero s h k = omega arith
lehmer_range (suc n) s h k =
    let (some, below) = lehmer_range n s h k in
    rw (lehmer-suc n s) (lehmer_pos (lehmer n s) some below, omega arith)

sample_lem :
    (g : RandomGen) (x : ℕ)
    → g.xn ≡ pos x
    → x < modulus
    → sample g ≡ (return (pos (16807 * x % modulus)), record g { xn = pos (16807 * x % modulus) })
unfolding sample
sample_lem g x e h = rw (e, next-Lehmer x h) refl

drawn_lem :
    (g : RandomGen) (n s : ℕ)
    → g.xn ≡ pos s
    → 0 < s
    → s < modulus
    → (drawn n g).xn ≡ pos (lehmer n s)
drawn_lem g zero s e h k = e ∙ ap pos (omega arith)
drawn_lem g (suc n) s e h k =
    let before = drawn_lem g n s e h k in
    ap (λ r. r.1.xn) (sample_lem (drawn n g) (lehmer n s) before (lehmer_range n s h k).1)
    ∙ ap pos (sym (lehmer-suc n s))

-- The sample after `n` others, from a seed between 1 and 2 ^ 31 - 2: it is 16807 ^ (n + 1) times
-- the seed modulo 2 ^ 31 - 1, never 0, and the difference that is computed for it, without a
-- division of a product, is a signed number of 32 bits.
pub sample-Lehmer :
    (n s : ℕ)
    → 0 < s
    → s < modulus
    → let g = drawn n (init (pos s) (record { seed = pos 1; xn = pos 1 })).1 in
      ((sample g).0 ≡ return (pos (16807 ^ suc n * s % modulus)))
      × (0 < 16807 ^ suc n * s % modulus)
      × (pos 0 -ℤ pos (2 ^ 31) ≤ℤ schrage g.xn)
      × (schrage g.xn <ℤ pos (2 ^ 31))
unfolding init
sample-Lehmer n s h k =
    let g : RandomGen = drawn n (record { seed = pos s; xn = pos s }) in
    let last = drawn_lem (record { seed = pos s; xn = pos s }) n s refl h k in
    let below = (lehmer_range n s h k).1 in
    (
      rw (sample_lem g (lehmer n s) last below)
          (ap (λ (r : ℕ). return (pos r)) (sym (lehmer-suc n s))),
      (lehmer_range (suc n) s h k).0,
      rw last ((schrage_bounds (lehmer n s) below).0),
      rw last ((schrage_bounds (lehmer n s) below).1),
    )
