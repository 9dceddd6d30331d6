-- ===== src/Random/Cycle.antt =====
-- A variable of an array runs through it, again and again.
use partsim.Prelude.{
  ℕ, suc, zero, ◌+◌, ◌%◌, ◌≤◌, ◌<◌, ◌≡◌, refl, sym, ap, ◌∙◌, arith, length, leb, get_elem?,
  Bool-cases, inl, inr, some, List, [], ◌∷◌,
}
use native.Mathlib.Nat.{mod_self, mod-lt, mod-eq_of_lt, mod-add-mod}
use partsim.Prelude.Action.{return}
use partsim.Random.{DetVar, det_get}

found {ℓ} : {A : Type ℓ} (xs : List A) (i : ℕ) → i < length xs → (v : A) × (get_elem? xs i ≡ some v)
found [] i h = elim h [ ]
found (x ∷ xs) zero h = (x, refl)
found (x ∷ xs) (suc i) h = found xs i (omega arith)

module _ {D : Type 0} (xs : List D) (full : 0 < length xs) where
  -- The variable after `k` calls of `get`.
  abbrev pub after : ℕ → DetVar D
  after zero = record { array = xs; count = 0 }
  after (suc k) = (det_get (after k)).1

  -- The count is that of the calls up to whole rounds, and a whole round may still be pending.
  abbrev IsAt : ℕ → ℕ → Type 0
  IsAt k c = (c ≤ length xs) × (c % length xs ≡ k % length xs)

  read :
      (k c : ℕ) (v : D)
      → IsAt k c
      → get_elem? xs (k % length xs) ≡ some v
      → det_get (record { array = xs; count = c })
        ≡ (return v, record { array = xs; count = k % length xs + 1 })
  unfolding det_get
  read k c v (most, same) there = elim (Bool-cases (leb (length xs) c)) [
    | inl over ↦
        let whole : c ≡ length xs = ground arith in
        let start : k % length xs ≡ 0 =
          sym same ∙ ap (λ (n : ℕ). n % length xs) whole ∙ mod_self (length xs) in
        let there' : get_elem? xs 0 ≡ some v = rw start at there in rw (over, start, there') refl
    | inr inside ↦
        let place : c ≡ k % length xs = sym (mod-eq_of_lt (ground arith)) ∙ same in
        rw (inside, place, there) refl
  ]

  at_next : (k : ℕ) → IsAt (suc k) (k % length xs + 1)
  at_next k =
      let less = mod-lt k full in
      (omega arith, mod-add-mod k (length xs) 1 ∙ ap (λ (n : ℕ). n % length xs) (omega arith))

  after_lem : (k : ℕ) → (c : ℕ) × (after k ≡ record { array = xs; count = c }) × IsAt k c
  after_lem zero = (0, refl, (omega arith, refl))
  after_lem (suc k) =
      let (c, e, at) = after_lem k in
      let (v, there) = found xs (k % length xs) (mod-lt k full) in
      (
        k % length xs + 1,
        ap (λ w. (det_get w).1) e ∙ ap (λ r. r.1) (read k c v at there),
        at_next k,
      )

-- The calls of `get` on a new variable of an array that is not empty: after `k` of them, the next
-- one returns the element at `k` modulo the length.
pub det_get-cycles :
    {D : Type 0} (xs : List D) (k : ℕ) (full : 0 < length xs)
    → (v : D) × (get_elem? xs (k % length xs) ≡ some v) × ((det_get (after xs full k)).0 ≡ return v)
det_get-cycles xs k full =
    let (c, e, at) = after_lem xs full k in
    let (v, there) = found xs (k % length xs) (mod-lt k full) in
    (v, there, rw (e, read xs full k c v at there) refl)
