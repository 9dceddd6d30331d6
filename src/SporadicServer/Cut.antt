-- ===== src/SporadicServer/Cut.antt =====
-- A smaller budget is taken out of the queues.
use partsim.Prelude.{◌≡◌, refl, sym, ap, ◌∙◌, arith, List, [], ◌∷◌, ◌⊎◌, inl, inr, Bool-cases}
use partsim.Prelude.Int.{
  pos, ◌+ℤ◌, ◌-ℤ◌, ◌≤ℤ◌, ltb_ℤ, eqb_ℤ, eqb_ℤ→eq, pos_part, neg_part, +ℤ_assoc, int_laws,
}
use partsim.Tick.{Tick}
use partsim.SporadicServer.{Replenishment}
use partsim.SporadicServer.Queues.{amount}
use partsim.SporadicServer.Budget.{min, cut, drop_empty}

-- No replenishment is negative.
abbrev pub IsFair : List Replenishment → Type 0
IsFair [] = Unit {0}
IsFair ((t, b) ∷ rs) = (pos 0 ≤ℤ b) × IsFair rs

pub amount_nonneg : (rs : List Replenishment) → IsFair rs → pos 0 ≤ℤ amount rs
amount_nonneg [] h = omega arith
amount_nonneg ((t, b) ∷ rs) (first, rest) =
    let more = amount_nonneg rs rest in omega (int_laws, first, more)

pub min_bounds : (a b : Tick) → (min a b ≤ℤ a) × (min a b ≤ℤ b)
min_bounds a b = ground arith

pub min_attained : (a b : Tick) → (a ≤ℤ min a b) ⊎ (b ≤ℤ min a b)
min_attained a b = elim (Bool-cases (ltb_ℤ b a)) [
  | inl less ↦ rw less (inr (omega arith))
  | inr more ↦ rw more (inl (omega arith))
]

regroup : (b x a d : Tick) → b -ℤ x +ℤ a +ℤ d ≡ b +ℤ (a +ℤ (d -ℤ x))
regroup b x a d = omega int_laws

pub amount-cut :
    (delta : Tick) (rs : List Replenishment)
    → amount (cut delta rs).1 +ℤ delta ≡ amount rs +ℤ (cut delta rs).0
unfolding cut
amount-cut delta [] = refl
amount-cut delta ((t, b) ∷ rs) = elim (Bool-cases (ltb_ℤ (pos 0) delta)) [
  | inl more ↦ rw more (
      regroup b (min delta b) (amount (cut (delta -ℤ min delta b) rs).1) delta
      ∙ ap (λ (z : Tick). b +ℤ z) (amount-cut (delta -ℤ min delta b) rs)
      ∙ sym (+ℤ_assoc b (amount rs) (cut (delta -ℤ min delta b) rs).0))
  | inr done ↦ rw done refl
]

pub amount-drop_empty : (rs : List Replenishment) → amount (drop_empty rs) ≡ amount rs
unfolding drop_empty
amount-drop_empty [] = refl
amount-drop_empty ((t, b) ∷ rs) = elim (Bool-cases (eqb_ℤ b (pos 0))) [
  | inl none_left ↦
      rw none_left (amount-drop_empty rs ∙ rw (eqb_ℤ→eq b (pos 0) none_left) (omega int_laws))
  | inr some_left ↦ rw some_left refl
]

pub cut-IsFair : (delta : Tick) (rs : List Replenishment) → IsFair rs → IsFair (cut delta rs).1
unfolding cut
cut-IsFair delta [] h = tt
cut-IsFair delta ((t, b) ∷ rs) (first, rest) = elim (Bool-cases (ltb_ℤ (pos 0) delta)) [
  | inl more ↦ rw more (
    let (x, y) = min_bounds delta b in omega (int_laws, y),
    cut-IsFair (delta -ℤ min delta b) rs rest,
  )
  | inr done ↦ rw done (first, rest)
]

-- What is left over is what the queue did not hold.
pub cut_enough :
    (delta : Tick) (rs : List Replenishment)
    → IsFair rs
    → pos 0 ≤ℤ delta
    → delta ≤ℤ amount rs
    → (cut delta rs).0 ≡ pos 0
unfolding cut
cut_enough delta [] h low high = omega (int_laws, low, high)
cut_enough delta ((t, b) ∷ rs) (first, rest) low high = elim (Bool-cases (ltb_ℤ (pos 0) delta)) [
  | inl more ↦
      let (x, y) = min_bounds delta b in
      let held = amount_nonneg rs rest in
      let attained = min_attained delta b in
      rw more (
        cut_enough (delta -ℤ min delta b) rs rest (omega (int_laws, x))
          (omega (int_laws, high, held, attained)))
  | inr done ↦
      rw done (let none_left : delta ≤ℤ pos 0 = ground arith in omega (int_laws, low, none_left))
]

-- Something is left over only if the queue is used up.
pub cut_spent :
    (delta : Tick) (rs : List Replenishment)
    → IsFair rs
    → pos 0 ≤ℤ delta
    → (pos 0 ≤ℤ (cut delta rs).0)
      × (((cut delta rs).0 ≤ℤ pos 0) ⊎ (amount (cut delta rs).1 ≤ℤ pos 0))
unfolding cut
cut_spent delta [] h low = (low, inr (omega arith))
cut_spent delta ((t, b) ∷ rs) (first, rest) low = elim (Bool-cases (ltb_ℤ (pos 0) delta)) [
  | inl more ↦
      let (x, y) = min_bounds delta b in
      let held = amount_nonneg rs rest in
      let (low', spent) = cut_spent (delta -ℤ min delta b) rs rest (omega (int_laws, x)) in
      let balance = ap pos_part (amount-cut (delta -ℤ min delta b) rs) in
      let balance' = ap neg_part (amount-cut (delta -ℤ min delta b) rs) in
      rw more (
        low',
        elim (min_attained delta b) [
          | inl all ↦ inl (omega (int_laws, all, held, spent, balance, balance'))
          | inr whole ↦ elim spent [
            | inl none_left ↦ inl none_left
            | inr used_up ↦ inr (omega (int_laws, whole, used_up))
          ]
        ],
      )
  | inr done ↦ rw done (low, inl (ground arith))
]

pub drop_empty-IsFair : (rs : List Replenishment) → IsFair rs → IsFair (drop_empty rs)
unfolding drop_empty
drop_empty-IsFair [] h = tt
drop_empty-IsFair ((t, b) ∷ rs) (first, rest) = elim (Bool-cases (eqb_ℤ b (pos 0))) [
  | inl none_left ↦ rw none_left (drop_empty-IsFair rs rest)
  | inr some_left ↦ rw some_left (first, rest)
]
