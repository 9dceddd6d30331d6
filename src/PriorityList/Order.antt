-- ===== src/PriorityList/Order.antt =====
-- Laws of `priority_list` under a strict weak order, such as both comparisons of the simulator are.
use partsim.Prelude.{
  ℕ, suc, ◌≡◌, ◌≢◌, refl, sym, ◌⊎◌, inl, inr, Bool, true, false, ◌||◌, List, [], ◌∷◌, arith, ◌==◌,
  if◌then◌else◌, Bool-cases, length, ◌+◌, ◌≤◌, Option, some, ==_iff,
}
use partsim.PriorityList.{insert, erase}

pub record IsStrictWeak (less : ℕ → ℕ → Bool) : Type 0 where
  pub irrefl : (a : ℕ) → less a a ≡ false
  pub trans : (a b c : ℕ) → less a b ≡ true → less b c ≡ true → less a c ≡ true
  pub weak : (a b c : ℕ) → less a c ≡ true → (less a b ≡ true) ⊎ (less b c ≡ true)

abbrev pub All : (ℕ → Type 0) → List ℕ → Type 0
All P [] = Unit
All P (x ∷ xs) = P x × All P xs

-- The iteration order of the set.
abbrev pub IsSorted : (ℕ → ℕ → Bool) → List ℕ → Type 0
IsSorted less [] = Unit
IsSorted less (x ∷ xs) = All (λ y. less x y ≡ true) xs × IsSorted less xs

abbrev pub contains : ℕ → List ℕ → Bool
contains x [] = false
contains x (y ∷ ys) = (x == y) || contains x ys

pub All-contains : (P : ℕ → Type 0) (x : ℕ) (xs : List ℕ) → All P xs → contains x xs ≡ true → P x
All-contains P x [] h c = absurd (cc)
All-contains P x (y ∷ ys) h c = elim (Bool-cases (x == y)) [
  | inl e ↦ subst_back P x y ((==_iff x y).0 e) h.0
  | inr n ↦ All-contains P x ys h.1 (ground arith)
]
  where
    subst_back : (P : ℕ → Type 0) (x y : ℕ) → x ≡ y → P y → P x
    subst_back P x y e p = partsim.Prelude.subst P (sym e) p

pub All-of_contains :
    (P : ℕ → Type 0) (xs : List ℕ) → ((x : ℕ) → contains x xs ≡ true → P x) → All P xs
All-of_contains P [] h = tt
All-of_contains P (y ∷ ys) h =
    (h y (ground arith), All-of_contains P ys (λ x c. h x (ground arith)))

pub All-map : (P Q : ℕ → Type 0) (xs : List ℕ) → ((x : ℕ) → P x → Q x) → All P xs → All Q xs
All-map P Q [] f h = tt
All-map P Q (x ∷ xs) f h = (f x h.0, All-map P Q xs f h.1)

module _ (less : ℕ → ℕ → Bool) where
  pub insert-All :
      (P : ℕ → Type 0) (x : ℕ) (xs : List ℕ) → P x → All P xs → All P (insert less x xs).0
  unfolding insert
  insert-All P x [] p h = (p, tt)
  insert-All P x (y ∷ ys) p h = elim (Bool-cases (less y x)) [
    | inl a ↦ rw a (h.0, insert-All P x ys p h.1)
    | inr b ↦ elim (Bool-cases (less x y)) [ inl c ↦ rw (b, c) (p, h) | inr d ↦ rw (b, d) h ]
  ]

  pub erase-All : (P : ℕ → Type 0) (x : ℕ) (xs : List ℕ) → All P xs → All P (erase less x xs)
  unfolding erase
  erase-All P x [] h = tt
  erase-All P x (y ∷ ys) h = elim (Bool-cases (less y x)) [
    | inl a ↦ rw a (h.0, erase-All P x ys h.1)
    | inr b ↦ elim (Bool-cases (less x y)) [ inl c ↦ rw (b, c) h | inr d ↦ rw (b, d) h.1 ]
  ]

module _ (less : ℕ → ℕ → Bool) (order : IsStrictWeak less) where
  pub insert-IsSorted :
      (x : ℕ) (xs : List ℕ) → IsSorted less xs → IsSorted less (insert less x xs).0
  unfolding insert
  insert-IsSorted x [] h = (tt, tt)
  insert-IsSorted x (y ∷ ys) h = elim (Bool-cases (less y x)) [
    | inl a ↦ rw a (insert-All less (λ z. less y z ≡ true) x ys a h.0, insert-IsSorted x ys h.1)
    | inr b ↦ elim (Bool-cases (less x y)) [
      | inl c ↦ rw (b, c) ((c, All-map _ _ ys (λ z p. order.trans x y z c p) h.0), h)
      | inr d ↦ rw (b, d) h
    ]
  ]

  pub erase-IsSorted : (x : ℕ) (xs : List ℕ) → IsSorted less xs → IsSorted less (erase less x xs)
  unfolding erase
  erase-IsSorted x [] h = tt
  erase-IsSorted x (y ∷ ys) h = elim (Bool-cases (less y x)) [
    | inl a ↦ rw a (erase-All less (λ z. less y z ≡ true) x ys h.0, erase-IsSorted x ys h.1)
    | inr b ↦ elim (Bool-cases (less x y)) [ inl c ↦ rw (b, c) h | inr d ↦ rw (b, d) h.1 ]
  ]
