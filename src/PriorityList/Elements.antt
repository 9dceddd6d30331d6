-- ===== src/PriorityList/Elements.antt =====
-- Which pointers a `priority_list` holds after an insertion or an erasure.
use partsim.Prelude.{
  ℕ, ◌≡◌, refl, ◌⊎◌, inl, inr, Bool, true, false, ◌||◌, ◌&&◌, not, List, [], ◌∷◌, arith, ◌==◌,
  Bool-cases, some, none, suc, length, ==_iff,
}
use partsim.PriorityList.{insert, erase, front}
use partsim.PriorityList.Order.{IsStrictWeak, All, IsSorted, contains, All-contains}

-- No element of the list is equivalent to `x`.
abbrev pub Apart : (ℕ → ℕ → Bool) → ℕ → List ℕ → Type 0
Apart less x xs = All (λ y. (less y x ≡ true) ⊎ (less x y ≡ true)) xs

module _ (less : ℕ → ℕ → Bool) where
  pub insert-Apart : (x : ℕ) (xs : List ℕ) → Apart less x xs → (insert less x xs).1 ≡ true
  unfolding insert
  insert-Apart x [] h = refl
  insert-Apart x (y ∷ ys) h = ground (arith, insert-Apart x ys h.1)

  pub contains-insert :
      (z x : ℕ) (xs : List ℕ)
      → Apart less x xs
      → contains z (insert less x xs).0 ≡ ((z == x) || contains z xs)
  unfolding insert
  contains-insert z x [] h = refl
  contains-insert z x (y ∷ ys) h = ground (arith, contains-insert z x ys h.1)

  pub erase-Apart : (x : ℕ) (xs : List ℕ) → Apart less x xs → erase less x xs ≡ xs
  unfolding erase
  erase-Apart x [] h = refl
  erase-Apart x (y ∷ ys) h = ground (arith, erase-Apart x ys h.1)

  pub contains-erase_imp :
      (z x : ℕ) (xs : List ℕ) → contains z (erase less x xs) ≡ true → contains z xs ≡ true
  unfolding erase
  contains-erase_imp z x [] h = h
  contains-erase_imp z x (y ∷ ys) h = ground (arith, contains-erase_imp z x ys)

module _ (less : ℕ → ℕ → Bool) (order : IsStrictWeak less) where
  not-contains_below : (x : ℕ) (ys : List ℕ) → All (λ z. less x z ≡ true) ys → contains x ys ≡ false
  not-contains_below x ys h = elim (Bool-cases (contains x ys)) [
    | inl c ↦ absurd (cc (All-contains (λ z. less x z ≡ true) x ys h c, order.irrefl x))
    | inr n ↦ n
  ]

  -- A member is erased, and nothing else is.
  pub contains-erase :
      (z x : ℕ) (xs : List ℕ)
      → IsSorted less xs
      → contains x xs ≡ true
      → contains z (erase less x xs) ≡ (contains z xs && not (z == x))
  unfolding erase
  contains-erase z x [] s c = absurd (cc)
  contains-erase z x (y ∷ ys) s c = elim (Bool-cases (x == y)) [
    | inl e ↦
        let same : x ≡ y = (==_iff x y).0 e in
        ground (arith, same, order.irrefl x, order.irrefl y, not-contains_below y ys s.0)
    | inr n ↦
        let inside : contains x ys ≡ true = ground arith in
        let before : less y x ≡ true = All-contains (λ z. less y z ≡ true) x ys s.0 inside in
        ground (arith, contains-erase z x ys s.1 inside)
  ]

  -- Nothing in the set precedes its front.
  pub front_least :
      (e z : ℕ) (xs : List ℕ)
      → IsSorted less xs
      → front xs ≡ some e
      → contains z xs ≡ true
      → less z e ≡ false
  unfolding front
  front_least e z [] s f c = absurd (cc)
  front_least e z (x ∷ xs) s f c = elim (Bool-cases (z == x)) [
    | inl same ↦ ground (arith, (==_iff z x).0 same, order.irrefl z)
    | inr other ↦
        let inside : contains z xs ≡ true = ground arith in
        let above : less x z ≡ true = All-contains (λ y. less x y ≡ true) z xs s.0 inside in
        ground (arith, order.irrefl x, order.trans x z x above)
  ]

  -- Erasing the front shortens the set by one.
  pub length-erase-front :
      (e : ℕ) (xs : List ℕ) → front xs ≡ some e → suc (length (erase less e xs)) ≡ length xs
  unfolding front erase
  length-erase-front e [] f = absurd (cc)
  length-erase-front e (x ∷ xs) f = ground (arith, order.irrefl e)

pub front-contains : (e : ℕ) (xs : List ℕ) → front xs ≡ some e → contains e xs ≡ true
unfolding front
front-contains e [] f = absurd (cc)
front-contains e (x ∷ xs) f = ground (arith, ==_iff e x)

pub front-none : (xs : List ℕ) → front xs ≡ none → xs ≡ []
unfolding front
front-none [] f = refl
front-none (x ∷ xs) f = absurd (cc)

-- Only the comparisons between members matter.
module _ (less other : ℕ → ℕ → Bool) where
  All-ext :
      (x : ℕ) (xs : List ℕ)
      → ((b : ℕ) → contains b xs ≡ true → less x b ≡ other x b)
      → All (λ y. less x y ≡ true) xs
      → All (λ y. other x y ≡ true) xs
  All-ext x [] e h = tt
  All-ext x (y ∷ ys) e h = (ground (arith, e y), All-ext x ys (λ b c. e b (ground arith)) h.1)

  pub IsSorted-ext :
      (xs : List ℕ)
      → ((a b : ℕ) → contains a xs ≡ true → contains b xs ≡ true → less a b ≡ other a b)
      → IsSorted less xs
      → IsSorted other xs
  IsSorted-ext [] e h = tt
  IsSorted-ext (x ∷ xs) e h = (
    All-ext x xs (λ b c. e x b (ground arith) (ground arith)) h.0,
    IsSorted-ext xs (λ a b ca cb. e a b (ground arith) (ground arith)) h.1,
  )
