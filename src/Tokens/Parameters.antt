-- ===== src/Tokens/Parameters.antt =====
-- `split_param` where a parenthesis is not closed.
use partsim.Prelude.{
  ℕ, zero, suc, ◌+◌, ◌-◌, ◌≤◌, ◌<◌, ◌≡◌, refl, ap, ◌∙◌, Bool, true, false, some, [], ◌∷◌, ◌++◌,
  ◌==◌, ltb, arith, length, drop, get_elem?, get_or, Bool-cases, inl, inr,
}
use partsim.Prelude.Action.{throw, out_of_fuel}
use partsim.Tokens.{
  Str, minus, substr, is_one_of, find_if, find_char, find_first_of, push_trimmed, after_par,
  next_end, split_param_loop,
}
use partsim.Tokens.Split.{Avoids, is_char, find_if-none}

-- A search stops at the position `n` at the latest, where that passes.
find_if-by :
    (test : ℕ → Bool) (s : Str) (i n x : ℕ)
    → get_elem? s n ≡ some x
    → test x ≡ true
    → (k : ℕ) × (find_if test s i ≡ some k) × (i ≤ k) × (k ≤ i + n)
unfolding find_if
find_if-by test [] i n x at t = absurd (cc)
find_if-by test (c ∷ s) i zero x at t =
    let same : c ≡ x = ground arith in (i, rw (same, t) refl, omega arith, omega arith)
find_if-by test (c ∷ s) i (suc n) x at t = elim (Bool-cases (test c)) [
  | inl e ↦ (i, rw e refl, omega arith, omega arith)
  | inr e ↦
      let (k, found, low, high) = find_if-by test s (suc i) n x at t in
      (k, rw e found, omega arith, omega arith)
]

Avoids-drop : (test : ℕ → Bool) (s : Str) (n : ℕ) → Avoids test s → Avoids test (drop n s)
Avoids-drop test s zero h = h
Avoids-drop test [] (suc n) h = tt
Avoids-drop test (c ∷ s) (suc n) (e, h) = Avoids-drop test s n h

get_elem?-drop : (s : Str) (k n j : ℕ) → j ≡ k + n → get_elem? (drop k s) n ≡ get_elem? s j
get_elem?-drop s zero n j h = ap (get_elem? s) (omega arith)
get_elem?-drop [] (suc k) n j h = refl
get_elem?-drop (c ∷ s) (suc k) n zero h = absurd (omega arith)
get_elem?-drop (c ∷ s) (suc k) n (suc j) h = get_elem?-drop s k n j (omega arith)

get_elem?-inside :
    (s : Str) (j x : ℕ) → get_elem? s j ≡ some x → (j < length s) × (get_or s j 0 ≡ x)
get_elem?-inside [] j x h = absurd (cc)
get_elem?-inside (c ∷ s) zero x h = (omega arith, ground arith)
get_elem?-inside (c ∷ s) (suc j) x h =
    let (lt, same) = get_elem?-inside s j x h in (omega arith, same)

pub is_one_of-last : (sep : Str) (c : ℕ) → is_one_of (sep ++ c ∷ []) c ≡ true
is_one_of-last [] c = ground arith
is_one_of-last (x ∷ xs) c = let rest = is_one_of-last xs c in ground (arith, rest)

module _ (p sep : Str) (open_par close_par j : ℕ) (unclosed : Avoids (is_char close_par) p)
    (later : 1 ≤ j) (opens : get_elem? p j ≡ some open_par) where
  goes_back : (i : ℕ) → after_par p close_par i ≡ some 0
  unfolding find_char
  goes_back i =
      rw
        (
          find_if-none (is_char close_par) (drop i p) i
              (Avoids-drop (is_char close_par) p i unclosed),
          after_par,
        )
        refl

  before_open :
      (i k : ℕ)
      → k ≤ j
      → i ≤ k + (j - k)
      → (get_or p i 0 == open_par) ≡ false
      → get_or p j 0 ≡ open_par
      → i + 1 ≤ j
  before_open i k le high e at_j = elim (Bool-cases (ltb i j)) [
    | inl lt ↦ ground arith
    | inr ge ↦
        let same : i ≡ j = ground arith in
        let here : get_or p i 0 ≡ open_par = ap (λ n. get_or p n 0) same ∙ at_j in
        absurd (ground arith)
  ]

  -- From a position up to that of the parenthesis, the next one is up to that too.
  next_end-before :
      (k : ℕ) → k ≤ j → (i : ℕ) × (next_end p sep open_par close_par k ≡ some i) × (i + 1 ≤ j)
  unfolding next_end find_first_of find_char
  next_end-before k le =
      let (i, found, low, high) =
        find_if-by (is_one_of (sep ++ open_par ∷ [])) (drop k p) k (j - k) open_par
          (get_elem?-drop p k (j - k) j (omega arith) ∙ opens) (is_one_of-last sep open_par) in
      let (_, at_j) = get_elem?-inside p j open_par opens in
      elim (Bool-cases (get_or p i 0 == open_par)) [
        | inl e ↦ (0, rw (found, e, next_end) (goes_back i), later)
        | inr e ↦ (i, rw (found, e, next_end) refl, before_open i k le high e at_j)
      ]

  -- A piece inside the string does not stop the rounds.
  still_running :
      (k n : ℕ) → k ≤ j → push_trimmed (substr p k n) (throw out_of_fuel) ≡ throw out_of_fuel
  unfolding push_trimmed
  still_running k n le =
      let (inside, _) = get_elem?-inside p j open_par opens in
      let in_range : ltb (length p) k ≡ false = ground arith in rw in_range refl

  loop_diverges :
      (fuel k : ℕ) → k ≤ j → split_param_loop fuel p sep open_par close_par k k ≡ throw out_of_fuel
  unfolding split_param_loop
  loop_diverges zero k le = refl
  loop_diverges (suc fuel) k le =
      let (i, ends, further) = next_end-before k le in
      let (inside, _) = get_elem?-inside p j open_par opens in
      let in_range : ltb (length p) k ≡ false = ground arith in
      rw (split_param_loop, in_range, ends, loop_diverges fuel (i + 1) further)
        (still_running k (minus i k) le)

-- `split_param` of a string that opens a parenthesis behind its first character and closes none:
-- however many rounds are allowed, the loop does not end.
pub split_param-diverges :
    (p sep : Str) (open_par close_par j fuel : ℕ)
    → Avoids (is_char close_par) p
    → 1 ≤ j
    → get_elem? p j ≡ some open_par
    → split_param_loop fuel p sep open_par close_par 0 0 ≡ throw out_of_fuel
split_param-diverges p sep open_par close_par j fuel unclosed later opens =
    loop_diverges p sep open_par close_par j unclosed later opens fuel 0 (omega arith)
