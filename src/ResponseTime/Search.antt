-- ===== src/ResponseTime/Search.antt =====
-- A smaller budget is schedulable where a larger one is, and the search finds the largest.
use partsim.Prelude.{
  ℕ, zero, suc, ◌+◌, ◌-◌, ◌*◌, ◌/◌, ◌≤◌, ◌<◌, ◌≡◌, refl, inl, inr, Bool, true, false, Option, none,
  some, List, [], ◌∷◌, arith, ltb, leb, ◌==◌, Bool-cases, Option-cases, get_elem?, set, take,
  length, if◌then◌else◌,
}
use native.Mathlib.Nat.{mul-le-mul, le_refl}
use partsim.ResponseTime.{
  ServerInfo, ceil_div, interference, meets_period, all_meet, with_budget, try_budget,
  search_between, search_budget,
}
use partsim.ResponseTime.Monotone.{Periodic}
use partsim.ResponseTime.Least.{meets_period_iff}

-- The same periods, and no larger budgets.
abbrev pub Lower : List ServerInfo → List ServerInfo → Type 0
Lower [] [] = Unit
Lower (x ∷ xs) (y ∷ ys) = (x.p ≡ y.p) × (x.q ≤ y.q) × Lower xs ys
Lower _ _ = ⊥

Lower-refl : (xs : List ServerInfo) → Lower xs xs
Lower-refl [] = tt
Lower-refl (x ∷ xs) = (refl, omega arith, Lower-refl xs)

Lower-take : (n : ℕ) (xs ys : List ServerInfo) → Lower xs ys → Lower (take n xs) (take n ys)
Lower-take zero xs ys h = tt
Lower-take (suc n) [] [] h = tt
Lower-take (suc n) [] (y ∷ ys) h = elim h [ ]
Lower-take (suc n) (x ∷ xs) [] h = elim h [ ]
Lower-take (suc n) (x ∷ xs) (y ∷ ys) (p, q, h) = (p, q, Lower-take n xs ys h)

Lower-get_elem? :
    (xs ys : List ServerInfo) (j : ℕ) (y : ServerInfo)
    → Lower xs ys
    → get_elem? ys j ≡ some y
    → (x : ServerInfo) × (get_elem? xs j ≡ some x) × (x.p ≡ y.p) × (x.q ≤ y.q)
Lower-get_elem? [] [] j y h e = absurd (cc)
Lower-get_elem? [] (z ∷ ys) j y h e = elim h [ ]
Lower-get_elem? (x ∷ xs) [] j y h e = elim h [ ]
Lower-get_elem? (x ∷ xs) (z ∷ ys) zero y (p, q, h) e = (x, refl, ground arith, ground arith)
Lower-get_elem? (x ∷ xs) (z ∷ ys) (suc j) y (p, q, h) e = Lower-get_elem? xs ys j y h e

interference-Lower :
    (xs ys : List ServerInfo) (t : ℕ) → Lower xs ys → interference xs t ≤ interference ys t
unfolding interference
interference-Lower [] [] t h = omega arith
interference-Lower [] (y ∷ ys) t h = elim h [ ]
interference-Lower (x ∷ xs) [] t h = elim h [ ]
interference-Lower (x ∷ xs) (y ∷ ys) t (p, q, h) =
    let rest = interference-Lower xs ys t h in
    let here : ceil_div t x.p * x.q ≤ ceil_div t y.p * y.q =
      rw p (mul-le-mul (le_refl (ceil_div t y.p)) q) in
    omega (arith, rest, here)

Periodic-take : (n : ℕ) (xs : List ServerInfo) → Periodic xs → Periodic (take n xs)
Periodic-take zero xs h = tt
Periodic-take (suc n) [] h = tt
Periodic-take (suc n) (x ∷ xs) (p, small, h) = (p, small, Periodic-take n xs h)

Periodic-Lower : (xs ys : List ServerInfo) → Lower xs ys → Periodic ys → Periodic xs
Periodic-Lower [] [] l h = tt
Periodic-Lower [] (y ∷ ys) l h = elim l [ ]
Periodic-Lower (x ∷ xs) [] l h = elim l [ ]
Periodic-Lower (x ∷ xs) (y ∷ ys) (p, q, l) (pos_p, small, h) =
    (omega arith, omega arith, Periodic-Lower xs ys l h)

missing_fails : (ss : List ServerInfo) (j : ℕ) → get_elem? ss j ≡ none → meets_period ss j ≡ false
unfolding meets_period
missing_fails ss j e = rw (e, meets_period)

pub meets_period-Lower :
    (xs ys : List ServerInfo) (j : ℕ)
    → Periodic ys
    → Lower xs ys
    → meets_period ys j ≡ true
    → meets_period xs j ≡ true
meets_period-Lower xs ys j periods l h = elim (Option-cases (get_elem? ys j)) [
  | inl e ↦ absurd (cc (missing_fails ys j e))
  | inr (y, e) ↦
      let (x, ex, p, q) = Lower-get_elem? xs ys j y l e in
      let (t, le, covers) = (meets_period_iff ys j y e (Periodic-take j ys periods)).0 h in
      let less = interference-Lower (take j xs) (take j ys) t (Lower-take j xs ys l) in
      (meets_period_iff xs j x ex (Periodic-take j xs (Periodic-Lower xs ys l periods))).1
        (t, omega arith, omega arith)
]

both_hold : (a b : Bool) → (if a then b else false) ≡ true → (a ≡ true) × (b ≡ true)
both_hold true b h = (refl, h)
both_hold false b h = absurd (cc)

all_meet-Lower :
    (n i : ℕ) (xs ys : List ServerInfo)
    → Periodic ys
    → Lower xs ys
    → all_meet n i ys ≡ true
    → all_meet n i xs ≡ true
unfolding all_meet
all_meet-Lower zero i xs ys periods l h = refl
all_meet-Lower (suc n) i xs ys periods l h =
    let (m, rest) = both_hold (meets_period ys i) (all_meet n (suc i) ys) h in
    rw (meets_period-Lower xs ys i periods l m) (all_meet-Lower n (suc i) xs ys periods l rest)

Lower-set :
    (xs : List ServerInfo) (i : ℕ) (u v : ServerInfo)
    → u.p ≡ v.p
    → u.q ≤ v.q
    → Lower (set xs i u) (set xs i v)
Lower-set [] i u v p q = tt
Lower-set (x ∷ xs) zero u v p q = (p, q, Lower-refl xs)
Lower-set (x ∷ xs) (suc i) u v p q = (refl, omega arith, Lower-set xs i u v p q)

with_budget-none :
    (i b : ℕ) (xs : List ServerInfo) → get_elem? xs i ≡ none → with_budget i b xs ≡ xs
with_budget-none i b xs e = rw (e, with_budget)

with_budget-some :
    (i b : ℕ) (xs : List ServerInfo) (s : ServerInfo)
    → get_elem? xs i ≡ some s
    → with_budget i b xs ≡ set xs i (record s { q = b })
with_budget-some i b xs s e = rw (e, with_budget)

Lower-with_budget :
    (xs : List ServerInfo) (i b c : ℕ) → b ≤ c → Lower (with_budget i b xs) (with_budget i c xs)
Lower-with_budget xs i b c le = elim (Option-cases (get_elem? xs i)) [
  | inl e ↦ rw (with_budget-none i b xs e, with_budget-none i c xs e) (Lower-refl xs)
  | inr (s, e) ↦
      rw (with_budget-some i b xs s e, with_budget-some i c xs s e)
        (Lower-set xs i (record s { q = b }) (record s { q = c }) refl le)
]

Periodic-set :
    (xs : List ServerInfo) (i : ℕ) (s : ServerInfo) (b : ℕ)
    → get_elem? xs i ≡ some s
    → Periodic xs
    → Periodic (set xs i (record s { q = b }))
Periodic-set [] i s b e h = tt
Periodic-set (x ∷ xs) zero s b e (p, small, h) = (ground arith, ground arith, h)
Periodic-set (x ∷ xs) (suc i) s b e (p, small, h) = (p, small, Periodic-set xs i s b e h)

Periodic-with_budget :
    (xs : List ServerInfo) (i b : ℕ) → Periodic xs → Periodic (with_budget i b xs)
Periodic-with_budget xs i b h = elim (Option-cases (get_elem? xs i)) [
  | inl e ↦ rw (with_budget-none i b xs e) h
  | inr (s, e) ↦ rw (with_budget-some i b xs s e) (Periodic-set xs i s b e h)
]

-- A budget is refused where a smaller one is.
module _ (servers : List ServerInfo) (i : ℕ) (periods : Periodic servers) where
  pub try_budget-antitone :
      (b c : ℕ) → b ≤ c → try_budget servers i c ≡ true → try_budget servers i b ≡ true
  unfolding try_budget
  try_budget-antitone b c le h =
      all_meet-Lower (length servers - i) i (with_budget i b servers) (with_budget i c servers)
        (Periodic-with_budget servers i c periods) (Lower-with_budget servers i b c le) h

  refused : (b c : ℕ) → b ≤ c → try_budget servers i b ≡ false → try_budget servers i c ≡ false
  refused b c le h = elim (Bool-cases (try_budget servers i c)) [
    | inl t ↦ absurd (cc (try_budget-antitone b c le t))
    | inr f ↦ f
  ]

-- What the search from `b1` to `b2` answers: the largest budget that is accepted, or `b1`.
abbrev pub Largest : List ServerInfo → (i b1 b2 : ℕ) → Option ℕ → Type 0
Largest servers i b1 b2 none = ⊥
Largest servers i b1 b2 (some b) =
    (b1 ≤ b)
    × (b ≤ b2)
    × (b1 < b → try_budget servers i b ≡ true)
    × ((c : ℕ) → b < c → c ≤ b2 → try_budget servers i c ≡ false)

module _ (servers : List ServerInfo) (i : ℕ) (periods : Periodic servers) where
  Largest-upper :
      (b1 b b2 : ℕ) (o : Option ℕ)
      → b1 ≤ b
      → try_budget servers i b ≡ true
      → Largest servers i b b2 o
      → Largest servers i b1 b2 o
  Largest-upper b1 b b2 none le t h = h
  Largest-upper b1 b b2 (some r) le t (low, high, ok, more) = (
    omega arith,
    high,
    λ lt. elim (Bool-cases (ltb b r)) [
      | inl above ↦ ok (ground arith)
      | inr not_above ↦ let same : r ≡ b = ground arith in rw same t
    ],
    more,
  )

  Largest-lower :
      (b1 b b2 : ℕ) (o : Option ℕ)
      → b ≤ b2
      → try_budget servers i b ≡ false
      → Largest servers i b1 b o
      → Largest servers i b1 b2 o
  Largest-lower b1 b b2 none le f h = h
  Largest-lower b1 b b2 (some r) le f (low, high, ok, more) = (
    low,
    omega arith,
    ok,
    λ c lt within. elim (Bool-cases (leb c b)) [
      | inl below ↦ more c lt (ground arith)
      | inr above ↦ refused servers i periods b c (ground arith) f
    ],
  )

  search_between_lem :
      (fuel b1 b2 : ℕ)
      → b1 ≤ b2
      → b2 < fuel + b1
      → Largest servers i b1 b2 (search_between fuel servers i b1 b2)
  unfolding search_between
  search_between_lem zero b1 b2 le h = absurd (omega arith)
  search_between_lem (suc fuel) b1 b2 le h = elim (Bool-cases (b1 == b2)) [
    | inl same ↦
        rw same (omega arith, le, λ lt. absurd (omega arith), λ c lt within. absurd (ground arith))
    | inr apart ↦ elim (Bool-cases (b2 == b1 + 1)) [
      | inl next ↦ elim (Bool-cases (try_budget servers i b2)) [
        | inl t ↦
            rw (apart, next, t) (le, omega arith, λ lt. t, λ c lt within. absurd (omega arith))
        | inr f ↦
            rw (apart, next, f)
              (
                omega arith,
                le,
                λ lt. absurd (omega arith),
                λ c lt within. let same : c ≡ b2 = ground arith in rw same f,
              )
      ]
      | inr far ↦ elim (Bool-cases (try_budget servers i ((b1 + b2) / 2))) [
        | inl t ↦
            rw (apart, far, t)
              (Largest-upper b1 ((b1 + b2) / 2) b2
                (search_between fuel servers i ((b1 + b2) / 2) b2) (ground arith) t
                (search_between_lem fuel ((b1 + b2) / 2) b2 (ground arith) (ground arith)))
        | inr f ↦
            rw (apart, far, f)
              (Largest-lower b1 ((b1 + b2) / 2) b2
                (search_between fuel servers i b1 ((b1 + b2) / 2)) (ground arith) f
                (search_between_lem fuel b1 ((b1 + b2) / 2) (ground arith) (ground arith)))
      ]
    ]
  ]

-- The binary search of `searchBudget`, where the server's budget is at most its period and every
-- server has a period that fits an `int`: it ends with a budget between the two, which `tryBudget`
-- accepts unless it is the present one, and `tryBudget` refuses every larger budget up to the
-- period.
pub search_budget-Largest :
    (servers : List ServerInfo) (i : ℕ) (s : ServerInfo)
    → Periodic servers
    → get_elem? servers i ≡ some s
    → s.q ≤ s.p
    → Largest servers i s.q s.p (search_budget servers i)
unfolding search_budget
search_budget-Largest servers i s periods e le =
    rw (e, search_budget) (search_between_lem servers i periods (s.p + 1) s.q s.p le (omega arith))
