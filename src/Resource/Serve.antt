-- ===== src/Resource/Serve.antt =====
-- The specification of a release: which waiting requests are granted.
use partsim.Prelude.{
  ◌≡◌, refl, ap, ◌⊎◌, inl, inr, false, ◌&&◌, List, [], ◌∷◌, ◌++◌, arith, Bool-cases, if◌then◌else◌,
}
use partsim.Prelude.Int.{pos_part, neg_part, ℤ, pos, ◌+ℤ◌, ◌-ℤ◌, ◌≤ℤ◌, ◌<ℤ◌, ltb_ℤ, leb_ℤ, int_laws}
use partsim.Resource.{Request}

pub record Served : Type 0 where
  pub granted : List Request
  pub waiting : List Request
  pub left : ℤ

-- The longest run of requests from the front, each of which fits what the earlier ones leave, as
-- long as something is left.
unfoldable pub serve : ℤ → List Request → Served
serve available [] = record { granted = []; waiting = []; left = available }
serve available (q ∷ rest) =
    let tail = serve (available -ℤ q.nr) rest in
    if ltb_ℤ (pos 0) available && leb_ℤ q.nr available
    then record { granted = q ∷ tail.granted; waiting = tail.waiting; left = tail.left }
    else record { granted = []; waiting = q ∷ rest; left = available }

abbrev pub units : List Request → ℤ
units [] = pos 0
units (q ∷ qs) = q.nr +ℤ units qs

-- The first of the waiting requests cannot be served.
abbrev pub Stuck : ℤ → List Request → Type 0
Stuck left [] = Unit
Stuck left (q ∷ qs) = (left ≤ℤ pos 0) ⊎ (left <ℤ q.nr)

-- Requests are granted in the order of their arrival, none is overtaken, granting stops only where
-- the next one cannot be served, and every unit is accounted for.
pub record IsFair (available : ℤ) (queue : List Request) (s : Served) : Type 0 where
  pub in_order : s.granted ++ s.waiting ≡ queue
  pub accounts : s.left +ℤ units s.granted ≡ available
  pub maximal : Stuck s.left s.waiting

pub serve-IsFair :
    (available : ℤ) (queue : List Request) → IsFair available queue (serve available queue)
unfolding serve
serve-IsFair available [] = record { in_order = refl; accounts = omega int_laws; maximal = tt }
serve-IsFair available (q ∷ rest) =
    elim (Bool-cases (ltb_ℤ (pos 0) available && leb_ℤ q.nr available)) [
      | inl fits ↦
          let ih = serve-IsFair (available -ℤ q.nr) rest in
          rw fits (record {
            in_order = ap (λ l. q ∷ l) ih.in_order;
            accounts = regroup (serve (available -ℤ q.nr) rest) ih.accounts;
            maximal = ih.maximal;
          })
      | inr stuck ↦
          rw stuck (record { in_order = refl; accounts = omega int_laws; maximal = cannot stuck })
    ]
  where
    regroup :
        (s : Served)
        → s.left +ℤ units s.granted ≡ available -ℤ q.nr
        → s.left +ℤ (q.nr +ℤ units s.granted) ≡ available
    regroup s e = omega (int_laws, ap pos_part e, ap neg_part e)

    cannot :
        (ltb_ℤ (pos 0) available && leb_ℤ q.nr available) ≡ false
        → (available ≤ℤ pos 0) ⊎ (available <ℤ q.nr)
    cannot h = ground arith
