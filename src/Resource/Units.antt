-- ===== src/Resource/Units.antt =====
-- The units of requests of positive amounts: what they sum to, and serving them.
use partsim.Prelude.{
  ◌≡◌, sym, ap, ◌∙◌, arith, ◌&&◌, List, [], ◌∷◌, ◌++◌, length, inl, inr, Bool-cases,
}
use partsim.Prelude.Int.{ℤ, pos, ◌+ℤ◌, ◌-ℤ◌, ◌≤ℤ◌, ◌<ℤ◌, ltb_ℤ, leb_ℤ, pos_part, neg_part, int_laws}
use partsim.Resource.{Request}
use partsim.Resource.Serve.{serve, units}

abbrev pub IsPositive : List Request → Type 0
IsPositive [] = Unit {0}
IsPositive (q ∷ qs) = (pos 0 <ℤ q.nr) × IsPositive qs

pub units-append : (xs ys : List Request) → units (xs ++ ys) ≡ units xs +ℤ units ys
units-append [] ys = omega int_laws
units-append (q ∷ xs) ys = rw (units-append xs ys) (omega int_laws)

pub IsPositive-append :
    (xs ys : List Request) → IsPositive xs → IsPositive ys → IsPositive (xs ++ ys)
IsPositive-append [] ys h k = k
IsPositive-append (q ∷ xs) ys (first, rest) k = (first, IsPositive-append xs ys rest k)

pub IsPositive_parts :
    (xs ys : List Request) → IsPositive (xs ++ ys) → IsPositive xs × IsPositive ys
IsPositive_parts [] ys h = (tt, h)
IsPositive_parts (q ∷ xs) ys (first, rest) =
    let (front, back) = IsPositive_parts xs ys rest in ((first, front), back)

-- Serving does not give what is not there.
pub serve-enough :
    (available : ℤ) (queue : List Request)
    → pos 0 ≤ℤ available
    → pos 0 ≤ℤ (serve available queue).left
unfolding serve
serve-enough available [] h = h
serve-enough available (q ∷ rest) h =
    elim (Bool-cases (ltb_ℤ (pos 0) available && leb_ℤ q.nr available)) [
      | inl fits ↦
          let room : q.nr ≤ℤ available = ground arith in
          rw fits (serve-enough (available -ℤ q.nr) rest (omega (int_laws, room)))
      | inr stuck ↦ rw stuck h
    ]

pub taken : (a n h : ℤ) → a -ℤ n +ℤ (n +ℤ h) ≡ a +ℤ h
taken a n h = omega int_laws

pub given :
    (left granted a n b c : ℤ)
    → left +ℤ granted ≡ a +ℤ n
    → left +ℤ (granted +ℤ (b +ℤ c)) ≡ a +ℤ (b +ℤ (n +ℤ c))
given left granted a n b c e = omega (int_laws, ap pos_part e, ap neg_part e)

-- Two lists with the same rest hold the same units.
pub units_cancel : (xs ys zs : List Request) → xs ++ zs ≡ ys ++ zs → units xs ≡ units ys
units_cancel xs ys zs e =
    let total = sym (units-append xs zs) ∙ ap units e ∙ units-append ys zs in
    omega (int_laws, ap pos_part total, ap neg_part total)

-- Each holder has one unit at least.
pub length-units : (qs : List Request) → IsPositive qs → pos (length qs) ≤ℤ units qs
length-units [] h = omega arith
length-units (q ∷ qs) (first, rest) =
    let more = length-units qs rest in omega (int_laws, first, more)
