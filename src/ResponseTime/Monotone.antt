-- ===== src/ResponseTime/Monotone.antt =====
-- The demand grows with the span of time and with the budgets.
use partsim.Prelude.{ℕ, ◌+◌, ◌-◌, ◌/◌, ◌^◌, ◌≡◌, refl, ◌≤◌, ◌<◌, List, [], ◌∷◌, arith}
use native.Mathlib.Nat.{le-div_iff_mul-le, div-mul-le_self}
use partsim.Prelude.Int.{pos}
use partsim.Tick.{to_int32_small}
use partsim.ResponseTime.{ServerInfo, int_period, ceil_div, interference}

-- Every server has a period that fits an `int`.
abbrev pub Periodic : List ServerInfo → Type 0
Periodic [] = Unit
Periodic (s ∷ ss) = (0 < s.p) × (s.p < 2 ^ 31) × Periodic ss

div_mono : (a b p : ℕ) → 0 < p → a ≤ b → a / p ≤ b / p
div_mono a b p h le = let low = div-mul-le_self a p in (le-div_iff_mul-le h).1 (omega (arith, low))

-- `int(P)` keeps such a period.
pub int_period_small : (p : ℕ) → p < 2 ^ 31 → int_period p ≡ p
unfolding int_period
int_period_small p h = rw (to_int32_small (pos p) (omega arith) (omega arith), int_period) refl

ceil_div_mono : (a b p : ℕ) → 0 < p → p < 2 ^ 31 → a ≤ b → ceil_div a p ≤ ceil_div b p
unfolding ceil_div
ceil_div_mono a b p h small le =
    rw (int_period_small p small) (div_mono (a + p - 1) (b + p - 1) p h (omega arith))

pub interference_mono :
    (ss : List ServerInfo) (a b : ℕ) → Periodic ss → a ≤ b → interference ss a ≤ interference ss b
unfolding interference
interference_mono [] a b h le = omega arith
interference_mono (s ∷ ss) a b (p, small, h) le =
    let c = ceil_div_mono a b s.p p small le in
    let rest = interference_mono ss a b h le in grind arith
