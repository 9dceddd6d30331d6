-- ===== src/SporadicServer/Queues.antt =====
-- Queues of replenishments: how much they hold.
use partsim.Prelude.{◌≡◌, refl, arith, some, List, [], ◌∷◌, ◌++◌, length}
use partsim.Prelude.Int.{pos, ◌+ℤ◌, int_laws}
use partsim.Tick.{Tick}
use partsim.SporadicServer.{Replenishment, add_last}

abbrev pub amount : List Replenishment → Tick
amount [] = pos 0
amount ((t, b) ∷ rs) = b +ℤ amount rs

pub amount-append :
    (xs : List Replenishment) (t b : Tick) → amount (xs ++ (t, b) ∷ []) ≡ amount xs +ℤ b
amount-append [] t b = omega int_laws
amount-append ((u, c) ∷ xs) t b = rw (amount-append xs t b) (omega int_laws)

-- Adding to the last one, if there is one.
pub add_last_lem :
    (b : Tick) (r : Replenishment) (rs : List Replenishment)
    → (ys : List Replenishment) × (add_last b (r ∷ rs) ≡ some ys)
      × (amount ys ≡ amount (r ∷ rs) +ℤ b)
      × (length ys ≡ length (r ∷ rs))
add_last_lem b (t, c) [] = ((t, c +ℤ b) ∷ [], refl, omega int_laws, refl)
add_last_lem b (t, c) (x ∷ xs) =
    let (ys, e, total, size) = add_last_lem b x xs in
    ((t, c) ∷ ys, rw e refl, rw total (omega int_laws), omega (arith, size))
