-- ===== src/PriorityList.antt =====
-- libmetasim/include/metasim/plist.hpp: `priority_list`, a `std::set` of pointers under the
-- comparison `Compare`. A pointer is a number, and the set is its elements in iteration order.
-- What `std::set` does is written out by its documented contract: an element is found, inserted and
-- erased by the comparison alone, never by the identity of the pointer.
pub mod Order
pub mod Elements
use partsim.Prelude.{
  ℕ, zero, suc, Bool, true, false, Option, none, some, List, [], ◌∷◌, if◌then◌else◌, length,
  get_elem?,
}

-- The position is the first one whose element is not less; an equivalent element there stops it.
unfoldable pub insert : (ℕ → ℕ → Bool) → ℕ → List ℕ → List ℕ × Bool
insert less x [] = (x ∷ [], true)
insert less x (y ∷ ys) =
    let (rest, inserted) = insert less x ys in
    if less y x
    then (y ∷ rest, inserted)
    else if less x y
    then (x ∷ y ∷ ys, true)
    else (y ∷ ys, false)

-- Removes the element that is equivalent to `x` under the comparison, if there is one.
unfoldable pub erase : (ℕ → ℕ → Bool) → ℕ → List ℕ → List ℕ
erase less x [] = []
erase less x (y ∷ ys) =
    let rest = erase less x ys in if less y x then y ∷ rest else if less x y then y ∷ ys else ys

unfoldable pub front : List ℕ → Option ℕ
front [] = none
front (x ∷ xs) = some x

unfoldable pub empty : List ℕ → Bool
empty [] = true
empty (x ∷ xs) = false

abbrev pub size : List ℕ → ℕ
size xs = length xs

-- `std::advance(begin(), n)` followed by a read.
abbrev pub nth : List ℕ → ℕ → Option ℕ
nth xs n = get_elem? xs n
