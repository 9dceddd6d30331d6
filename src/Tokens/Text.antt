-- ===== src/Tokens/Text.antt =====
-- What the tokenizer uses of `std::string`, by its documented contract.
use partsim.Prelude.{
  ℕ, suc, ◌+◌, ◌-◌, ◌%◌, ◌^◌, Bool, true, false, ◌||◌, not, Option, none, some, List, [], ◌∷◌, ◌==◌,
  ltb, if◌then◌else◌, length, take, drop,
}
use partsim.Prelude.Action.{Outcome, return, throw, out_of_range}

abbrev pub Str : Type 0
Str = List ℕ

abbrev pub space : ℕ
space = 32

abbrev pub newline : ℕ
newline = 10

abbrev pub semicolon : ℕ
semicolon = 59

-- A position as a number of 64 bits.
abbrev pub npos : ℕ
npos = 2 ^ 64 - 1

abbrev pub position : Option ℕ → ℕ
position none = npos
position (some i) = i

-- The difference of two positions wraps around.
abbrev pub minus : ℕ → ℕ → ℕ
minus a b = (a + 2 ^ 64 - b) % 2 ^ 64

abbrev pub piece : Str → (pos n : ℕ) → Str
piece s pos n = take n (drop pos s)

abbrev pub substr : Str → (pos n : ℕ) → Outcome Str
substr s pos n = if ltb (length s) pos then throw out_of_range else return (piece s pos n)

abbrev pub is_one_of : Str → ℕ → Bool
is_one_of [] c = false
is_one_of (x ∷ xs) c = (x == c) || is_one_of xs c

-- The position of the first character that passes the test, where the string starts at `i`.
unfoldable pub find_if : (ℕ → Bool) → Str → (i : ℕ) → Option ℕ
find_if test [] i = none
find_if test (c ∷ s) i = let rest = find_if test s (suc i) in if test c then some i else rest

-- The position of the last one; `found` is the last one so far.
unfoldable pub find_last_if : (ℕ → Bool) → Str → (i : ℕ) → (found : Option ℕ) → Option ℕ
find_last_if test [] i found = found
find_last_if test (c ∷ s) i found =
    let here = find_last_if test s (suc i) (some i) in
    let rest = find_last_if test s (suc i) found in if test c then here else rest

unfoldable pub find_char : ℕ → Str → (pos : ℕ) → Option ℕ
unfolding find_if
find_char c s pos = find_if (λ x. x == c) (drop pos s) pos

unfoldable pub find_first_of : Str → Str → (pos : ℕ) → Option ℕ
unfolding find_if
find_first_of symbols s pos = find_if (is_one_of symbols) (drop pos s) pos

unfoldable pub find_first_not_of : ℕ → Str → Option ℕ
unfolding find_if
find_first_not_of c s = find_if (λ x. not (x == c)) s 0

unfoldable pub find_first_not_in : Str → Str → Option ℕ
unfolding find_if
find_first_not_in symbols s = find_if (λ x. not (is_one_of symbols x)) s 0

unfoldable pub find_last_not_of : ℕ → Str → Option ℕ
unfolding find_last_if
find_last_not_of c s = find_last_if (λ x. not (x == c)) s 0 none

unfoldable pub find_last_of : Str → Str → Option ℕ
unfolding find_last_if
find_last_of symbols s = find_last_if (is_one_of symbols) s 0 none

abbrev pub is_prefix : Str → Str → Bool
is_prefix [] s = true
is_prefix (x ∷ xs) [] = false
is_prefix (x ∷ xs) (c ∷ s) = if x == c then is_prefix xs s else false

-- The position of the first occurrence of a string.
unfoldable pub find_match : Str → Str → (i : ℕ) → Option ℕ
find_match sep [] i = if is_prefix sep [] then some i else none
find_match sep (c ∷ s) i =
    let rest = find_match sep s (suc i) in if is_prefix sep (c ∷ s) then some i else rest

unfoldable pub find_str : Str → Str → (pos : ℕ) → Option ℕ
unfolding find_match
find_str sep s pos = find_match sep (drop pos s) pos
