-- ===== src/Tokens/Split.antt =====
-- Joined pieces are split into the same pieces.
use partsim.Prelude.{
  ℕ, zero, suc, ◌+◌, ◌≤◌, ◌≡◌, ◌≢◌, refl, ap, ◌∙◌, Bool, true, false, not, Option, none, some, List,
  [], ◌∷◌, ◌++◌, ◌==◌, arith, length, take, drop, Bool-cases, inl, inr,
}
use partsim.Tokens.{
  Str, space, piece, find_if, find_last_if, find_match, find_first_not_of, find_last_not_of,
  remove_spaces,
}

-- No character passes the test.
abbrev pub Avoids : (ℕ → Bool) → Str → Type 0
Avoids test [] = Unit
Avoids test (c ∷ s) = (test c ≡ false) × Avoids test s

abbrev pub last : ℕ → Str → ℕ
last c [] = c
last c (d ∷ s) = last d s

-- The string neither begins nor ends with a space.
abbrev pub IsTrimmed : Str → Type 0
IsTrimmed [] = Unit
IsTrimmed (c ∷ s) = (c ≢ space) × (last c s ≢ space)

module _ {A : Type 0} where
  pub drop-append : (xs ys : List A) → drop (length xs) (xs ++ ys) ≡ ys
  drop-append [] ys = refl
  drop-append (x ∷ xs) ys = drop-append xs ys

  pub take-append : (xs ys : List A) → take (length xs) (xs ++ ys) ≡ xs
  take-append [] ys = refl
  take-append (x ∷ xs) ys = ap (λ (l : List A). x ∷ l) (take-append xs ys)

pub take_all : (s : Str) (n : ℕ) → length s ≤ n → take n s ≡ s
take_all [] zero h = refl
take_all [] (suc n) h = refl
take_all (c ∷ s) zero h = absurd (omega arith)
take_all (c ∷ s) (suc n) h = ap (λ (l : Str). c ∷ l) (take_all s n (omega arith))

pub piece_lem : (pre x s : Str) (n : ℕ) → n ≡ length x → piece (pre ++ (x ++ s)) (length pre) n ≡ x
piece_lem pre x s n e = rw (e, drop-append pre (x ++ s)) (take-append x s)

pub find_if-skip :
    (test : ℕ → Bool) (x s : Str) (i : ℕ)
    → Avoids test x
    → find_if test (x ++ s) i ≡ find_if test s (i + length x)
unfolding find_if
find_if-skip test [] s i h = ap (find_if test s) (omega arith)
find_if-skip test (c ∷ x) s i (e, h) =
    rw e (find_if-skip test x s (suc i) h ∙ ap (find_if test s) (omega arith))

pub find_if-none : (test : ℕ → Bool) (x : Str) (i : ℕ) → Avoids test x → find_if test x i ≡ none
unfolding find_if
find_if-none test [] i h = refl
find_if-none test (c ∷ x) i (e, h) = rw e (find_if-none test x (suc i) h)

find_last_if-last :
    (test : ℕ → Bool) (c : ℕ) (s : Str) (i : ℕ) (found : Option ℕ)
    → test (last c s) ≡ true
    → find_last_if test (c ∷ s) i found ≡ some (i + length s)
unfolding find_last_if
find_last_if-last test c [] i found h = rw h (ap some (omega arith))
find_last_if-last test c (d ∷ s) i found h = elim (Bool-cases (test c)) [
  | inl e ↦ rw e (find_last_if-last test d s (suc i) (some i) h ∙ ap some (omega arith))
  | inr e ↦ rw e (find_last_if-last test d s (suc i) found h ∙ ap some (omega arith))
]

differs_from_blank : (c : ℕ) → c ≢ space → not (c == space) ≡ true
differs_from_blank c h = ground arith

pub remove_spaces-trimmed : (s : Str) → IsTrimmed s → remove_spaces s ≡ s
unfolding remove_spaces find_first_not_of find_last_not_of find_if
remove_spaces-trimmed [] h = refl
remove_spaces-trimmed (c ∷ s) (first, ends) =
    rw
      (
        differs_from_blank c first,
        find_last_if-last (λ x. not (x == space)) c s 0 none (differs_from_blank (last c s) ends),
      )
      (take_all (c ∷ s) (0 + length s + 1) (omega arith))

-- The end of the string as a piece.
pub piece_end : (pre x : Str) (n : ℕ) → n ≡ length x → piece (pre ++ x) (length pre) n ≡ x
piece_end pre x n e = rw (drop-append pre x) (take_all x n (omega arith))

-- The search from the end of `pre` on finds the first character that passes.
pub find_if-at :
    (test : ℕ → Bool) (pre x : Str) (c : ℕ) (s : Str)
    → Avoids test x
    → test c ≡ true
    → find_if test (drop (length pre) (pre ++ (x ++ c ∷ s))) (length pre)
      ≡ some (length pre + length x)
unfolding find_if
find_if-at test pre x c s h t =
    rw (drop-append pre (x ++ c ∷ s), find_if-skip test x (c ∷ s) (length pre) h, t) refl

pub find_if-nowhere :
    (test : ℕ → Bool) (pre x : Str)
    → Avoids test x
    → find_if test (drop (length pre) (pre ++ x)) (length pre) ≡ none
find_if-nowhere test pre x h = rw (drop-append pre x) (find_if-none test x (length pre) h)

abbrev pub is_char : ℕ → ℕ → Bool
is_char c x = x == c

-- A separator of one character is searched like the character.
pub find_match-char : (c : ℕ) (s : Str) (i : ℕ) → find_match (c ∷ []) s i ≡ find_if (is_char c) s i
unfolding find_match find_if
find_match-char c [] i = refl
find_match-char c (d ∷ s) i =
    let rest = find_match-char c s (suc i) in
    elim (Bool-cases (d == c)) [ inl e ↦ ground (arith, e) | inr e ↦ ground (arith, e, rest) ]

pub append_assoc : (xs ys zs : Str) → xs ++ (ys ++ zs) ≡ (xs ++ ys) ++ zs
append_assoc [] ys zs = refl
append_assoc (x ∷ xs) ys zs = ap (λ (l : Str). x ∷ l) (append_assoc xs ys zs)

-- The pieces with the separator between them.
abbrev pub join : Str → Str → List Str → Str
join sep x [] = x
join sep x (y ∷ ys) = x ++ (sep ++ join sep y ys)

-- Pieces that the tokenizer gives back as they are: trimmed, and without the separator.
abbrev pub ArePlain : ℕ → List Str → Type 0
ArePlain c [] = Unit
ArePlain c (x ∷ xs) = (IsTrimmed x × Avoids (is_char c) x) × ArePlain c xs
