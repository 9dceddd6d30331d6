-- ===== src/Code/Calls.antt =====
-- The token and the parameters of an instruction that is written `token(parameters)`.
use partsim.Prelude.{
  ℕ, suc, ◌+◌, ◌^◌, ◌≡◌, ◌<◌, refl, ap, ◌∙◌, Bool, true, false, Option, none, some, [], ◌∷◌, ◌++◌,
  ltb, arith, length, length-append, Bool-cases, inl, inr,
}
use partsim.Prelude.Action.{return}
use partsim.Tokens.{
  Str, space, newline, minus, substr, is_one_of, find_if, find_last_if, find_str, find_first_not_in,
  find_last_of, get_token, get_param,
}
use partsim.Tokens.Split.{
  Avoids, is_char, piece_lem, find_if-at, find_match-char, take-append, append_assoc,
}
use partsim.Tokens.Ends.{minus_lem}
use partsim.Code.{open_par, close_par}

-- The text of an instruction.
abbrev pub written : (token : Str) (body : Str) → Str
written token body = token ++ (open_par ∷ (body ++ close_par ∷ []))

find_last_if-end :
    (test : ℕ → Bool) (s : Str) (c : ℕ) (i : ℕ) (found : Option ℕ)
    → test c ≡ true
    → find_last_if test (s ++ c ∷ []) i found ≡ some (i + length s)
unfolding find_last_if
find_last_if-end test [] c i found h = rw h (ap some (omega arith))
find_last_if-end test (d ∷ s) c i found h = elim (Bool-cases (test d)) [
  | inl e ↦ rw e (find_last_if-end test s c (suc i) (some i) h ∙ ap some (omega arith))
  | inr e ↦ rw e (find_last_if-end test s c (suc i) found h ∙ ap some (omega arith))
]

-- The token begins with a character that is no blank and has no parenthesis in it.
abbrev pub IsToken : Str → Type 0
IsToken [] = ⊥
IsToken (c ∷ s) = (is_one_of (space ∷ newline ∷ []) c ≡ false) × Avoids (is_char open_par) (c ∷ s)

IsToken-Avoids : (token : Str) → IsToken token → Avoids (is_char open_par) token
IsToken-Avoids [] h = absurd h
IsToken-Avoids (c ∷ s) (_, h) = h

find_open :
    (token body : Str)
    → IsToken token
    → find_str (open_par ∷ []) (written token body) 0 ≡ some (length token)
unfolding find_str
find_open token body h =
    find_match-char open_par (written token body) 0
    ∙ find_if-at (is_char open_par) [] token open_par (body ++ close_par ∷ [])
        (IsToken-Avoids token h) refl
    ∙ ap some (omega arith)

first_char :
    (token body : Str)
    → IsToken token
    → find_first_not_in (space ∷ newline ∷ []) (written token body) ≡ some 0
unfolding find_first_not_in find_if
first_char [] body h = absurd h
first_char (c ∷ s) body (e, _) = rw e refl

pub get_token-written :
    (token body : Str)
    → IsToken token
    → length token < 2 ^ 64
    → get_token (written token body) (open_par ∷ []) ≡ return token
unfolding get_token
get_token-written token body h fits =
    let exact : minus (length token) 0 ≡ length token = omega arith in
    let inside : ltb (length (written token body)) 0 ≡ false = ground arith in
    rw (get_token, find_open token body h, first_char token body h, exact, inside)
      (ap return (take-append token (open_par ∷ (body ++ close_par ∷ []))))

find_close :
    (token body : Str)
    → find_last_of (close_par ∷ []) (written token body) ≡ some (length token + 1 + length body)
unfolding find_last_of
find_close token body = rw (append_assoc token (open_par ∷ body) (close_par ∷ [])) (
    find_last_if-end (is_one_of (close_par ∷ [])) (token ++ open_par ∷ body) close_par 0 none refl
    ∙ ap some (omega (arith, length-append token (open_par ∷ body))))

pub length-written :
    (token body : Str) → length (written token body) ≡ length token + length body + 2
length-written token body = omega (
  arith,
  length-append token (open_par ∷ (body ++ close_par ∷ [])),
  length-append body (close_par ∷ []),
)

body_piece :
    (token body : Str)
    → length body < 2 ^ 64
    → substr
        (written token body)
        (length token + 1)
        (minus (length token + 1 + length body) (length token + 1))
      ≡ return body
body_piece token body fits =
    let inside : ltb (length (written token body)) (length token + 1) ≡ false =
      ground (arith, length-written token body) in
    let start : length token + 1 ≡ length (token ++ open_par ∷ []) =
      omega (arith, length-append token (open_par ∷ [])) in
    rw (minus_lem (length token + 1) (length body) fits, inside)
      (ap return (
        rw (start, append_assoc token (open_par ∷ []) (body ++ close_par ∷ []))
          (piece_lem (token ++ open_par ∷ []) body (close_par ∷ []) (length body) refl)))

pub get_param-written :
    (token body : Str)
    → IsToken token
    → length (written token body) < 2 ^ 64
    → get_param (written token body) (open_par ∷ []) (close_par ∷ []) ≡ return body
unfolding get_param
get_param-written token body h fits =
    rw (get_param, find_open token body h, find_close token body)
      (body_piece token body (omega (arith, length-written token body)))
