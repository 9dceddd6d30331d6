-- ===== src/Tokens/Nested.antt =====
-- `split_param` cuts at the separators that stand outside parentheses.
use partsim.Prelude.{
  ℕ, zero, suc, ◌+◌, ◌^◌, ◌<◌, ◌≡◌, ◌≢◌, refl, sym, ap, subst, ◌∙◌, inl, inr, true, false, some,
  List, [], ◌∷◌, ◌++◌, ◌==◌, ltb, arith, length, length-append,
}
use partsim.Prelude.Action.{return}
use partsim.Tokens.{
  Str, minus, substr, npos, find_first_of, push_trimmed, keep_nonempty, next_end, split_param_loop,
  split_param,
}
use partsim.Tokens.Split.{
  Avoids, IsTrimmed, is_char, join, remove_spaces-trimmed, piece_lem, piece_end, find_if-nowhere,
}
use partsim.Tokens.RoundTrip.{passed, passed_all, length-passed, length-join}
use partsim.Tokens.Ends.{IsParam, AreParams, is_symbol, call, minus_lem, call_end, param_end}

module _ (c open_par close_par : ℕ) (apart : c ≢ open_par) (pair : open_par ≢ close_par) where
  piece_here :
      (pre x s : Str)
      → length x < 2 ^ 64
      → substr (pre ++ (x ++ s)) (length pre) (minus (length pre + length x) (length pre))
        ≡ return x
  piece_here pre x s fits =
      let inside : ltb (length (pre ++ (x ++ s))) (length pre) ≡ false =
        ground (arith, length-append pre (x ++ s)) in
      rw (minus_lem (length pre) (length x) fits, inside)
        (ap return (piece_lem pre x s (length x) refl))

  pushes :
      (x : Str) (xs : List Str)
      → IsTrimmed x
      → push_trimmed (return x) (return xs) ≡ return (x ∷ xs)
  unfolding push_trimmed
  pushes x xs trimmed = rw (remove_spaces-trimmed x trimmed) refl

  append_nil : (s : Str) → s ++ [] ≡ s
  append_nil [] = refl
  append_nil (d ∷ s) = ap (λ (l : Str). d ∷ l) (append_nil s)

  in_range : (pre s : Str) → ltb (length (pre ++ s)) (length pre) ≡ false
  in_range pre s = ground (arith, length-append pre s)

  keeps_last : (x : Str) → x ≢ [] → IsTrimmed x → keep_nonempty (return x) ≡ return (x ∷ [])
  unfolding keep_nonempty
  keeps_last [] some_char trimmed = absurd (some_char refl)
  keeps_last (d ∷ x) some_char trimmed =
      rw (remove_spaces-trimmed (d ∷ x) trimmed, keep_nonempty) refl

  rest_of :
      (pre x : Str)
      → length x < 2 ^ 64
      → substr (pre ++ x) (length pre) (minus (length (pre ++ x)) (length pre)) ≡ return x
  rest_of pre x fits =
      let exact : minus (length (pre ++ x)) (length pre) ≡ length x =
        rw (length-append pre x) (minus_lem (length pre) (length x) fits) in
      rw (exact, in_range pre x) (ap return (piece_end pre x (length x) refl))

  -- The last parameter, of the first kind.
  plain_last :
      (fuel : ℕ) (pre x : Str)
      → Avoids (is_symbol c open_par close_par) x
      → x ≢ []
      → IsTrimmed x
      → length pre + length x < npos
      → split_param_loop (suc fuel) (pre ++ x) (c ∷ []) open_par close_par (length pre) (length pre)
        ≡ return (x ∷ [])
  unfolding split_param_loop next_end find_first_of
  plain_last fuel pre x free some_char trimmed fits =
      let apart : (npos == length pre) ≡ false = ground arith in
      rw
        (
          split_param_loop,
          in_range pre x,
          next_end,
          find_if-nowhere (is_symbol c open_par close_par) pre x free,
          apart,
          rest_of pre x (omega arith),
        )
        (keeps_last x some_char trimmed)

  -- The last parameter, of the second kind.
  call_last :
      (fuel : ℕ) (pre a b : Str)
      → Avoids (is_symbol c open_par close_par) a
      → Avoids (is_char close_par) b
      → IsTrimmed (call open_par close_par a b)
      → length pre + length (call open_par close_par a b) < npos
      → split_param_loop
          (suc (suc fuel))
          (pre ++ call open_par close_par a b)
          (c ∷ [])
          open_par
          close_par
          (length pre)
          (length pre)
        ≡ return (call open_par close_par a b ∷ [])
  unfolding split_param_loop
  call_last fuel pre a b free closed trimmed fits =
      let whole : pre ++ (call open_par close_par a b ++ []) ≡ pre ++ call open_par close_par a b =
        ap (λ (l : Str). pre ++ l) (append_nil (call open_par close_par a b)) in
      let ends : next_end (pre ++ call open_par close_par a b) (c ∷ []) open_par close_par
            (length pre)
          ≡ some (length pre + length (call open_par close_par a b)) =
        rw (← whole) (call_end c open_par close_par apart pair pre a b [] free closed) in
      let this : substr (pre ++ call open_par close_par a b) (length pre)
            (minus (length pre + length (call open_par close_par a b)) (length pre))
          ≡ return (call open_par close_par a b) =
        rw (← whole) (piece_here pre (call open_par close_par a b) [] (omega arith)) in
      let past : ltb (length (pre ++ call open_par close_par a b))
            (length pre + length (call open_par close_par a b) + 1)
          ≡ true =
        ground (arith, length-append pre (call open_par close_par a b)) in
      let same : (length pre + length (call open_par close_par a b) + 1
            == length pre + length (call open_par close_par a b) + 1)
          ≡ true =
        ground arith in
      rw (split_param_loop, in_range pre (call open_par close_par a b), ends, this, past, same)
        (pushes (call open_par close_par a b) [] trimmed)

  param_last :
      (fuel : ℕ) (pre x : Str)
      → x ≢ []
      → IsTrimmed x
      → IsParam c open_par close_par x
      → length pre + length x < npos
      → split_param_loop
          (suc (suc fuel))
          (pre ++ x)
          (c ∷ [])
          open_par
          close_par
          (length pre)
          (length pre)
        ≡ return (x ∷ [])
  param_last fuel pre x some_char trimmed (inl free) fits =
      plain_last (suc fuel) pre x free some_char trimmed fits
  param_last fuel pre x some_char trimmed (inr (a, b, e, free, closed)) fits =
      subst
        (λ (y : Str).
          split_param_loop (suc (suc fuel)) (pre ++ y) (c ∷ []) open_par close_par (length pre)
            (length pre)
          ≡ return (y ∷ []))
        (sym e)
        (call_last fuel pre a b free closed (subst IsTrimmed e trimmed)
          (subst (λ (y : Str). length pre + length y < npos) e fits))

  -- A round at a parameter that a separator ends.
  round_lem :
      (fuel : ℕ) (pre x s : Str)
      → IsParam c open_par close_par x
      → length x < 2 ^ 64
      → split_param_loop
          (suc fuel)
          (pre ++ (x ++ c ∷ s))
          (c ∷ [])
          open_par
          close_par
          (length pre)
          (length pre)
        ≡ push_trimmed (return x) (
            split_param_loop fuel
              (pre ++ (x ++ c ∷ s))
              (c ∷ [])
              open_par
              close_par
              (length pre + length x + 1)
              (length pre + length x + 1))
  unfolding split_param_loop
  round_lem fuel pre x s param fits =
      rw
        (
          split_param_loop,
          in_range pre (x ++ c ∷ s),
          param_end c open_par close_par apart pair pre x s param,
          piece_here pre x (c ∷ s) fits,
        )
        refl

  loop_params :
      (xs : List Str) (fuel : ℕ) (pre x : Str)
      → AreParams c open_par close_par (x ∷ xs)
      → length xs < fuel
      → length (pre ++ join (c ∷ []) x xs) < npos
      → split_param_loop
          (suc fuel)
          (pre ++ join (c ∷ []) x xs)
          (c ∷ [])
          open_par
          close_par
          (length pre)
          (length pre)
        ≡ return (x ∷ xs)
  loop_params xs zero pre x params h fits = absurd (omega arith)
  loop_params [] (suc fuel) pre x ((some_char, trimmed, param), _) h fits =
      param_last fuel pre x some_char trimmed param (omega (arith, length-append pre x))
  loop_params (y ∷ ys) (suc fuel) pre x ((some_char, trimmed, param), params) h fits =
      let s = join (c ∷ []) y ys in
      let all : length (pre ++ (x ++ c ∷ s)) ≡ length pre + length x + 1 + length s =
        omega (arith, length-append pre (x ++ c ∷ s), length-append x (c ∷ s)) in
      let rest =
        loop_params ys fuel (passed pre x c s) y params (omega arith)
          (rw (passed_all pre x c s) fits) in
      round_lem (suc fuel) pre x s param (omega arith)
      ∙ rw (← length-passed pre x c s, ← passed_all pre x c s, rest) (pushes x (y ∷ ys) trimmed)

-- `split_param` by a separator of one character gives back the parameters that were joined with it,
-- where a parameter is not empty, does not begin or end with a space, and has the separator at most
-- within one pair of parentheses at its end; the two symbols that it looks for differ, the two
-- parentheses too, and the text is shorter than `npos`.
pub split_param-join :
    (c open_par close_par : ℕ) (x : Str) (xs : List Str)
    → c ≢ open_par
    → open_par ≢ close_par
    → AreParams c open_par close_par (x ∷ xs)
    → length (join (c ∷ []) x xs) < npos
    → split_param (join (c ∷ []) x xs) (c ∷ []) open_par close_par ≡ return (x ∷ xs)
unfolding split_param
split_param-join c open_par close_par x xs apart pair params fits =
    let le = length-join c x xs in
    let fuel : length (join (c ∷ []) x xs) + 2 ≡ suc (length (join (c ∷ []) x xs) + 1) =
      omega arith in
    rw fuel (
      loop_params c open_par close_par apart pair xs (length (join (c ∷ []) x xs) + 1) [] x params
        (omega arith) fits)
