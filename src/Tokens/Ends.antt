-- ===== src/Tokens/Ends.antt =====
-- Where `split_param` ends a parameter: at a separator outside parentheses.
use partsim.Prelude.{
  ℕ, zero, suc, ◌+◌, ◌^◌, ◌<◌, ◌≡◌, ◌≢◌, refl, sym, ap, ◌∙◌, ◌⊎◌, inl, inr, Bool, true, false, some,
  List, [], ◌∷◌, ◌++◌, ◌==◌, arith, length, get_or, length-append,
}
use partsim.Tokens.{Str, minus, is_one_of, find_char, find_first_of, after_par, next_end}
use partsim.Tokens.Split.{Avoids, IsTrimmed, is_char, find_if-at, append_assoc}

module _ (c open_par close_par : ℕ) where
  abbrev pub is_symbol : ℕ → Bool
  is_symbol = is_one_of (c ∷ open_par ∷ [])

  -- A parameter without the two symbols, or one that ends with the only parenthesis that it opens.
  abbrev pub IsParam : Str → Type 0
  IsParam x =
      Avoids is_symbol x
      ⊎ ((a : Str) × (b : Str) × (x ≡ a ++ (open_par ∷ (b ++ close_par ∷ [])))
          × Avoids is_symbol a
          × Avoids (is_char close_par) b)

  abbrev pub AreParams : List Str → Type 0
  AreParams [] = Unit
  AreParams (x ∷ xs) = ((x ≢ []) × IsTrimmed x × IsParam x) × AreParams xs

-- A parameter of the second kind.
abbrev pub call : (open_par close_par : ℕ) → Str → Str → Str
call open_par close_par a b = a ++ (open_par ∷ (b ++ close_par ∷ []))

pub minus_lem : (a b : ℕ) → b < 2 ^ 64 → minus (a + b) a ≡ b
minus_lem a b h = omega arith

get_or-append :
    (pre : Str) (c : ℕ) (s : Str) (i : ℕ) → i ≡ length pre → get_or (pre ++ c ∷ s) i 0 ≡ c
get_or-append [] c s i e = rw e refl
get_or-append (x ∷ pre) c s zero e = absurd (omega arith)
get_or-append (x ∷ pre) c s (suc i) e = get_or-append pre c s i (omega arith)

module _ (c open_par close_par : ℕ) (apart : c ≢ open_par) (pair : open_par ≢ close_par) where
  -- A parameter of the first kind ends at the separator.
  plain_end :
      (pre x s : Str)
      → Avoids (is_symbol c open_par close_par) x
      → next_end (pre ++ (x ++ c ∷ s)) (c ∷ []) open_par close_par (length pre)
        ≡ some (length pre + length x)
  unfolding next_end find_first_of
  plain_end pre x s free =
      let symbol : is_symbol c open_par close_par c ≡ true = ground arith in
      let other : (c == open_par) ≡ false = ground arith in
      let here : length pre + length x ≡ length (pre ++ x) = omega (arith, length-append {A = ℕ}) in
      rw
        (
          next_end,
          find_if-at (is_symbol c open_par close_par) pre x c s free symbol,
          append_assoc pre x (c ∷ s),
          get_or-append (pre ++ x) c s (length pre + length x) here,
          other,
        )
        refl

  call_shape :
      (a b s : Str) → call open_par close_par a b ++ s ≡ a ++ ((open_par ∷ b) ++ close_par ∷ s)
  call_shape a b s =
      sym (append_assoc a (open_par ∷ (b ++ close_par ∷ [])) s)
      ∙ ap (λ (l : Str). a ++ (open_par ∷ l)) (sym (append_assoc b (close_par ∷ []) s))

  length-call : (a b : Str) → length (call open_par close_par a b) ≡ length a + length b + 2
  length-call a b =
      omega (
        arith,
        length-append a (open_par ∷ (b ++ close_par ∷ [])),
        length-append b (close_par ∷ []),
      )

  closes_at :
      (front b s : Str) (i : ℕ)
      → i ≡ length front
      → Avoids (is_char close_par) b
      → after_par (front ++ ((open_par ∷ b) ++ close_par ∷ s)) close_par i ≡ some (i + length b + 2)
  unfolding find_char
  closes_at front b s i e free =
      let other : is_char close_par open_par ≡ false = ground arith in
      let this : is_char close_par close_par ≡ true = ground arith in
      let inside : (length front + length (open_par ∷ b)
            == length (front ++ ((open_par ∷ b) ++ close_par ∷ s)))
          ≡ false =
        ground (
          arith,
          length-append front ((open_par ∷ b) ++ close_par ∷ s),
          length-append b (close_par ∷ s),
        ) in
      rw
        (
          e,
          after_par,
          find_if-at (is_char close_par) front (open_par ∷ b) close_par s (other, free) this,
          inside,
        )
        (ap some (omega arith))

  opens_at :
      (pre a t : Str) → get_or (pre ++ (a ++ open_par ∷ t)) (length pre + length a) 0 ≡ open_par
  opens_at pre a t =
      let here : length pre + length a ≡ length (pre ++ a) = omega (arith, length-append {A = ℕ}) in
      rw (append_assoc pre a (open_par ∷ t))
        (get_or-append (pre ++ a) open_par t (length pre + length a) here)

  closes_behind :
      (pre a b s : Str)
      → Avoids (is_char close_par) b
      → after_par
          (pre ++ (a ++ ((open_par ∷ b) ++ close_par ∷ s)))
          close_par
          (length pre + length a)
        ≡ some (length pre + length a + length b + 2)
  closes_behind pre a b s closed =
      let here : length pre + length a ≡ length (pre ++ a) = omega (arith, length-append {A = ℕ}) in
      rw (append_assoc pre a ((open_par ∷ b) ++ close_par ∷ s))
        (closes_at (pre ++ a) b s (length pre + length a) here closed)

  call_end_at :
      (pre a b s : Str)
      → Avoids (is_symbol c open_par close_par) a
      → Avoids (is_char close_par) b
      → next_end
          (pre ++ (a ++ ((open_par ∷ b) ++ close_par ∷ s)))
          (c ∷ [])
          open_par
          close_par
          (length pre)
        ≡ some (length pre + length a + length b + 2)
  unfolding next_end find_first_of
  call_end_at pre a b s free closed =
      let symbol : is_symbol c open_par close_par open_par ≡ true = ground arith in
      let this : (open_par == open_par) ≡ true = ground arith in
      rw
        (
          next_end,
          find_if-at (is_symbol c open_par close_par) pre a open_par (b ++ close_par ∷ s) free
              symbol,
          opens_at pre a (b ++ close_par ∷ s),
          this,
        )
        (closes_behind pre a b s closed)

  pub call_end :
      (pre a b s : Str)
      → Avoids (is_symbol c open_par close_par) a
      → Avoids (is_char close_par) b
      → next_end
          (pre ++ (call open_par close_par a b ++ s))
          (c ∷ [])
          open_par
          close_par
          (length pre)
        ≡ some (length pre + length (call open_par close_par a b))
  call_end pre a b s free closed =
      rw (call_shape a b s)
        (call_end_at pre a b s free closed ∙ ap some (omega (arith, length-call a b)))

  -- Either kind, in front of a separator.
  pub param_end :
      (pre x s : Str)
      → IsParam c open_par close_par x
      → next_end (pre ++ (x ++ c ∷ s)) (c ∷ []) open_par close_par (length pre)
        ≡ some (length pre + length x)
  param_end pre x s (inl free) = plain_end pre x s free
  param_end pre x s (inr (a, b, e, free, closed)) = rw e (call_end pre a b (c ∷ s) free closed)
