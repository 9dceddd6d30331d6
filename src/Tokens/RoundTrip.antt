-- ===== src/Tokens/RoundTrip.antt =====
-- `split` and `split_instr` undo the joining of plain pieces.
use partsim.Prelude.{
  ℕ, zero, suc, ◌+◌, ◌-◌, ◌≤◌, ◌<◌, ◌≡◌, refl, sym, ap, ◌∙◌, true, List, [], ◌∷◌, ◌++◌, arith,
  length, drop, length-append,
}
use partsim.Prelude.Action.{return}
use partsim.Tokens.{
  Str, semicolon, find_char, find_str, split_loop, split, split_instr_loop, split_instr,
}
use partsim.Tokens.Split.{
  Avoids, ArePlain, join, is_char, remove_spaces-trimmed, piece_lem, piece_end, find_if-at,
  find_if-nowhere, find_match-char, append_assoc,
}

is_char_self : (c : ℕ) → is_char c c ≡ true
is_char_self c = ground arith

-- A round of either loop, after `pre`, at a piece that a separator ends.
module _ (pre x : Str) (c : ℕ) (s : Str) where
  abbrev pub passed : Str
  passed = pre ++ (x ++ c ∷ [])

  pub passed_all : passed ++ s ≡ pre ++ (x ++ c ∷ s)
  passed_all =
      sym (append_assoc pre (x ++ c ∷ []) s)
      ∙ ap (λ (l : Str). pre ++ l) (sym (append_assoc x (c ∷ []) s))

  pub length-passed : length passed ≡ length pre + length x + 1
  length-passed = omega (arith, length-append {A = ℕ})

split_loop-join :
    (c : ℕ) (xs : List Str) (fuel : ℕ) (pre x : Str)
    → ArePlain c (x ∷ xs)
    → length xs < fuel
    → split_loop fuel (pre ++ join (c ∷ []) x xs) (c ∷ []) (length pre) ≡ return (x ∷ xs)
unfolding split_loop find_str
split_loop-join c xs zero pre x plain h = absurd (omega arith)
split_loop-join c [] (suc fuel) pre x ((trimmed, free), _) h =
    let nowhere =
      find_match-char c (drop (length pre) (pre ++ x)) (length pre)
      ∙ find_if-nowhere (is_char c) pre x free in
    let whole : length (pre ++ x) - length pre ≡ length x = omega (arith, length-append {A = ℕ}) in
    rw
      (
        nowhere,
        piece_end pre x (length (pre ++ x) - length pre) whole,
        remove_spaces-trimmed x trimmed,
        split_loop,
        find_str,
      )
      refl
split_loop-join c (y ∷ ys) (suc fuel) pre x ((trimmed, free), plain) h =
    let s = join (c ∷ []) y ys in
    let here =
      find_match-char c (drop (length pre) (pre ++ (x ++ c ∷ s))) (length pre)
      ∙ find_if-at (is_char c) pre x c s free (is_char_self c) in
    let whole : length pre + length x - length pre ≡ length x = omega arith in
    let rest = split_loop-join c ys fuel (passed pre x c s) y plain (omega arith) in
    rw
      (
        split_loop,
        find_str,
        here,
        piece_lem pre x (c ∷ s) (length pre + length x - length pre) whole,
        remove_spaces-trimmed x trimmed,
        ← length-passed pre x c s,
        ← passed_all pre x c s,
        rest,
      )
      refl

pub length-join : (c : ℕ) (x : Str) (xs : List Str) → length xs ≤ length (join (c ∷ []) x xs)
length-join c x [] = omega arith
length-join c x (y ∷ ys) =
    let rest = length-join c y ys in omega (arith, rest, length-append x (c ∷ join (c ∷ []) y ys))

-- `split` by a separator of one character gives back the pieces that were joined with it, where no
-- piece has the separator in it, or a space at its beginning or end.
pub split-join :
    (c : ℕ) (x : Str) (xs : List Str)
    → ArePlain c (x ∷ xs)
    → split (join (c ∷ []) x xs) (c ∷ []) ≡ return (x ∷ xs)
unfolding split
split-join c x xs plain =
    let le = length-join c x xs in
    split_loop-join c xs (length (join (c ∷ []) x xs) + 1) [] x plain (omega arith)

-- Instructions that a semicolon ends, and what stands after the last one.
abbrev pub ended : List Str → Str → Str
ended [] tail = tail
ended (x ∷ xs) tail = x ++ semicolon ∷ ended xs tail

split_instr_loop-ended :
    (xs : List Str) (tail : Str) (fuel : ℕ) (pre : Str)
    → ArePlain semicolon xs
    → Avoids (is_char semicolon) tail
    → length xs < fuel
    → split_instr_loop fuel (pre ++ ended xs tail) (length pre) ≡ return xs
unfolding split_instr_loop find_char
split_instr_loop-ended xs tail zero pre plain free h = absurd (omega arith)
split_instr_loop-ended [] tail (suc fuel) pre plain free h =
    rw (split_instr_loop, find_char, find_if-nowhere (is_char semicolon) pre tail free) refl
split_instr_loop-ended (x ∷ xs) tail (suc fuel) pre ((trimmed, avoids), plain) free h =
    let s = ended xs tail in
    let whole : length pre + length x - length pre ≡ length x = omega arith in
    let rest =
      split_instr_loop-ended xs tail fuel (passed pre x semicolon s) plain free (omega arith) in
    rw
      (
        split_instr_loop,
        find_char,
        find_if-at (is_char semicolon) pre x semicolon s avoids refl,
        piece_lem pre x (semicolon ∷ s) (length pre + length x - length pre) whole,
        remove_spaces-trimmed x trimmed,
        ← length-passed pre x semicolon s,
        ← passed_all pre x semicolon s,
        rest,
      )
      refl

length-ended : (xs : List Str) (tail : Str) → length xs ≤ length (ended xs tail)
length-ended [] tail = omega arith
length-ended (x ∷ xs) tail =
    let rest = length-ended xs tail in
    omega (arith, rest, length-append x (semicolon ∷ ended xs tail))

-- `split_instr` gives back the instructions that a semicolon ends, where none has a semicolon in
-- it, or a space at its beginning or end; what comes after the last semicolon is dropped.
pub split_instr-ended :
    (xs : List Str) (tail : Str)
    → ArePlain semicolon xs
    → Avoids (is_char semicolon) tail
    → split_instr (ended xs tail) ≡ return xs
unfolding split_instr
split_instr-ended xs tail plain free =
    let le = length-ended xs tail in
    split_instr_loop-ended xs tail (length (ended xs tail) + 1) [] plain free (omega arith)
