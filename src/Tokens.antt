-- ===== src/Tokens.antt =====
-- libmetasim/strtoken.cpp: the splitting of instructions and parameters. A string is the list of
-- its character codes and a position a number; `none` is `npos`. `parse_double`, which reads a
-- floating-point number, and the message of `ParseExc` are left out.
pub mod Text
pub mod Split
pub mod RoundTrip
pub mod Parameters
pub mod Ends
pub mod Nested
pub mod Examples
unfoldable pub use Text.*
use partsim.Prelude.{
  ℕ, zero, suc, ◌+◌, ◌-◌, ◌%◌, ◌^◌, ◌≡◌, Bool, true, false, Option, none, some, List, [], ◌∷◌, ◌++◌,
  ◌==◌, ltb, leb, if◌then◌else◌, length, take, drop, get_or,
}
use partsim.Prelude.Action.{Outcome, return, throw, out_of_range, out_of_fuel}

-- `temp.erase(0, temp.find_first_not_of(' '))`
abbrev pub erase_front : Option ℕ → Str → Str
erase_front none s = []
erase_front (some i) s = drop i s

-- `temp.erase(pos + 1, temp.size() - pos - 1)`, where `npos + 1` is 0.
abbrev pub erase_back : Option ℕ → Str → Str
erase_back none s = []
erase_back (some i) s = take (i + 1) s

unfoldable pub remove_spaces : Str → Str
unfolding find_first_not_of find_last_not_of
remove_spaces s =
    let temp = erase_front (find_first_not_of space s) s in
    erase_back (find_last_not_of space temp) temp

-- A piece in front of what the rest of a loop gives.
abbrev pub push : Str → Outcome (List Str) → Outcome (List Str)
push t (return ts) = return (t ∷ ts)
push t (throw e) = throw e

-- The loop of `split` from the position `old_pos` on.
unfoldable pub split_loop : (fuel : ℕ) → Str → Str → (old_pos : ℕ) → Outcome (List Str)
unfolding remove_spaces find_str
split_loop zero code sep old_pos = throw out_of_fuel
split_loop (suc fuel) code sep old_pos = elim (find_str sep code old_pos) [
  | none ↦ return (remove_spaces (piece code old_pos (length code - old_pos)) ∷ [])
  | some pos ↦
      push (remove_spaces (piece code old_pos (pos - old_pos)))
        (split_loop fuel code sep (pos + length sep))
]

-- Each round but the last passes a separator.
unfoldable pub split : Str → Str → Outcome (List Str)
unfolding split_loop
split code sep = split_loop (length code + 1) code sep 0

unfoldable pub split_instr_loop : (fuel : ℕ) → Str → (old_pos : ℕ) → Outcome (List Str)
unfolding remove_spaces find_char
split_instr_loop zero code old_pos = throw out_of_fuel
split_instr_loop (suc fuel) code old_pos = elim (find_char semicolon code old_pos) [
  | none ↦ return []
  | some pos ↦
      push (remove_spaces (piece code old_pos (pos - old_pos)))
        (split_instr_loop fuel code (pos + 1))
]

-- What comes after the last semicolon is dropped.
unfoldable pub split_instr : Str → Outcome (List Str)
unfolding split_instr_loop
split_instr code = split_instr_loop (length code + 1) code 0

-- `instr.substr(pos1, pos - pos1)`, where either position may be `npos`.
unfoldable pub get_token : Str → Str → Outcome Str
unfolding find_str find_first_not_in
get_token instr open_par =
    substr instr (position (find_first_not_in (space ∷ newline ∷ []) instr)) (
      minus (position (find_str open_par instr 0))
        (position (find_first_not_in (space ∷ newline ∷ []) instr)))

unfoldable pub get_param : Str → Str → Str → Outcome Str
unfolding find_str find_last_of
get_param instr open_par close_par = elim (find_str open_par instr 0) [
  | none ↦ return []
  | some pos ↦ substr instr (pos + 1) (minus (position (find_last_of close_par instr)) (pos + 1))
]

-- `remove_spaces(p.substr(...))` and `push_back`.
unfoldable pub push_trimmed : Outcome Str → Outcome (List Str) → Outcome (List Str)
unfolding remove_spaces
push_trimmed (return t) rest = push (remove_spaces t) rest
push_trimmed (throw e) rest = throw e

unfoldable pub keep_nonempty : Outcome Str → Outcome (List Str)
unfolding remove_spaces
keep_nonempty (throw e) = throw e
keep_nonempty (return s) = elim (remove_spaces s) [ [] ↦ return [] | c ∷ t ↦ return ((c ∷ t) ∷ []) ]

-- `if (p[pos] == open_par)`: the position after the closing one; `npos + 1` is 0.
abbrev pub after_par : Str → (close_par i : ℕ) → Option ℕ
after_par p close_par i = elim (find_char close_par p i) [
  | none ↦ some 0
  | some j ↦ if j == length p then none else some (j + 1)
]

-- The first part of a round of `split_param`: where the next parameter ends.
unfoldable pub next_end : Str → Str → (open_par close_par pos : ℕ) → Option ℕ
unfolding find_first_of find_char
next_end p sep open_par close_par pos = elim (find_first_of (sep ++ open_par ∷ []) p pos) [
  | none ↦ none
  | some i ↦ if get_or p i 0 == open_par then after_par p close_par i else some i
]

-- After the loop: a last parameter that is not empty.
abbrev pub last_param : Str → (pos old_pos : ℕ) → Outcome (List Str)
last_param p pos old_pos =
    if pos == old_pos
    then return []
    else keep_nonempty (substr p old_pos (minus (length p) old_pos))

unfoldable pub split_param_loop :
    (fuel : ℕ) → Str → Str → (open_par close_par pos old_pos : ℕ) → Outcome (List Str)
unfolding remove_spaces next_end
split_param_loop zero p sep open_par close_par pos old_pos = throw out_of_fuel
split_param_loop (suc fuel) p sep open_par close_par pos old_pos =
    if ltb (length p) pos
    then last_param p pos old_pos
    else elim (next_end p sep open_par close_par pos) [
      | none ↦ last_param p npos old_pos
      | some i ↦
          push_trimmed (substr p old_pos (minus i old_pos))
            (split_param_loop fuel p sep open_par close_par (i + 1) (i + 1))
    ]

-- With parentheses in pairs, each round passes a character.
unfoldable pub split_param : Str → Str → (open_par close_par : ℕ) → Outcome (List Str)
unfolding split_param_loop
split_param p sep open_par close_par = split_param_loop (length p + 2) p sep open_par close_par 0 0
