-- ===== src/Tokens/Examples.antt =====
-- Instructions and parameters as the tasks use them.
use partsim.Prelude.{ℕ, ◌≡◌, refl, arith, inl, inr, [], ◌∷◌, ◌++◌}
use partsim.Prelude.Action.{return, throw, out_of_fuel}
use partsim.Tokens.{
  Str, remove_spaces, find_if, find_last_if, find_str, find_match, find_first_not_of,
  find_last_not_of, find_first_not_in, find_last_of, split_param, split_param_loop, get_token,
  get_param,
}
use partsim.Tokens.Split.{join, IsTrimmed}
use partsim.Tokens.Parameters.{split_param-diverges}
use partsim.Tokens.Ends.{AreParams}
use partsim.Tokens.Nested.{split_param-join}

abbrev comma : ℕ
comma = 44

abbrev open_par : ℕ
open_par = 40

abbrev close_par : ℕ
close_par = 41

-- "a", "f(1,2)" and "b c"
abbrev a : Str
a = 97 ∷ []

abbrev f_of : Str
f_of = 102 ∷ open_par ∷ 49 ∷ comma ∷ 50 ∷ close_par ∷ []

abbrev b_c : Str
b_c = 98 ∷ 32 ∷ 99 ∷ []

trims : remove_spaces (32 ∷ 32 ∷ b_c ++ 32 ∷ []) ≡ b_c
unfolding remove_spaces find_first_not_of find_last_not_of find_if find_last_if
trims = refl

token_of_f : get_token f_of (open_par ∷ []) ≡ return (102 ∷ [])
unfolding get_token find_str find_match find_first_not_in find_if
token_of_f = refl

param_of_f : get_param f_of (open_par ∷ []) (close_par ∷ []) ≡ return (49 ∷ comma ∷ 50 ∷ [])
unfolding get_param find_str find_match find_last_of find_last_if
param_of_f = refl

a-IsTrimmed : IsTrimmed a
a-IsTrimmed = ((λ e. ground arith), (λ e. ground arith))

b_c-IsTrimmed : IsTrimmed b_c
b_c-IsTrimmed = ((λ e. ground arith), (λ e. ground arith))

f_of-IsTrimmed : IsTrimmed f_of
f_of-IsTrimmed = ((λ e. ground arith), (λ e. ground arith))

split_param-join_example :
    split_param (join (comma ∷ []) a (f_of ∷ b_c ∷ [])) (comma ∷ []) open_par close_par
    ≡ return (a ∷ f_of ∷ b_c ∷ [])
split_param-join_example =
    split_param-join comma open_par close_par a (f_of ∷ b_c ∷ []) (λ e. ground arith)
      (λ e. ground arith) params (omega arith)
  where
    params : AreParams comma open_par close_par (a ∷ f_of ∷ b_c ∷ [])
    params = (
      ((λ e. absurd (cc)), a-IsTrimmed, inl (refl, tt)),
      (
        (
          (λ e. absurd (cc)),
          f_of-IsTrimmed,
          inr (102 ∷ [], 49 ∷ comma ∷ 50 ∷ [], refl, (refl, tt), (refl, (refl, (refl, tt)))),
        ),
        (((λ e. absurd (cc)), b_c-IsTrimmed, inl (refl, (refl, (refl, tt)))), tt),
      ),
    )

-- "f(1"
split_param-diverges_example :
    split_param_loop 1000 (102 ∷ open_par ∷ 49 ∷ []) (comma ∷ []) open_par close_par 0 0
    ≡ throw out_of_fuel
split_param-diverges_example =
    split_param-diverges (102 ∷ open_par ∷ 49 ∷ []) (comma ∷ []) open_par close_par 1 1000
      (refl, (refl, (refl, tt))) (omega arith) refl
