-- ===== src/Code/Printed.antt =====
-- Instructions that are written out are the ones that the task gets.
use partsim.Prelude.{
  ℕ, ◌≡◌, ◌<◌, refl, ap, ◌∙◌, Option, some, List, [], ◌∷◌, ◌++◌, arith, length, map,
}
use partsim.Prelude.Action.{return}
use partsim.Tokens.{Str, semicolon, npos}
use partsim.Tokens.Split.{Avoids, IsTrimmed, ArePlain, is_char, join, last}
use partsim.Tokens.RoundTrip.{ended, split_instr-ended}
use partsim.Tokens.Ends.{AreParams}
use partsim.Tokens.Nested.{split_param-join}
use partsim.Code.{comma, open_par, close_par, insert_instr, insert_instrs, insert_code}
use partsim.Code.Calls.{written, IsToken, get_token-written, get_param-written, length-written}

-- An instruction with at least one parameter, such as `fixed(3)`.
pub record Call : Type 0 where
  pub token : Str
  pub first : Str
  pub others : List Str

abbrev pub body : Call → Str
body c = join (comma ∷ []) c.first c.others

abbrev pub text : Call → Str
text c = written c.token (body c)

pub record IsCall (c : Call) : Type 0 where
  pub named : IsToken c.token
  pub params : AreParams comma open_par close_par (c.first ∷ c.others)
  pub one : Avoids (is_char semicolon) (text c)
  pub fits : length (text c) < npos

abbrev pub AreCalls : List Call → Type 0
AreCalls [] = Unit
AreCalls (c ∷ cs) = IsCall c × AreCalls cs

last-append : (c : ℕ) (s : Str) (d : ℕ) → last c (s ++ d ∷ []) ≡ d
last-append c [] d = refl
last-append c (e ∷ s) d = last-append e s d

last-nested : (c : ℕ) (s : Str) (d : ℕ) (t : Str) (e : ℕ) → last c (s ++ d ∷ (t ++ e ∷ [])) ≡ e
last-nested c [] d t e = last-append d t e
last-nested c (x ∷ s) d t e = last-nested x s d t e

written-IsTrimmed : (token body : Str) → IsToken token → IsTrimmed (written token body)
written-IsTrimmed [] body h = absurd h
written-IsTrimmed (c ∷ s) body (e, _) =
    ((λ x. ground arith), λ x. let ends = last-nested c s open_par body close_par in ground arith)

AreCalls-ArePlain : (cs : List Call) → AreCalls cs → ArePlain semicolon (map text cs)
AreCalls-ArePlain [] h = tt
AreCalls-ArePlain (c ∷ cs) (h, rest) =
    ((written-IsTrimmed c.token (body c) h.named, h.one), AreCalls-ArePlain cs rest)

module _ (create : Str → List Str → Option ℕ) (name : Str) where
  -- What the factory makes of the instructions.
  abbrev pub Creates : List Call → List ℕ → Type 0
  Creates [] [] = Unit
  Creates (c ∷ cs) (i ∷ is) =
      (create c.token ((c.first ∷ c.others) ++ name ∷ []) ≡ some i) × Creates cs is
  Creates _ _ = ⊥

  insert_instr_lem :
      (c : Call) (i : ℕ) (q : List ℕ)
      → IsCall c
      → create c.token ((c.first ∷ c.others) ++ name ∷ []) ≡ some i
      → insert_instr create name (text c) q ≡ (return tt, q ++ i ∷ [])
  unfolding insert_instr
  insert_instr_lem c i q h made =
      let fits = h.fits in
      let len = length-written c.token (body c) in
      rw
        (
          get_token-written c.token (body c) h.named (omega arith),
          get_param-written c.token (body c) h.named (omega arith),
          split_param-join comma open_par close_par c.first c.others (λ e. ground arith)
              (λ e. ground arith) h.params (omega arith),
          made,
        )
        refl

  append_one : (q : List ℕ) (i : ℕ) (is : List ℕ) → (q ++ i ∷ []) ++ is ≡ q ++ i ∷ is
  append_one [] i is = refl
  append_one (x ∷ q) i is = ap (λ (l : List ℕ). x ∷ l) (append_one q i is)

  append_none : (q : List ℕ) → q ++ [] ≡ q
  append_none [] = refl
  append_none (x ∷ q) = ap (λ (l : List ℕ). x ∷ l) (append_none q)

  insert_instrs_lem :
      (cs : List Call) (is q : List ℕ)
      → AreCalls cs
      → Creates cs is
      → insert_instrs create name (map text cs) q ≡ (return tt, q ++ is)
  insert_instrs_lem [] [] q h made = rw (append_none q) refl
  insert_instrs_lem [] (i ∷ is) q h made = elim made [ ]
  insert_instrs_lem (c ∷ cs) [] q h made = elim made [ ]
  insert_instrs_lem (c ∷ cs) (i ∷ is) q (h, rest) (this, made) =
      rw (insert_instr_lem c i q h this) (
        insert_instrs_lem cs is (q ++ i ∷ []) rest made
        ∙ ap (λ (l : List ℕ). (return tt, l)) (append_one q i is))

-- `insertCode` of instructions that are written `token(first,others);`, and of anything without a
-- semicolon behind them: a token begins with no blank and has no parenthesis, the parameters are
-- those of `split_param-join`, no instruction has a semicolon in it or is as long as `npos`. If the
-- factory makes an instruction of each token and its parameters with the task's name behind them,
-- then these join the queue in order, and nothing else.
pub insert_code-printed :
    (create : Str → List Str → Option ℕ) (name : Str) (cs : List Call) (tail : Str) (is q : List ℕ)
    → AreCalls cs
    → Avoids (is_char semicolon) tail
    → Creates create name cs is
    → insert_code create name (ended (map text cs) tail) q ≡ (return tt, q ++ is)
unfolding insert_code
insert_code-printed create name cs tail is q h free made =
    rw (split_instr-ended (map text cs) tail (AreCalls-ArePlain cs h) free)
      (insert_instrs_lem create name cs is q h made)
