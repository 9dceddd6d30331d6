-- ===== src/Code/Examples.antt =====
-- The code "f(1);" with a blank behind it.
use partsim.Prelude.{ℕ, ◌≡◌, refl, arith, Option, some, List, [], ◌∷◌, inl, map}
use partsim.Prelude.Action.{return}
use partsim.Tokens.{Str}
use partsim.Tokens.RoundTrip.{ended}
use partsim.Code.{insert_code}
use partsim.Code.Printed.{Call, text, IsCall, insert_code-printed}

-- A factory that numbers an instruction by what it is given.
abbrev numbered : Str → List Str → Option ℕ
numbered token ((c ∷ _) ∷ _) = some c
numbered token _ = some 0

abbrev f_1 : Call
f_1 = record { token = 102 ∷ []; first = 49 ∷ []; others = [] }

f_1-IsCall : IsCall f_1
f_1-IsCall = record {
  named = (refl, (refl, tt));
  params = (((λ e. absurd (cc)), ((λ e. ground arith), (λ e. ground arith)), inl (refl, tt)), tt);
  one = (refl, (refl, (refl, (refl, tt))));
  fits = omega arith;
}

insert_code-printed_example :
    insert_code numbered (84 ∷ []) (ended (map text (f_1 ∷ [])) (32 ∷ [])) (5 ∷ [])
    ≡ (return tt, 5 ∷ 49 ∷ [])
insert_code-printed_example =
    insert_code-printed numbered (84 ∷ []) (f_1 ∷ []) (32 ∷ []) (49 ∷ []) (5 ∷ []) (f_1-IsCall, tt)
      (refl, tt) (refl, tt)
