-- ===== src/Code.antt =====
-- librtsim/task.cpp: `insertCode`, which makes the instructions of a task from text. The state is
-- `instrQueue`, an instruction is a number, and `genericFactory<Instr>::create` an argument that
-- answers `none` for the null pointer. Printing is left out.
pub mod Calls
pub mod Printed
pub mod Examples
use partsim.Prelude.{ℕ, Option, none, some, List, [], ◌∷◌, ◌++◌}
use partsim.Prelude.Action.{
  Action, Outcome, return, throw, modify, pure, raise, ◌>>=◌, ◌>>◌, parse_error,
}
use partsim.Tokens.{Str, split_instr, get_token, get_param, split_param}

abbrev pub comma : ℕ
comma = 44

abbrev pub open_par : ℕ
open_par = 40

abbrev pub close_par : ℕ
close_par = 41

-- A function that does not touch the task.
abbrev pub lift : {A : Type 0} → Outcome A → Action (List ℕ) A
lift o instr_queue = (o, instr_queue)

abbrev pub add_instr : ℕ → Action (List ℕ) (Unit {0})
add_instr i = modify (λ instr_queue. instr_queue ++ i ∷ [])

module _ (create : Str → List Str → Option ℕ) (name : Str) where
  -- `create` and `addInstr`, or the exception.
  abbrev pub add_created : Option ℕ → Action (List ℕ) (Unit {0})
  add_created none = raise parse_error
  add_created (some i) = add_instr i

  -- One turn of the loop.
  unfoldable pub insert_instr : Str → Action (List ℕ) (Unit {0})
  insert_instr instr = do
    token ← lift (get_token instr (open_par ∷ []))
    param ← lift (get_param instr (open_par ∷ []) (close_par ∷ []))
    par_list ← lift (split_param param (comma ∷ []) open_par close_par)
    add_created (create token (par_list ++ name ∷ []))

  abbrev pub insert_instrs : List Str → Action (List ℕ) (Unit {0})
  insert_instrs [] = pure tt
  insert_instrs (instr ∷ rest) = insert_instr instr >> insert_instrs rest

  unfoldable pub insert_code : Str → Action (List ℕ) (Unit {0})
  insert_code code = lift (split_instr code) >>= insert_instrs
