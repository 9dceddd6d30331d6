-- ===== src/Prelude/Action.antt =====
-- C++ methods that change an object and may throw: the object outlives the exception, so an
-- action returns the outcome beside the state that it leaves.
use partsim.Prelude.{◌≡◌, refl, ap, subst, Bool, true, false}

-- The exceptions that the modelled classes throw, by the class that throws them.
pub data Exc : Type 0 where
  event_already_posted event_in_the_past event_already_in_queue event_time_when_queued : Exc
  no_more_events_in_queue : Exc
  task_not_found element_already_present cannot_change_priority : Exc
  on_end_of_non_executing_task not_enough_tasks_to_deschedule dispatch_null : Exc
  resource_not_found resource_manager_not_set : Exc
  task_already_active task_not_active task_not_executing task_already_executing : Exc
  kernel_already_set task_cannot_block empty_task no_cpu kernel_not_found : Exc
  assertion_failed null_dereference out_of_range parse_error out_of_fuel : Exc

pub data Outcome (A : Type 0) : Type 0 where
  return : A → Outcome A
  throw : Exc → Outcome A

abbrev pub Action : Type 0 → Type 0 → Type 0
Action S A = S → Outcome A × S

module _ {S A : Type 0} where
  abbrev pub pure : A → Action S A
  pure a s = (return a, s)

  abbrev pub raise : Exc → Action S A
  raise e s = (throw e, s)

abbrev pub get : {S : Type 0} → Action S S
get s = (return s, s)

abbrev pub modify : {S : Type 0} → (S → S) → Action S (Unit {0})
modify f s = (return tt, f s)

-- `assert` and `if (bad) throw e;`
abbrev pub unless : {S : Type 0} → Bool → Exc → Action S (Unit {0})
unless true e = pure tt
unless false e = raise e

module _ {S A B : Type 0} where
  abbrev pub then_on : Outcome A → (A → Action S B) → Action S B
  then_on (return a) f s = f a s
  then_on (throw e) f s = (throw e, s)

  infixl 5 ◌>>=◌ ◌>>◌
  abbrev pub ◌>>=◌ : Action S A → (A → Action S B) → Action S B
  m >>= f = λ s. then_on (m s).0 f (m s).1

  abbrev pub ◌>>◌ : Action S A → Action S B → Action S B
  m >> n = m >>= λ _. n

-- A method that is called on a part of an object's state.
module _ {S T A : Type 0} where
  abbrev pub on_part : (S → T) → (T → S → S) → Action T A → Action S A
  on_part part put m s = let (r, t) = m (part s) in (r, put t s)

-- What holds before and after a second action holds after both, also where the first one throws.
pub >>=_keeps :
    {S A B : Type 0} (P : S → Type 0) (m : Action S A) (f : A → Action S B) (s : S)
    → P (m s).1
    → ((a : A) → P (f a (m s).1).1)
    → P ((m >>= f) s).1
>>=_keeps {S} {A} {B} P m f s first next = go (m s).0
  where
    go : (r : Outcome A) → P (then_on r f (m s).1).1
    go (return a) = next a
    go (throw e) = first

-- What holds of the state that an action leaves, if it returns.
abbrev pub Leaves : {S A : Type 0} → (S → Type 0) → Outcome A × S → Type 0
Leaves P (return a, s) = P s
Leaves P (throw e, s) = Unit

pub Leaves-bind :
    {S A B : Type 0} (P : S → Type 0) (m : Action S A) (f : A → Action S B) (s : S)
    → ((a : A) → (m s).0 ≡ return a → Leaves P (f a (m s).1))
    → Leaves P ((m >>= f) s)
Leaves-bind {S} {A} {B} P m f s next = go (m s).0 refl
  where
    go : (r : Outcome A) → (m s).0 ≡ r → Leaves P (then_on r f (m s).1)
    go (return a) e = next a e
    go (throw x) e = tt

pub Leaves-return :
    {S A : Type 0} (P : S → Type 0) (r : Outcome A × S) {a : A} {s : S}
    → r ≡ (return a, s)
    → Leaves P r
    → P s
Leaves-return P r e h = subst (Leaves P) e h

pub Leaves-holds :
    {S A : Type 0} (P : S → Type 0) (r : Outcome A × S) {a : A}
    → r.0 ≡ return a
    → Leaves P r
    → P r.1
Leaves-holds P r e h = Leaves-return P r (ap (λ o. (o, r.1)) e) h

pub Leaves-intro :
    {S A : Type 0} (P : S → Type 0) (r : Outcome A × S)
    → ((a : A) → r.0 ≡ return a → P r.1)
    → Leaves P r
Leaves-intro P (return a, s) h = h a refl
Leaves-intro P (throw e, s) h = tt

pub Leaves-then :
    {S A B : Type 0} (Q P : S → Type 0) (m : Action S A) (f : A → Action S B) (s : S)
    → Leaves Q (m s)
    → ((a : A) (s' : S) → Q s' → Leaves P (f a s'))
    → Leaves P ((m >>= f) s)
Leaves-then Q P m f s h next =
    Leaves-bind P m f s (λ a e. next a (m s).1 (Leaves-holds Q (m s) e h))

pub Leaves-seq :
    {S B : Type 0} (P : S → Type 0) (m : Action S (Unit {0})) (f : Action S B) (s : S)
    → Leaves (λ s'. Leaves P (f s')) (m s)
    → Leaves P ((m >> f) s)
Leaves-seq P m f s h =
    Leaves-bind P m (λ _. f) s (λ a e. Leaves-holds (λ s'. Leaves P (f s')) (m s) e h)
