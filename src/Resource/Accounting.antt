-- ===== src/Resource/Accounting.antt =====
-- FCFSResManager::request: who gets the units, and who waits.
use partsim.Prelude.{
  ℕ, ◌≡◌, ◌≢◌, refl, sym, ◌⊎◌, inl, inr, Bool, true, false, ◌||◌, List, [], ◌∷◌, ◌++◌, arith,
  Bool-cases, length, ==_iff, ltb, some, subst,
}
use partsim.Prelude.Int.{ℤ, ◌-ℤ◌, ◌≤ℤ◌, ◌<ℤ◌, ltb_ℤ}
use partsim.Prelude.Action.{Outcome, return, throw}
use partsim.Resource.{Request, Kernels, Manager, lock, request, release, put_resource, put_blocked}
use partsim.Resource.Serve.{Stuck}
use partsim.Resource.Release.{Answers, release-IsFair}

-- Nobody waits for units that could be given: the first waiting request of `r` cannot be served.
abbrev pub IsBusy : {K : Type 0} → ℕ → Manager K → Type 0
IsBusy r m = Stuck (m.resources r).available (m.blocked r)

module _ {K : Type 0} (k : Kernels K) (t r : ℕ) (nr : ℤ) (m : Manager K) where
  abbrev pub RequestOutcome : Outcome Bool × Manager K → Type 0
  RequestOutcome (throw x, m') = ⊥
  RequestOutcome (return true, m') =
      (m.blocked r ≡ [])
      × (nr ≤ℤ (m.resources r).available)
      × ((m'.resources r).available ≡ (m.resources r).available -ℤ nr)
      × ((m'.resources r).owner ≡ some t)
      × (m'.blocked r ≡ [])
      × (m'.kernels ≡ m.kernels)
      × ((j : ℕ) → j ≢ r → m'.resources j ≡ m.resources j)
  RequestOutcome (return false, m') =
      ((m.blocked r ≢ []) ⊎ ((m.resources r).available <ℤ nr))
      × (m'.blocked r ≡ m.blocked r ++ record { task = t; nr = nr } ∷ [])
      × (m'.resources ≡ m.resources)
      × (m'.kernels ≡ (k.suspend t m.kernels).1)

  abbrev waits : Bool
  waits = ltb 0 (length (m.blocked r)) || ltb_ℤ (m.resources r).available nr

  abbrev parked : Manager K
  parked =
      put_blocked r (m.blocked r ++ record { task = t; nr = nr } ∷ [])
        (record m { kernels = (k.suspend t m.kernels).1 })

  request-waits : Answers k → waits ≡ true → request k t r nr m ≡ (return false, parked)
  unfolding request
  request-waits answers w = rw w (rw (answers.suspends t m.kernels))

  request_locks :
      waits ≡ false
      → request k t r nr m ≡ (return true, put_resource r (lock t nr (m.resources r)) m)
  unfolding request
  request_locks w = rw w

nonempty : (l : List Request) → ltb 0 (length l) ≡ true → l ≢ []
nonempty l h e = absurd (ground arith)

none_waiting : (l : List Request) → ltb 0 (length l) ≡ false → l ≡ []
none_waiting [] h = refl
none_waiting (q ∷ qs) h = absurd (ground arith)

request_cause :
    {K : Type 0} (k : Kernels K) (t r : ℕ) (nr : ℤ) (m : Manager K)
    → waits k t r nr m ≡ true
    → (m.blocked r ≢ []) ⊎ ((m.resources r).available <ℤ nr)
request_cause k t r nr m w = elim (Bool-cases (ltb 0 (length (m.blocked r)))) [
  | inl some_wait ↦ inl (nonempty (m.blocked r) some_wait)
  | inr nobody ↦ inr (ground arith)
]

-- `FCFSResManager::request`, over kernels whose methods return: it never throws. It answers `true`
-- exactly if nobody waits and the units are there, and then they are taken, the task owns the
-- resource and no kernel is called; otherwise the task is suspended and waits behind all others,
-- and no resource changes.
pub request-outcome :
    {K : Type 0} (k : Kernels K) (answers : Answers k) (t r : ℕ) (nr : ℤ) (m : Manager K)
    → RequestOutcome k t r nr m (request k t r nr m)
request-outcome k answers t r nr m = elim (Bool-cases (waits k t r nr m)) [
  | inl w ↦
      rw (request-waits k t r nr m answers w) (request_cause k t r nr m w, ground arith, refl, refl)
  | inr w ↦
      let nobody = none_waiting (m.blocked r) (ground arith) in
      rw (request_locks k t r nr m w) (
        nobody,
        ground arith,
        unfold lock in ground arith,
        unfold lock in ground arith,
        nobody,
        refl,
        λ j n. ground (arith, ==_iff j r),
      )
]

Stuck-append :
    (left : ℤ) (l : List Request) (q : Request)
    → Stuck left l
    → (l ≢ []) ⊎ (left <ℤ q.nr)
    → Stuck left (l ++ q ∷ [])
Stuck-append left [] q s (inl ne) = absurd (ne refl)
Stuck-append left [] q s (inr lt) = inr lt
Stuck-append left (x ∷ xs) q s c = s

-- A request never leaves units idle that the first waiting request could have: if that held before,
-- it holds after, whatever the answer is.
pub request-IsBusy :
    {K : Type 0} (k : Kernels K) (answers : Answers k) (t r : ℕ) (nr : ℤ) (m : Manager K)
    → IsBusy r m
    → IsBusy r (request k t r nr m).1
request-IsBusy k answers t r nr m busy = elim (Bool-cases (waits k t r nr m)) [
  | inl w ↦ rw (request-waits k t r nr m answers w) (
      subst (Stuck (m.resources r).available) (sym joined) (
        Stuck-append (m.resources r).available (m.blocked r) (record { task = t; nr = nr }) busy
          (request_cause k t r nr m w)))
  | inr w ↦ rw (request_locks k t r nr m w) (
      subst (Stuck ((put_resource r (lock t nr (m.resources r)) m).resources r).available)
        (sym (none_waiting (m.blocked r) (ground arith))) tt)
]
  where
    joined : (parked k t r nr m).blocked r ≡ m.blocked r ++ record { task = t; nr = nr } ∷ []
    joined = ground arith

-- After a release no units are idle that the first waiting request could have.
pub release-IsBusy :
    {K : Type 0} (k : Kernels K) (answers : Answers k) (t r : ℕ) (nr : ℤ) (m : Manager K)
    → IsBusy r (release k t r nr m).1
release-IsBusy k answers t r nr m =
    let (done, fair) = release-IsFair k answers t r nr m in
    rw (done.now_blocked, done.now_available) fair.maximal
