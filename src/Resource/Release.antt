-- ===== src/Resource/Release.antt =====
-- FCFSResManager: a release serves the waiting requests first come, first served.
use partsim.Prelude.{
  ℕ, zero, suc, ◌+◌, ◌≤◌, ◌≡◌, ◌≢◌, refl, sym, ◌∙◌, ◌⊎◌, inl, inr, true, false, List, [], ◌∷◌,
  arith, Bool-cases, length, ==_iff,
}
use partsim.Prelude.Int.{ℤ, pos, ◌+ℤ◌, ◌-ℤ◌, ◌≤ℤ◌, ◌<ℤ◌, ltb_ℤ, leb_ℤ, int_laws}
use partsim.Prelude.Action.{Outcome, return}
use partsim.Resource.{
  Request, Kernels, Manager, lock, unlock, grant, release_loop, release, find_non_server_kernel,
  put_resource, put_blocked,
}
use partsim.Resource.Serve.{Served, serve, IsFair, serve-IsFair}

-- Kernels whose methods return.
pub record Answers {K : Type 0} (k : Kernels K) : Type 0 where
  pub suspends : (t : ℕ) (s : K) → (k.suspend t s).0 ≡ return tt
  pub activates : (t : ℕ) (s : K) → (k.activate t s).0 ≡ return tt
  pub dispatches : (j : ℕ) (s : K) → (k.dispatch j s).0 ≡ return tt

module _ {K : Type 0} (k : Kernels K) where
  -- The tasks of the granted requests are activated in order, each followed by the dispatch of the
  -- kernel at the root of its own.
  abbrev pub wake : List Request → K → K
  wake [] s = s
  wake (q ∷ qs) s =
      wake qs (k.dispatch (find_non_server_kernel (k.get_kernel q.task)) (k.activate q.task s).1).1

  -- A release of `r` from `m` that served what `s` says.
  pub record Released (r : ℕ) (m : Manager K) (s : Served) (result : Outcome (Unit {0}) × Manager K)
      : Type 0 where
    pub returned : result.0 ≡ return tt
    pub now_blocked : result.1.blocked r ≡ s.waiting
    pub now_available : (result.1.resources r).available ≡ s.left
    pub woken : result.1.kernels ≡ wake s.granted m.kernels
    pub other_blocked : (j : ℕ) → j ≢ r → result.1.blocked j ≡ m.blocked j
    pub other_resources : (j : ℕ) → j ≢ r → result.1.resources j ≡ m.resources j

  module _ (answers : Answers k) (r : ℕ) where
    -- What `grant` leaves.
    abbrev granted : Request → List Request → Manager K → Manager K
    granted q rest m =
        let m' = put_resource r (lock q.task q.nr (m.resources r)) (put_blocked r rest m) in
        record m' { kernels = wake (q ∷ []) m.kernels }

    grant_lem :
        (q : Request) (rest : List Request) (m : Manager K)
        → grant k r q rest m ≡ (return tt, granted q rest m)
    unfolding grant
    grant_lem q rest m = rw (answers.activates q.task m.kernels) (λ i. (
      answers.dispatches (find_non_server_kernel (k.get_kernel q.task))
          (k.activate q.task m.kernels).1 i,
      granted q rest m,
    ))

    nothing_served :
        (m : Manager K) (queue : List Request) (available : ℤ)
        → m.blocked r ≡ queue
        → available ≡ (m.resources r).available
        → Released r m (record { granted = []; waiting = queue; left = available }) (return tt, m)
    nothing_served m queue available b a = record {
      returned = refl;
      now_blocked = b;
      now_available = sym a;
      woken = refl;
      other_blocked = λ j n. refl;
      other_resources = λ j n. refl;
    }

    -- With nothing left the loop ends at once.
    loop_ends :
        (fuel : ℕ) (m : Manager K) (available : ℤ)
        → available ≤ℤ pos 0
        → release_loop k (suc fuel) r available m ≡ (return tt, m)
    unfolding release_loop
    loop_ends fuel m available h = elim (List-cases (m.blocked r)) [
      | inl e ↦ rw (e, release_loop)
      | inr (q, rest, e) ↦
          let none_left : ltb_ℤ (pos 0) available ≡ false = ground arith in
          rw (e, release_loop) (rw none_left)
    ]
      where
        List-cases :
            (l : List Request) → (l ≡ []) ⊎ ((q : Request) × (rest : List Request) × (l ≡ q ∷ rest))
        List-cases [] = inl refl
        List-cases (q ∷ rest) = inr (q, rest, refl)

    module _ (fuel : ℕ) (q : Request) (rest : List Request) (available : ℤ) (m : Manager K)
        (b : m.blocked r ≡ q ∷ rest) where
      loop_none_left :
          ltb_ℤ (pos 0) available ≡ false → release_loop k (suc fuel) r available m ≡ (return tt, m)
      unfolding release_loop
      loop_none_left e = rw (b, release_loop) (rw e)

      loop_too_much :
          ltb_ℤ (pos 0) available ≡ true
          → leb_ℤ q.nr available ≡ false
          → release_loop k (suc fuel) r available m ≡ release_loop k fuel r (available -ℤ q.nr) m
      unfolding release_loop
      loop_too_much e f = rw (b, release_loop) (rw (e, f))

      loop_fits :
          ltb_ℤ (pos 0) available ≡ true
          → leb_ℤ q.nr available ≡ true
          → release_loop k (suc fuel) r available m
            ≡ release_loop k fuel r (available -ℤ q.nr) (granted q rest m)
      unfolding release_loop
      loop_fits e f = rw (b, release_loop) (rw (e, f, grant_lem q rest m))

    -- What a round that grants adds to what the rest of the loop does.
    granted_more :
        (q : Request) (rest : List Request) (available : ℤ) (m : Manager K)
        (result : Outcome (Unit {0}) × Manager K)
        → Released r (granted q rest m) (serve (available -ℤ q.nr) rest) result
        → Released r m
            (record {
              granted = q ∷ (serve (available -ℤ q.nr) rest).granted;
              waiting = (serve (available -ℤ q.nr) rest).waiting;
              left = (serve (available -ℤ q.nr) rest).left;
            })
            result
    granted_more q rest available m result x = record {
      returned = x.returned;
      now_blocked = x.now_blocked;
      now_available = x.now_available;
      woken = x.woken;
      other_blocked = λ j n. x.other_blocked j n ∙ ground (arith, ==_iff j r);
      other_resources = λ j n. x.other_resources j n ∙ ground (arith, ==_iff j r);
    }

    loop_lem :
        (fuel : ℕ) (queue : List Request) (available : ℤ) (m : Manager K)
        → m.blocked r ≡ queue
        → available ≡ (m.resources r).available
        → length queue + 2 ≤ fuel
        → Released r m (serve available queue) (release_loop k fuel r available m)
    unfolding serve
    loop_lem zero queue available m b a h = absurd (omega arith)
    loop_lem (suc fuel) [] available m b a h =
        unfold release_loop in rw (b, release_loop) (nothing_served m [] available b a)
    loop_lem (suc zero) (q ∷ rest) available m b a h = absurd (omega arith)
    loop_lem (suc (suc fuel)) (q ∷ rest) available m b a h =
        elim (Bool-cases (ltb_ℤ (pos 0) available)) [
          | inr none_left ↦
              rw (none_left, loop_none_left (suc fuel) q rest available m b none_left)
                (nothing_served m (q ∷ rest) available b a)
          | inl some_left ↦ elim (Bool-cases (leb_ℤ q.nr available)) [
            | inr too_much ↦
                rw
                  (
                    some_left,
                    too_much,
                    loop_too_much (suc fuel) q rest available m b some_left too_much,
                    loop_ends fuel m (available -ℤ q.nr) (below too_much),
                  )
                  (nothing_served m (q ∷ rest) available b a)
            | inl fits ↦
                rw (some_left, fits, loop_fits (suc fuel) q rest available m b some_left fits)
                  (granted_more q rest available m _ (
                    loop_lem (suc fuel) rest (available -ℤ q.nr) (granted q rest m) (ground arith)
                      (left_over q rest m a) (omega arith)))
          ]
        ]
      where
        below : leb_ℤ q.nr available ≡ false → available -ℤ q.nr ≤ℤ pos 0
        below e = let lt : available <ℤ q.nr = ground arith in omega int_laws

        left_over :
            (q : Request) (rest : List Request) (m : Manager K)
            → available ≡ (m.resources r).available
            → available -ℤ q.nr ≡ ((granted q rest m).resources r).available
        left_over q rest m e = unfold lock in ground arith

module _ {K : Type 0} (k : Kernels K) (r : ℕ) (nr : ℤ) (m : Manager K) where
  abbrev back : Manager K
  back = put_resource r (unlock nr (m.resources r)) m

  back_available : (back.resources r).available ≡ (m.resources r).available +ℤ nr
  unfolding unlock
  back_available = ground arith

  from_back :
      (s : Served) (result : Outcome (Unit {0}) × Manager K)
      → Released k r back s result
      → Released k r m s result
  from_back s result x = record {
    returned = x.returned;
    now_blocked = x.now_blocked;
    now_available = x.now_available;
    woken = x.woken;
    other_blocked = x.other_blocked;
    other_resources = λ j n. x.other_resources j n ∙ ground (arith, ==_iff j r);
  }

-- `FCFSResManager::release`, over kernels whose methods return: it returns; the waiting requests
-- are served as `serve` says from what is available after the units came back, so in the order of
-- their arrival, none overtaken, until the next one cannot be served, with every unit accounted
-- for; the tasks served are activated in that order; and no other resource or queue changes.
pub release-IsFair :
    {K : Type 0} (k : Kernels K) (answers : Answers k) (t r : ℕ) (nr : ℤ) (m : Manager K)
    → Released k r m (serve ((m.resources r).available +ℤ nr) (m.blocked r)) (release k t r nr m)
      × IsFair
          ((m.resources r).available +ℤ nr)
          (m.blocked r)
          (serve ((m.resources r).available +ℤ nr) (m.blocked r))
unfolding release
release-IsFair k answers t r nr m =
    let served = from_back k r nr m _ _ (
      loop_lem k answers r (length (m.blocked r) + 2) (m.blocked r)
        ((back k r nr m).resources r).available (back k r nr m) refl refl (omega arith)) in
    (
      rw (← back_available k r nr m) served,
      serve-IsFair ((m.resources r).available +ℤ nr) (m.blocked r),
    )
