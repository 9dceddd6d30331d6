-- ===== src/Resource/Single.antt =====
-- FCFSResManager: a release to the only waiting request, over kernels whose methods return where it
-- calls them.
use partsim.Prelude.{ℕ, ◌≡◌, refl, true, [], ◌∷◌, suc, ◌==◌, arith, ==_iff}
use partsim.Prelude.Int.{ℤ, pos, ◌+ℤ◌, ◌-ℤ◌, ◌≤ℤ◌, ◌<ℤ◌, ltb_ℤ, leb_ℤ}
use partsim.Prelude.Action.{return}
use partsim.Resource.{
  Request, Kernels, Manager, lock, unlock, grant, release_loop, release, find_non_server_kernel,
  put_resource, put_blocked,
}

module _ {K : Type 0} (ks : Kernels K) (r : ℕ) (q : Request) where
  -- The request takes its units and leaves the queue, and the kernels are `k`.
  abbrev pub handed : Manager K → K → Manager K
  handed m k = record (put_resource r (lock q.task q.nr (m.resources r)) (put_blocked r [] m)) {
    kernels = k;
  }

  module _ (m : Manager K) (k k' : K) (wakes : ks.activate q.task m.kernels ≡ (return tt, k))
      (asks : ks.dispatch (find_non_server_kernel (ks.get_kernel q.task)) k ≡ (return tt, k')) where
    grant-handed : grant ks r q [] m ≡ (return tt, handed m k')
    unfolding grant
    grant-handed = rw (wakes, asks) refl

    loop_end :
        (fuel : ℕ) (a : ℤ) → release_loop ks (suc fuel) r a (handed m k') ≡ (return tt, handed m k')
    unfolding release_loop
    loop_end fuel a =
        let same : (r == r) ≡ true = ground (arith, ==_iff r r) in rw (same, release_loop) refl

    loop_one :
        (fuel : ℕ) (a : ℤ)
        → m.blocked r ≡ q ∷ []
        → pos 0 <ℤ a
        → q.nr ≤ℤ a
        → release_loop ks (suc (suc fuel)) r a m ≡ (return tt, handed m k')
    unfolding release_loop
    loop_one fuel a alone some fits =
        let positive : ltb_ℤ (pos 0) a ≡ true = ground arith in
        let enough : leb_ℤ q.nr a ≡ true = ground arith in
        rw (alone, positive, enough, release_loop)
          (rw (grant-handed, loop_end fuel (a -ℤ q.nr)) refl)

  -- The units that came back.
  abbrev pub returned : ℤ → Manager K → Manager K
  returned n m = put_resource r (unlock n (m.resources r)) m

  pub release_one :
      (t : ℕ) (n : ℤ) (m : Manager K) (k k' : K)
      → m.blocked r ≡ q ∷ []
      → pos 0 <ℤ (m.resources r).available +ℤ n
      → q.nr ≤ℤ (m.resources r).available +ℤ n
      → ks.activate q.task m.kernels ≡ (return tt, k)
      → ks.dispatch (find_non_server_kernel (ks.get_kernel q.task)) k ≡ (return tt, k')
      → release ks t r n m ≡ (return tt, handed (returned n m) k')
  unfolding release unlock
  release_one t n m k k' alone some fits wakes asks =
      let same : (r == r) ≡ true = ground (arith, ==_iff r r) in
      let here : ((returned n m).resources r).available ≡ (m.resources r).available +ℤ n =
        rw same refl in
      let loop =
        loop_one (returned n m) k k' wakes asks 1 ((returned n m).resources r).available alone
          (rw here some) (rw here fits) in
      rw alone loop
