-- ===== src/MrtKernel/Placement.antt =====
-- The dispatches keep the maps consistent.
use partsim.Prelude.{
  ℕ, zero, suc, ◌+◌, ◌≡◌, inl, inr, true, false, List, [], ◌∷◌, arith, Bool-cases, Option-cases,
  length,
}
use partsim.Prelude.Action.{Outcome, pure, modify, ◌>>=◌, ◌>>◌, >>=_keeps}
use partsim.Tick.{Tick}
use partsim.Event.{post, drop}
use partsim.Scheduler.{get_task_n}
use partsim.MrtKernel.{
  MrtKernel, Machine, on_sim, where_dispatched, cancel_switch, next_free_proc, count_new,
  postpone_dispatch, dispatch_on, evict, place, dispatch,
}
use partsim.MrtKernel.Invariant.{
  IsWired, IsConsistent, post_others, moved, cancel_switch-IsConsistent,
}

module _ {A : Type 0} (env : Machine A) (wired : IsWired env) where
  pub drop_begin :
      (p : ℕ) (k : MrtKernel A)
      → IsConsistent env k
      → IsConsistent env (on_sim (drop (env.begin_evt p)) k).1
  unfolding drop
  drop_begin p k c =
      moved env wired k c (drop (env.begin_evt p) k.sim).1 k.sched k.rest
        (λ q h. let other = wired.apart p q in let before = c.ends q in ground arith)

  pub drop_end :
      (p : ℕ) (k : MrtKernel A)
      → IsConsistent env k
      → IsConsistent env (on_sim (drop (env.end_evt p)) k).1
  unfolding drop
  drop_end p k c =
      moved env wired k c (drop (env.end_evt p) k.sim).1 k.sched k.rest
        (λ q h. let before = c.ends q in ground arith)

  post_begin :
      (p : ℕ) (t : Tick) (k : MrtKernel A)
      → IsConsistent env k
      → IsConsistent env (on_sim (post (env.begin_evt p) t false) k).1
  post_begin p t k c =
      moved env wired k c (post (env.begin_evt p) t false k.sim).1 k.sched k.rest (λ q h.
        c.ends q
          (rw (post_others (env.begin_evt p) t false k.sim (env.end_evt q) (wired.apart p q)) at h))

  postpone_dispatch_lem :
      (p : ℕ) (k : MrtKernel A)
      → k.switching p ≡ true
      → IsConsistent env k
      → IsConsistent env (postpone_dispatch env p k k).1
  unfolding drop
  postpone_dispatch_lem p k s c =
      let t = (k.sim.events (env.end_evt p)).time in
      let posted = (on_sim (post (env.begin_evt p) t false) k).1 in
      let c1 = post_begin p t k c in
      >>=_keeps (IsConsistent env) (on_sim (post (env.begin_evt p) t false))
        (λ _. on_sim (drop (env.end_evt p)) >> modify (cancel_switch p)) k c1
        (λ _.
          cancel_switch-IsConsistent env wired (on_sim (drop (env.end_evt p)) posted).1
            (drop_end p posted c1) p s)

  pub dispatch_on-IsConsistent :
      (p : ℕ) (k : MrtKernel A) → IsConsistent env k → IsConsistent env (dispatch_on env p k).1
  unfolding dispatch_on drop
  dispatch_on-IsConsistent p k c =
      let k1 = (on_sim (drop (env.begin_evt p)) k).1 in
      let c1 = drop_begin p k c in
      elim (Bool-cases (k.switching p)) [
        | inl s ↦ rw s (postpone_dispatch_lem p k1 s c1)
        | inr s ↦ rw s (post_begin p k1.sim.glob_time k1 c1)
      ]

  evict-IsConsistent :
      (fuel i : ℕ) (k : MrtKernel A) → IsConsistent env k → IsConsistent env (evict env fuel i k).1
  unfolding evict
  evict-IsConsistent zero i k c = c
  evict-IsConsistent (suc fuel) i k c = elim (Option-cases (get_task_n i k.sched)) [
    | inl e ↦ rw (e, evict) c
    | inr (t, e) ↦ elim (Option-cases (where_dispatched t k)) [
      | inl f ↦ rw (e, f, evict) (evict-IsConsistent fuel (suc i) k c)
      | inr (p, f) ↦
          let asked = dispatch_on-IsConsistent p k c in
          rw (e, f, evict)
            (>>=_keeps (IsConsistent env) (dispatch_on env p) (λ _. pure (suc i)) k asked
              (λ _. asked))
    ]
  ]

  place-IsConsistent :
      (n : ℕ) (f : List ℕ) (i : ℕ) (k : MrtKernel A)
      → IsConsistent env k
      → IsConsistent env (place env n f i k).1
  unfolding place
  place-IsConsistent zero f i k c = c
  place-IsConsistent (suc n) f i k c =
      by_processor (next_free_proc k f) (λ f' j k' c'. place-IsConsistent n f' j k' c')
    where
      by_processor :
          (ps : List ℕ)
          → ((f' : List ℕ) (j : ℕ) (k' : MrtKernel A)
              → IsConsistent env k'
              → IsConsistent env (place env n f' j k').1)
          → IsConsistent env (
              (elim ps as (λ _. Outcome (Unit {0}) × MrtKernel A) [
                | [] ↦ (evict env (length k.sched.queue + 1) i >>= place env n []) k
                | p ∷ ps ↦ (dispatch_on env p >> place env n ps i) k
              ]).1)
      by_processor [] next =
          let evicted = evict-IsConsistent (length k.sched.queue + 1) i k c in
          >>=_keeps (IsConsistent env) (evict env (length k.sched.queue + 1) i) (place env n []) k
            evicted (λ j. next [] j (evict env (length k.sched.queue + 1) i k).1 evicted)
      by_processor (p ∷ ps) next =
          let asked = dispatch_on-IsConsistent p k c in
          >>=_keeps (IsConsistent env) (dispatch_on env p) (λ _. place env n ps i) k asked
            (λ _. next ps i (dispatch_on env p k).1 asked)

  pub dispatch-IsConsistent :
      (k : MrtKernel A) → IsConsistent env k → IsConsistent env (dispatch env k).1
  unfolding dispatch
  dispatch-IsConsistent k c =
      place-IsConsistent (count_new k (length k.cpus) 0) k.cpus (length k.cpus) k c
