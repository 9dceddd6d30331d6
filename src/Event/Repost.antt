-- ===== src/Event/Repost.antt =====
-- `drop` followed by `post` at the current time: how kernels and servers ask for a dispatch.
use partsim.Prelude.{ℕ, ◌≡◌, ◌≢◌, false, ◌||◌, arith, ◌==◌, ==_iff}
use partsim.Prelude.Int.{◌≤ℤ◌, int_laws}
use partsim.Prelude.Action.{return}
use partsim.Tick.{max_tick}
use partsim.PriorityList.Order.{contains}
use partsim.Event.{Sim, post}
use partsim.Event.Order.{IsValid}
use partsim.Event.Drop.{dropped, dropped-IsValid, contains-dropped}
use partsim.Event.Post.{posted, posted-IsValid, contains-posted, post_lem}

abbrev pub reposted : ℕ → Sim → Sim
reposted e s = posted e s.glob_time false (dropped e s)

module _ (e : ℕ) (s : Sim) (v : IsValid s) (far : s.glob_time ≢ max_tick) where
  out : ((dropped e s).events e).is_in_queue ≡ false
  out = ground arith

  now : s.glob_time ≤ℤ s.glob_time
  now = omega int_laws

  pub repost_lem : post e s.glob_time false (dropped e s) ≡ (return tt, reposted e s)
  repost_lem = post_lem e s.glob_time false (dropped e s) (dropped-IsValid e s v) out now far

  pub reposted-IsValid : IsValid (reposted e s)
  reposted-IsValid =
      posted-IsValid e s.glob_time false (dropped e s) (dropped-IsValid e s v) out now far

  pub contains-reposted :
      (z : ℕ) → contains z (reposted e s).event_queue ≡ ((z == e) || contains z s.event_queue)
  contains-reposted z =
      let a = contains-posted e s.glob_time false (dropped e s) z (dropped-IsValid e s v) out far in
      let b = contains-dropped e s z v in ground (arith, a, b, ==_iff z e)

  pub reposted-time : ((reposted e s).events e).time ≡ s.glob_time
  reposted-time = ground arith
