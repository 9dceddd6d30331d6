-- ===== src/CbServer/Budget.antt =====
-- Capacity and deadline of a constant bandwidth server.
use partsim.Prelude.{
  ℕ, ◌≡◌, ◌≢◌, refl, ap, ◌∙◌, Bool, true, false, not, ◌&&◌, ◌||◌, arith, Bool-cases, inl, inr, ◌==◌,
  if◌then◌else◌,
}
use partsim.Prelude.Int.{pos, ◌+ℤ◌, ◌-ℤ◌, ◌≤ℤ◌, int_laws}
use partsim.Prelude.Action.{return}
use partsim.Tick.{Tick, max_tick}
use partsim.PriorityList.Order.{contains}
use partsim.Event.{Sim, post, drop}
use partsim.Event.Order.{IsValid}
use partsim.Event.Drop.{dropped, dropped-IsValid, contains-dropped}
use partsim.Event.Post.{posted, posted-IsValid, contains-posted, post_lem}
use partsim.CapacityTimer.{Doubles, is_stopped, stop, stopped}
use partsim.CbServer.{
  CbServer, ServerEvents, ready, recharging, executing_recharging, soft_recharge, hard_recharge,
}

-- What a recharge leaves.
pub record Recharged {D A : Type 0} (evt : ServerEvents) (s s' : CbServer D A) : Type 0 where
  pub valid : IsValid s'.sim
  pub clock : s'.sim.glob_time ≡ s.sim.glob_time
  pub deadline : s'.d ≡ s.d +ℤ s.p
  pub announced : s'.abs_dline ≡ s'.d
  pub timer : is_stopped s'.vtime.status ≡ true
  pub queue :
      (z : ℕ)
      → contains z s'.sim.event_queue
        ≡ ((z == evt.repl) || (contains z s.sim.event_queue && not (z == evt.band_ex)))
  pub refill_time : (s'.sim.events evt.repl).time ≡ (if s.hr then s.d else s.sim.glob_time)
  pub capacity : s'.cap ≡ (if s.hr then pos 0 else s.q)
  pub status : s'.status ≡ (if s.hr then recharging else ready)

module _ {D A : Type 0} (num : Doubles D) (evt : ServerEvents) (s : CbServer D A)
    (v : IsValid s.sim) (fresh : (s.sim.events evt.repl).is_in_queue ≡ false) where
  abbrev out : Sim
  out = dropped evt.band_ex s.sim

  still_fresh : (out.events evt.repl).is_in_queue ≡ false
  still_fresh = ground arith

  abbrev halted : CbServer D A
  halted = record s {
    sim = out;
    vtime = record s.vtime {
      value =
          num.add s.vtime.value
            (num.mul (num.of_tick (s.sim.glob_time -ℤ s.vtime.last_time)) s.vtime.der);
      status = stopped;
    };
  }

  module _ (t : Tick) (early : s.sim.glob_time ≤ℤ t) (far : t ≢ max_tick) where
    reposts : post evt.repl t false out ≡ (return tt, posted evt.repl t false out)
    reposts =
        post_lem evt.repl t false out (dropped-IsValid evt.band_ex s.sim v) still_fresh early far

    reposted-IsValid : IsValid (posted evt.repl t false out)
    reposted-IsValid =
        posted-IsValid evt.repl t false out (dropped-IsValid evt.band_ex s.sim v) still_fresh early
          far

    contains-reposted :
        (z : ℕ)
        → contains z (posted evt.repl t false out).event_queue
          ≡ ((z == evt.repl) || (contains z s.sim.event_queue && not (z == evt.band_ex)))
    contains-reposted z =
        let a =
          contains-posted evt.repl t false out z (dropped-IsValid evt.band_ex s.sim v) still_fresh
            far in
        let b = contains-dropped evt.band_ex s.sim z v in rw (a, b)

  stops :
      is_stopped s.vtime.status ≡ false
      → executing_recharging num evt s
        ≡ (if s.hr then hard_recharge num evt else soft_recharge num evt) halted
  unfolding executing_recharging drop stop
  stops h = rw h

  abbrev softened : CbServer D A
  softened = record halted {
    cap = s.q;
    d = s.d +ℤ s.p;
    abs_dline = s.d +ℤ s.p;
    status = ready;
    sim = posted evt.repl s.sim.glob_time false out;
  }

  abbrev hardened : CbServer D A
  hardened = record halted {
    cap = pos 0;
    d = s.d +ℤ s.p;
    abs_dline = s.d +ℤ s.p;
    status = recharging;
    sim = posted evt.repl s.d false out;
  }

  soft_recharge_lem :
      s.sim.glob_time ≢ max_tick → soft_recharge num evt halted ≡ (return tt, softened)
  unfolding soft_recharge
  soft_recharge_lem far = rw (reposts s.sim.glob_time (omega int_laws) far)

  hard_recharge_lem :
      s.sim.glob_time ≤ℤ s.d → s.d ≢ max_tick → hard_recharge num evt halted ≡ (return tt, hardened)
  unfolding hard_recharge
  hard_recharge_lem early far = rw (reposts s.d early far)

  softened-Recharged : s.sim.glob_time ≢ max_tick → s.hr ≡ false → Recharged evt s softened
  softened-Recharged far h = record {
    valid = reposted-IsValid s.sim.glob_time (omega int_laws) far;
    clock = refl;
    deadline = refl;
    announced = refl;
    timer = refl;
    queue = contains-reposted s.sim.glob_time (omega int_laws) far;
    refill_time = ground arith;
    capacity = ground arith;
    status = ground arith;
  }

  hardened-Recharged :
      s.sim.glob_time ≤ℤ s.d → s.d ≢ max_tick → s.hr ≡ true → Recharged evt s hardened
  hardened-Recharged early far h = record {
    valid = reposted-IsValid s.d early far;
    clock = refl;
    deadline = refl;
    announced = refl;
    timer = refl;
    queue = contains-reposted s.d early far;
    refill_time = ground arith;
    capacity = ground arith;
    status = ground arith;
  }

-- `executing_recharging` of a server whose timer runs and whose replenishment is not pending, in a
-- well-formed queue, with the deadline not in the past and before `MAXTICK`: it returns; the
-- deadline is postponed by exactly one period; the exhaustion event is out and the replenishment
-- queued, both nothing else; a soft server is full and ready at once, a hard one is empty and
-- recharging until its old deadline.
pub executing_recharging-outcome :
    {D A : Type 0} (num : Doubles D) (evt : ServerEvents) (s : CbServer D A)
    → IsValid s.sim
    → (s.sim.events evt.repl).is_in_queue ≡ false
    → is_stopped s.vtime.status ≡ false
    → s.sim.glob_time ≤ℤ s.d
    → s.sim.glob_time ≢ max_tick
    → s.d ≢ max_tick
    → ((executing_recharging num evt s).0 ≡ return tt)
      × Recharged evt s (executing_recharging num evt s).1
executing_recharging-outcome num evt s v fresh runs early now_far far = elim (Bool-cases s.hr) [
  | inl h ↦
      rw (stops num evt s v fresh runs ∙ chosen h ∙ hard_recharge_lem num evt s v fresh early far)
        (refl, hardened-Recharged num evt s v fresh early far h)
  | inr h ↦
      rw (stops num evt s v fresh runs ∙ chosen h ∙ soft_recharge_lem num evt s v fresh now_far)
        (refl, softened-Recharged num evt s v fresh now_far h)
]
  where
    chosen :
        {b : Bool}
        → s.hr ≡ b
        → (if s.hr then hard_recharge num evt else soft_recharge num evt) (halted num evt s v fresh)
          ≡ (if b then hard_recharge num evt else soft_recharge num evt) (halted num evt s v fresh)
    chosen h =
        ap
          (λ b.
            (if b then hard_recharge num evt else soft_recharge num evt) (halted num evt s v fresh))
          h
