-- ===== src/CbServer/Slice.antt =====
-- The time that a constant bandwidth server executes, and the changes of its budget.
use partsim.Prelude.{
  ℕ, ◌≡◌, ◌≢◌, refl, sym, subst, ◌∙◌, true, false, not, ◌&&◌, arith, ◌==◌, ==_iff,
}
use partsim.Prelude.Int.{pos, ◌+ℤ◌, ◌-ℤ◌, ◌≤ℤ◌, ◌<ℤ◌, leb_ℤ, eqb_ℤ, int_laws}
use partsim.Prelude.Action.{Outcome, return}
use partsim.Tick.{Tick, max_tick}
use partsim.PriorityList.Order.{contains}
use partsim.Event.{Sim, drop}
use partsim.Event.Order.{IsValid}
use partsim.Event.Drop.{dropped, contains-dropped}
use partsim.Event.Post.{posted, posted-IsValid, contains-posted, post_lem}
use partsim.Simulation.Step.{advance-IsValid}
use partsim.CapacityTimer.{Doubles, is_stopped, start, stop, stopped, running}
use partsim.CbServer.{
  CbServer, ServerEvents, ready, executing, is_executing, ready_executing, executing_ready,
  change_budget,
}

-- The server as it is when the clock has moved to `t`.
abbrev pub at : {D A : Type 0} → Tick → CbServer D A → CbServer D A
at t s = record s { sim = record s.sim { glob_time = t } }

-- What is left of a server that started at `s`, and is descheduled at the time `t`.
pub record Preempted {D A : Type 0} (evt : ServerEvents) (t : Tick) (s s' : CbServer D A)
    : Type 0 where
  pub accounted : s'.cap ≡ s.cap -ℤ (t -ℤ s.sim.glob_time)
  pub enough : pos 0 ≤ℤ s'.cap
  pub deadline : s'.d ≡ s.d
  pub budget : s'.q ≡ s.q
  pub timer : is_stopped s'.vtime.status ≡ true
  pub status : s'.status ≡ ready
  pub queue :
      (z : ℕ)
      → contains z s'.sim.event_queue ≡ (contains z s.sim.event_queue && not (z == evt.band_ex))

module _ {D A : Type 0} (num : Doubles D) (evt : ServerEvents) (s : CbServer D A)
    (v : IsValid s.sim) (fresh : (s.sim.events evt.band_ex).is_in_queue ≡ false)
    (still : is_stopped s.vtime.status ≡ true) (budget : pos 0 ≤ℤ s.cap)
    (far : s.sim.glob_time +ℤ s.cap ≢ max_tick) where
  abbrev started_sim : Sim
  started_sim = posted evt.band_ex (s.sim.glob_time +ℤ s.cap) false s.sim

  -- While the server executes.
  abbrev started : CbServer D A
  started = record s {
    status = executing;
    last_time = s.sim.glob_time;
    vtime = record s.vtime {
      der = num.div (num.of_tick s.p) (num.of_tick s.q);
      last_time = s.sim.glob_time;
      status = running;
    };
    sim = started_sim;
  }

  in_time : s.sim.glob_time ≤ℤ s.sim.glob_time +ℤ s.cap
  in_time = omega int_laws

  pub ready_executing_lem : ready_executing num evt s ≡ (return tt, started)
  unfolding ready_executing start
  ready_executing_lem =
      rw still
        (rw (post_lem evt.band_ex (s.sim.glob_time +ℤ s.cap) false s.sim v fresh in_time far))

  started-IsValid : IsValid started_sim
  started-IsValid =
      posted-IsValid evt.band_ex (s.sim.glob_time +ℤ s.cap) false s.sim v fresh in_time far

  module _ (t : Tick)
      (unpassed : (z : ℕ)
        → contains z started_sim.event_queue ≡ true
        → t ≤ℤ (started_sim.events z).time) where
    abbrev later : Sim
    later = record started_sim { glob_time = t }

    later-IsValid : IsValid later
    later-IsValid = advance-IsValid t started_sim started-IsValid unpassed

    abbrev ended : CbServer D A
    ended = record started {
      status = ready;
      cap = s.cap -ℤ (t -ℤ s.sim.glob_time);
      vtime = record started.vtime {
        value = num.add s.vtime.value (
            num.mul (num.of_tick (t -ℤ s.sim.glob_time))
              (num.div (num.of_tick s.p) (num.of_tick s.q)));
        status = stopped;
      };
      sim = dropped evt.band_ex later;
    }

    executing_ready_lem : executing_ready num evt (at t started) ≡ (return tt, ended)
    unfolding executing_ready stop drop
    executing_ready_lem = refl

    before_exhaustion : t ≤ℤ s.sim.glob_time +ℤ s.cap
    before_exhaustion =
        let queued : contains evt.band_ex started_sim.event_queue ≡ true =
          contains-posted evt.band_ex (s.sim.glob_time +ℤ s.cap) false s.sim evt.band_ex v fresh far
          ∙ ground (arith, ==_iff evt.band_ex evt.band_ex) in
        let its_time : (started_sim.events evt.band_ex).time ≡ s.sim.glob_time +ℤ s.cap =
          ground arith in
        rw (← its_time) (unpassed evt.band_ex queued)

    left_queue :
        (z : ℕ)
        → contains z (dropped evt.band_ex later).event_queue
          ≡ (contains z s.sim.event_queue && not (z == evt.band_ex))
    left_queue z =
        let a = contains-dropped evt.band_ex later z later-IsValid in
        let b = contains-posted evt.band_ex (s.sim.glob_time +ℤ s.cap) false s.sim z v fresh far in
        ground (arith, a, b)

    ended-Preempted : Preempted evt t s ended
    ended-Preempted = record {
      accounted = refl;
      enough = let h = before_exhaustion in omega (int_laws, h);
      deadline = refl;
      budget = refl;
      timer = refl;
      status = refl;
      queue = left_queue;
    }

-- A server starts to execute, with a well-formed queue, its timer stopped, no exhaustion event
-- pending and a capacity that is not negative; the clock moves to a time that is past no queued
-- event; and there the server is descheduled. Both operations return; the capacity falls by exactly
-- the time that passed and is not negative; budget, deadline and the other events stay; and the
-- exhaustion event is out of the queue.
pub slice-outcome :
    {D A : Type 0} (num : Doubles D) (evt : ServerEvents) (s : CbServer D A) (t : Tick)
    → IsValid s.sim
    → (s.sim.events evt.band_ex).is_in_queue ≡ false
    → is_stopped s.vtime.status ≡ true
    → pos 0 ≤ℤ s.cap
    → s.sim.glob_time +ℤ s.cap ≢ max_tick
    → ((z : ℕ)
        → contains z (ready_executing num evt s).1.sim.event_queue ≡ true
        → t ≤ℤ ((ready_executing num evt s).1.sim.events z).time)
    → ((ready_executing num evt s).0 ≡ return tt)
      × ((executing_ready num evt (at t (ready_executing num evt s).1)).0 ≡ return tt)
      × Preempted evt t s (executing_ready num evt (at t (ready_executing num evt s).1)).1
slice-outcome num evt s t v fresh still budget far unpassed =
    subst
      (λ (r : Outcome (Unit {0}) × CbServer _ _).
        (r.0 ≡ return tt)
        × ((executing_ready num evt (at t r.1)).0 ≡ return tt)
        × Preempted evt t s (executing_ready num evt (at t r.1)).1)
      (sym start) (rw ends (refl, refl, ended-Preempted num evt s v fresh still budget far t ahead))
  where
    start : ready_executing num evt s ≡ (return tt, started num evt s v fresh still budget far)
    start = ready_executing_lem num evt s v fresh still budget far

    ahead :
        (z : ℕ)
        → contains z (started num evt s v fresh still budget far).sim.event_queue ≡ true
        → t ≤ℤ ((started num evt s v fresh still budget far).sim.events z).time
    ahead =
        subst
          (λ (r : Outcome (Unit {0}) × CbServer _ _).
            (z : ℕ) → contains z r.1.sim.event_queue ≡ true → t ≤ℤ (r.1.sim.events z).time)
          start unpassed

    ends :
        executing_ready num evt (at t (started num evt s v fresh still budget far))
        ≡ (return tt, ended num evt s v fresh still budget far t ahead)
    ends = executing_ready_lem num evt s v fresh still budget far t ahead

-- `changeBudget` with a positive budget other than the present one, on a server that does not
-- execute: it returns the current time and sets the budget, but the capacity stays what it was,
-- since `cap += n - Q` reads the budget after it was set.
pub change_budget-keeps_capacity :
    {D A : Type 0} (num : Doubles D) (evt : ServerEvents) (s : CbServer D A) (n : Tick)
    → pos 0 <ℤ n
    → n ≢ s.q
    → is_executing s.status ≡ false
    → ((change_budget num evt n s).0 ≡ return s.sim.glob_time)
      × ((change_budget num evt n s).1.q ≡ n)
      × ((change_budget num evt n s).1.cap ≡ s.cap)
unfolding change_budget
change_budget-keeps_capacity num evt s n positive other waits =
    let above : leb_ℤ n (pos 0) ≡ false = ground arith in
    let differs : eqb_ℤ n s.q ≡ false = ground arith in
    let same : s.cap +ℤ (n -ℤ n) ≡ s.cap = omega int_laws in
    rw (above, differs, waits) (refl, refl, same)
