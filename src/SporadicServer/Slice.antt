-- ===== src/SporadicServer/Slice.antt =====
-- A sporadic server executes for some time, and is preempted.
use partsim.Prelude.{◌≡◌, ◌≢◌, refl, ap, ◌∙◌, arith, true, false, some, List, [], ◌∷◌, ◌++◌}
use partsim.Prelude.Int.{pos, ◌+ℤ◌, ◌-ℤ◌, ◌≤ℤ◌, int_laws}
use partsim.Prelude.Action.{return}
use partsim.Tick.{Tick, max_tick}
use partsim.Event.{drop}
use partsim.Event.Order.{IsValid}
use partsim.Event.Post.{posted, post_lem}
use partsim.CapacityTimer.{Doubles, is_stopped, start, stop, stopped, running}
use partsim.CbServer.{ready, executing}
use partsim.SporadicServer.{
  SporadicServer, SporadicEvents, Replenishment, add_last, executed, put_repl, credit,
  ready_executing, executing_ready,
}
use partsim.SporadicServer.Balance.{is_queued}

-- The server as it is when the clock has moved to `t`.
abbrev pub at : {D A : Type 0} → Tick → SporadicServer D A → SporadicServer D A
at t s = record s { sim = record s.sim { glob_time = t } }

module _ {D A : Type 0} (num : Doubles D) (evt : SporadicEvents) (s : SporadicServer D A)
    (v : IsValid s.sim) (fresh : is_queued evt.band_ex s.sim ≡ false)
    (still : is_stopped s.vtime.status ≡ true) (budget : pos 0 ≤ℤ s.cap)
    (far : s.sim.glob_time +ℤ s.cap ≢ max_tick) where
  -- While the server executes.
  abbrev pub started : SporadicServer D A
  started = record s {
    status = executing;
    last_time = s.sim.glob_time;
    vtime = record s.vtime {
      der = num.div (num.of_tick s.p) (num.of_tick s.q);
      last_time = s.sim.glob_time;
      status = running;
    };
    sim = posted evt.band_ex (s.sim.glob_time +ℤ s.cap) false s.sim;
  }

  pub ready_executing_lem : ready_executing num evt s ≡ (return tt, started)
  unfolding ready_executing start
  ready_executing_lem =
      let in_time : s.sim.glob_time ≤ℤ s.sim.glob_time +ℤ s.cap = omega int_laws in
      rw still
        (rw (post_lem evt.band_ex (s.sim.glob_time +ℤ s.cap) false s.sim v fresh in_time far))

  -- When it is preempted at the time `t`, before its use is credited.
  abbrev pub stopped_at : Tick → SporadicServer D A
  stopped_at t = record (at t started) {
    status = ready;
    cap = s.cap -ℤ (t -ℤ s.sim.glob_time);
    vtime = record started.vtime {
      value = num.add s.vtime.value (
          num.mul (num.of_tick (t -ℤ s.sim.glob_time))
            (num.div (num.of_tick s.p) (num.of_tick s.q)));
      status = stopped;
    };
    sim = (drop evt.band_ex (at t started).sim).1;
  }

-- The last one of the replenishments grows.
add_last-append :
    (b : Tick) (rs : List Replenishment) (u c : Tick)
    → add_last b (rs ++ (u, c) ∷ []) ≡ some (rs ++ (u, c +ℤ b) ∷ [])
add_last-append b [] u c = refl
add_last-append b (r ∷ []) u c = refl
add_last-append b (r ∷ x ∷ rs) u c = rw (add_last-append b (x ∷ rs) u c) refl

credit_last :
    {D A : Type 0} (s : SporadicServer D A) (rs : List Replenishment) (u c : Tick)
    → s.repl_queue ≡ rs ++ (u, c) ∷ []
    → credit s ≡ (return tt, record s { repl_queue = rs ++ (u, c +ℤ executed s) ∷ [] })
unfolding credit
credit_last s rs u c e =
    ap (λ q. put_repl q s) (ap (add_last (executed s)) e ∙ add_last-append (executed s) rs u c)

-- A server with a replenishment, a stopped timer and a capacity that is not negative, that begins
-- to execute, where the event of its budget's end is not queued, in a well-formed queue, and that
-- is preempted at a time `t` between now and that end: both operations return, the end was queued
-- for the moment when the capacity is used up and is out of the queue again, the time that it
-- executed has gone from the capacity to the last replenishment, all others stay as they were, and
-- the capacity is not negative.
pub slice-moves_budget :
    {D A : Type 0} (num : Doubles D) (evt : SporadicEvents) (s : SporadicServer D A) (t : Tick)
    (v : IsValid s.sim) (fresh : is_queued evt.band_ex s.sim ≡ false)
    (still : is_stopped s.vtime.status ≡ true) (budget : pos 0 ≤ℤ s.cap)
    (far : s.sim.glob_time +ℤ s.cap ≢ max_tick)
    → (earlier : List Replenishment) (due amount : Tick)
    → s.repl_queue ≡ earlier ++ (due, amount) ∷ []
    → s.sim.glob_time ≤ℤ t
    → t ≤ℤ s.sim.glob_time +ℤ s.cap
    → let s1 = (ready_executing num evt s).1 in
      let s2 = (executing_ready num evt (at t s1)).1 in
      ((ready_executing num evt s).0 ≡ return tt)
      × (is_queued evt.band_ex s1.sim ≡ true)
      × ((s1.sim.events evt.band_ex).time ≡ s.sim.glob_time +ℤ s.cap)
      × ((executing_ready num evt (at t s1)).0 ≡ return tt)
      × (is_queued evt.band_ex s2.sim ≡ false)
      × (s2.cap ≡ s.cap -ℤ (t -ℤ s.sim.glob_time))
      × (pos 0 ≤ℤ s2.cap)
      × (s2.repl_queue ≡ earlier ++ (due, amount +ℤ (t -ℤ s.sim.glob_time)) ∷ [])
unfolding executing_ready stop drop
slice-moves_budget num evt s t v fresh still budget far earlier due amount last after before =
    let e = credit_last (stopped_at num evt s v fresh still budget far t) earlier due amount last in
    rw (ready_executing_lem num evt s v fresh still budget far, e)
      (refl, ground arith, ground arith, refl, ground arith, refl, omega (int_laws, before), refl)
