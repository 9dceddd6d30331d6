-- ===== src/ExecInstr/Slice.antt =====
-- What an instruction has executed, from one time that it is scheduled to the next.
use partsim.Prelude.{
  ℕ, ◌+◌, ◌-◌, ◌≤◌, ◌≡◌, ◌≢◌, refl, sym, ap, inl, inr, Bool, true, false, arith, ltb, Bool-cases,
  ◌==◌,
}
use partsim.Prelude.Int.{pos, ◌+ℤ◌, ◌-ℤ◌, ◌≤ℤ◌, leb_ℤ, int_laws}
use partsim.Prelude.Action.{return}
use partsim.Tick.{Tick, max_tick}
use partsim.Event.{Sim, drop}
use partsim.Event.Order.{IsValid}
use partsim.Event.Post.{posted, post_lem}
use partsim.CapacityTimer.{Doubles}
use partsim.ExecInstr.{ExecInstr, InstrWorld, begin_instr, time_left, schedule, deschedule}
use partsim.ExecInstr.Progress.{IsExact, IsUnit, IsAt, GoesOn, moved_to, Stopped}

module _ {D A : Type 0} (num : Doubles D) (exact : IsExact num) (world : InstrWorld D A)
    (unit : IsUnit num world) (end_evt : ℕ) where
  time_left_lem :
      (i : ExecInstr D A) (e c : ℕ)
      → IsAt num i e c
      → time_left num world end_evt i (num.of_tick (pos 1)) ≡ pos (c - e)
  unfolding time_left
  time_left_lem i e c at =
      let small = at.small in
      let le = at.left in
      let order = exact.lt e c (omega arith) small in
      elim (Bool-cases (ltb e c)) [
        | inl more ↦
            rw
              (
                exact.mul_one i.act_cycles,
                at.cycles,
                at.cost,
                order,
                more,
                exact.sub c e small le,
                exact.div_one (num.of_tick (pos (c - e))),
              )
              (exact.ceil (c - e) (omega arith))
        | inr none_left ↦
            let nothing : pos 0 ≡ pos (c - e) = ground arith in
            rw (exact.mul_one i.act_cycles, at.cycles, at.cost, order, none_left) nothing
      ]

  -- The state behind `begin_instr`, which is given `j`.
  record Ready (j j' : ExecInstr D A) (e c : ℕ) : Type 0 where
    at : IsAt num j' e c
    same_sim : j'.sim ≡ j.sim
    same_start : j'.last_time ≡ j.last_time
    same_mark : j'.executing ≡ j.executing

  begins :
      (b : Bool) (j : ExecInstr D A) (e c : ℕ)
      → j.is_beg_of_instr ≡ b
      → GoesOn num world j e c
      → ((begin_instr num world end_evt b j).0 ≡ return tt)
        × Ready j (begin_instr num world end_evt b j).1 e c
  begins false j e c b (inl at) =
      (refl, record { at = at; same_sim = refl; same_start = refl; same_mark = refl })
  begins false j e c b (inr (first, _, _, _)) = absurd (cc)
  begins true j e c b (inl at) = let begun = at.begun in absurd (cc)
  begins true j e c b (inr (first, none_yet, draws, small)) = rw draws (
    refl,
    record {
      at = record {
        begun = refl;
        cycles = ap (λ n. num.of_tick (pos n)) (sym none_yet);
        time = ap pos (sym none_yet);
        cost = refl;
        left = omega arith;
        small = small;
      };
      same_sim = refl;
      same_start = refl;
      same_mark = refl;
    },
  )

  abbrev pub marked : ExecInstr D A → ExecInstr D A
  marked i = record i { last_time = i.sim.glob_time; executing = true }

  marked-GoesOn :
      (i : ExecInstr D A) (e c : ℕ) → GoesOn num world i e c → GoesOn num world (marked i) e c
  marked-GoesOn i e c (inl at) = inl (record {
    begun = at.begun;
    cycles = at.cycles;
    time = at.time;
    cost = at.cost;
    left = at.left;
    small = at.small;
  })
  marked-GoesOn i e c (inr first) = inr first

  -- Once the instruction is scheduled.
  abbrev ready : ExecInstr D A → ExecInstr D A
  ready i = (begin_instr num world end_evt i.is_beg_of_instr (marked i)).1

  abbrev scheduled : ExecInstr D A → (left : ℕ) → ExecInstr D A
  scheduled i left = record (ready i) {
    rest = (world.set_workload (ready i).rest).1;
    sim = posted end_evt ((ready i).sim.glob_time +ℤ pos left) false (ready i).sim;
  }

  schedule_lem :
      (i : ExecInstr D A) (e c : ℕ)
      → GoesOn num world i e c
      → IsValid i.sim
      → (i.sim.events end_evt).is_in_queue ≡ false
      → i.sim.glob_time +ℤ pos (c - e) ≢ max_tick
      → schedule num world end_evt i ≡ (return tt, scheduled i (c - e))
  unfolding schedule
  schedule_lem i e c goes v free far =
      let (returns, r) = begins i.is_beg_of_instr (marked i) e c refl (marked-GoesOn i e c goes) in
      let loaded = record (ready i) { rest = (world.set_workload (ready i).rest).1 } in
      let at : IsAt num loaded e c = record {
        begun = r.at.begun;
        cycles = r.at.cycles;
        time = r.at.time;
        cost = r.at.cost;
        left = r.at.left;
        small = r.at.small;
      } in
      let ahead : (ready i).sim.glob_time ≤ℤ (ready i).sim.glob_time +ℤ pos (c - e) =
        omega int_laws in
      let not_last : (ready i).sim.glob_time +ℤ pos (c - e) ≢ max_tick = rw (r.same_sim) far in
      let nonneg : leb_ℤ (pos 0) (pos (c - e)) ≡ true = ground arith in
      rw
        (
          returns,
          unit.has_cpu (ready i).rest,
          unit.works (ready i).rest,
          unit.speed (world.set_workload (ready i).rest).1,
          time_left_lem loaded e c at,
          nonneg,
          post_lem end_evt ((ready i).sim.glob_time +ℤ pos (c - e)) false (ready i).sim
              (rw (r.same_sim) v) (rw (r.same_sim) free) ahead not_last,
        )
        refl

  scheduled_time :
      (i : ExecInstr D A) (e c left : ℕ)
      → GoesOn num world i e c
      → ((scheduled i left).sim.events end_evt).time ≡ i.sim.glob_time +ℤ pos left
  scheduled_time i e c left goes =
      let (_, r) = begins i.is_beg_of_instr (marked i) e c refl (marked-GoesOn i e c goes) in
      let this : (end_evt == end_evt) ≡ true = ground arith in
      rw this (ap (λ (s : Sim). s.glob_time +ℤ pos left) (r.same_sim))

  pub passed_time : (g : Tick) (n : ℕ) → g +ℤ pos n -ℤ g ≡ pos n
  passed_time g n = omega int_laws

  pub sum_lem : (e n : ℕ) → pos e +ℤ pos n ≡ pos (e + n)
  sum_lem e n = omega int_laws

  deschedule_lem :
      (s : ExecInstr D A) (g : Tick) (e c n : ℕ)
      → IsAt num s e c
      → s.executing ≡ true
      → s.last_time ≡ g
      → s.sim.glob_time ≡ g +ℤ pos n
      → e + n ≤ c
      → ((deschedule num world end_evt s).0 ≡ return tt)
        × Stopped num end_evt e c n (deschedule num world end_evt s).1
  unfolding deschedule drop
  deschedule_lem s g e c n at runs since now within =
      let small = at.small in
      let span : s.sim.glob_time -ℤ s.last_time ≡ pos n = rw (since, now) (passed_time g n) in
      rw (runs, unit.has_old_cpu s.rest, unit.idles s.rest)
        (
          refl,
          record {
            at = record {
              begun = at.begun;
              cycles =
                  rw
                    (
                      unit.old_speed (world.set_idle s.rest).1,
                      span,
                      exact.mul_one (num.of_tick (pos n)),
                      at.cycles,
                    )
                    (exact.add e n (omega arith));
              time = rw (span, at.time) (sum_lem e n);
              cost = at.cost;
              left = within;
              small = at.small;
            };
            idle = refl;
            out = ground arith;
          },
        )

  slice :
      (i : ExecInstr D A) (e c n : ℕ)
      → GoesOn num world i e c
      → IsValid i.sim
      → (i.sim.events end_evt).is_in_queue ≡ false
      → i.sim.glob_time +ℤ pos (c - e) ≢ max_tick
      → e + n ≤ c
      → ((deschedule num world end_evt
            (moved_to (i.sim.glob_time +ℤ pos n) (scheduled i (c - e)))).0
          ≡ return tt)
        × Stopped num end_evt e c n
            (deschedule num world end_evt
              (moved_to (i.sim.glob_time +ℤ pos n) (scheduled i (c - e)))).1
  slice i e c n goes v free far within =
      let (_, r) = begins i.is_beg_of_instr (marked i) e c refl (marked-GoesOn i e c goes) in
      deschedule_lem (moved_to (i.sim.glob_time +ℤ pos n) (scheduled i (c - e))) i.sim.glob_time e c
        n
        (record {
          begun = r.at.begun;
          cycles = r.at.cycles;
          time = r.at.time;
          cost = r.at.cost;
          left = r.at.left;
          small = r.at.small;
        })
        r.same_mark r.same_start refl within

-- An instruction on a processor of speed one, with doubles that are exact below 2^53, that has
-- executed `e` of `c` ticks, or begins and draws the cost `c`, its end not queued, in a well-formed
-- queue, where it would not end at `MAXTICK`. `schedule` returns, and the end is queued exactly the
-- `c - e` ticks that are left from now. `deschedule` after any `n` ticks of them returns, takes the
-- end out of the queue, and leaves `e + n` of the `c` ticks executed: however often an instruction
-- is preempted, it executes for its cost.
pub schedule-slice :
    {D A : Type 0} (num : Doubles D) (world : InstrWorld D A) (end_evt : ℕ) (i : ExecInstr D A)
    (e c n : ℕ)
    → IsExact num
    → IsUnit num world
    → GoesOn num world i e c
    → IsValid i.sim
    → (i.sim.events end_evt).is_in_queue ≡ false
    → i.sim.glob_time +ℤ pos (c - e) ≢ max_tick
    → e + n ≤ c
    → ((schedule num world end_evt i).0 ≡ return tt)
      × (((schedule num world end_evt i).1.sim.events end_evt).is_in_queue ≡ true)
      × (((schedule num world end_evt i).1.sim.events end_evt).time
          ≡ i.sim.glob_time +ℤ pos (c - e))
      × ((deschedule num world end_evt
            (moved_to (i.sim.glob_time +ℤ pos n) (schedule num world end_evt i).1)).0
          ≡ return tt)
      × Stopped num end_evt e c n
          (deschedule num world end_evt
            (moved_to (i.sim.glob_time +ℤ pos n) (schedule num world end_evt i).1)).1
schedule-slice num world end_evt i e c n exact unit goes v free far within =
    let (returns, stopped) = slice num exact world unit end_evt i e c n goes v free far within in
    rw (schedule_lem num exact world unit end_evt i e c goes v free far) (
      refl,
      ground arith,
      scheduled_time num exact world unit end_evt i e c (c - e) goes,
      returns,
      stopped,
    )
