-- ===== src/ExecInstr/Refresh.antt =====
-- The speed of a processor changes while an instruction executes.
use partsim.Prelude.{
  ℕ, ◌+◌, ◌-◌, ◌≤◌, ◌≡◌, ◌≢◌, refl, inl, inr, true, false, arith, ltb, Bool-cases,
}
use partsim.Prelude.Int.{pos, ◌+ℤ◌, ◌-ℤ◌, ◌≤ℤ◌, leb_ℤ, int_laws}
use partsim.Prelude.Action.{return}
use partsim.Tick.{Tick, max_tick}
use partsim.Event.{drop}
use partsim.Event.Order.{IsValid}
use partsim.Event.Drop.{dropped, dropped-IsValid}
use partsim.Event.Post.{posted, post_lem}
use partsim.CapacityTimer.{Doubles}
use partsim.ExecInstr.{ExecInstr, InstrWorld, account, refreshed_left, refresh_exec}
use partsim.ExecInstr.Progress.{IsExact, IsAt}

module _ {D A : Type 0} (num : Doubles D) (exact : IsExact num) (world : InstrWorld D A)
    (end_evt : ℕ) (i : ExecInstr D A) (e c n : ℕ) (at : IsAt num i e c) (within : e + n ≤ c)
    (span : i.sim.glob_time ≡ i.last_time +ℤ pos n) where
  abbrev one : D
  one = num.of_tick (pos 1)

  abbrev accounted : ExecInstr D A
  accounted = account num world end_evt one (record i { sim = dropped end_evt i.sim })

  elapsed : i.sim.glob_time -ℤ i.last_time ≡ pos n
  elapsed = rw span (difference i.last_time n)
    where
      difference : (g : Tick) (n : ℕ) → g +ℤ pos n -ℤ g ≡ pos n
      difference g n = omega int_laws

  sum : (a b : ℕ) → pos a +ℤ pos b ≡ pos (a + b)
  sum a b = omega int_laws

  accounted-IsAt : IsAt num accounted (e + n) c
  accounted-IsAt =
      let small = at.small in
      record {
        begun = at.begun;
        cycles =
            rw (elapsed, exact.mul_one (num.of_tick (pos n)), at.cycles)
              (exact.add e n (omega arith));
        time = rw (elapsed, at.time) (sum e n);
        cost = at.cost;
        left = within;
        small = at.small;
      }

  left_nonneg : leb_ℤ (pos 0) (refreshed_left num world end_evt accounted one) ≡ true
  left_nonneg =
      let small = at.small in
      let done = accounted-IsAt in
      let order = exact.lt (e + n) c (omega arith) small in
      elim (Bool-cases (ltb (e + n) c)) [
        | inl more ↦
            rw
              (
                done.cycles,
                done.cost,
                order,
                more,
                exact.sub c (e + n) small within,
                exact.div_one (num.of_tick (pos (c - (e + n)))),
                exact.ceil (c - (e + n)) (omega arith),
              )
              (ground arith)
        | inr none_left ↦ rw (done.cycles, done.cost, order, none_left) (ground arith)
      ]

  refresh_lem :
      IsValid i.sim
      → i.sim.glob_time +ℤ pos c ≢ max_tick
      → refresh_exec num world end_evt one one i ≡ (
        return tt,
        record accounted {
          sim = posted end_evt (i.sim.glob_time +ℤ pos c) false (dropped end_evt i.sim);
        },
      )
  unfolding refresh_exec drop
  refresh_lem v far =
      let small = at.small in
      let out : ((dropped end_evt i.sim).events end_evt).is_in_queue ≡ false = ground arith in
      let ahead : i.sim.glob_time ≤ℤ i.sim.glob_time +ℤ pos c = omega int_laws in
      rw
        (
          left_nonneg,
          at.cost,
          exact.div_one (num.of_tick (pos c)),
          exact.to_tick c small,
          post_lem end_evt (i.sim.glob_time +ℤ pos c) false (dropped end_evt i.sim)
              (dropped-IsValid end_evt i.sim v) out ahead far,
        )
        refl

-- `refreshExec` from speed one to speed one, with doubles that are exact below 2^53, of an
-- instruction that had executed `e` of `c` ticks and then `n` more, in a well-formed queue, not so
-- that it ends at `MAXTICK`: it returns, and counts `e + n` ticks as executed; but the end is
-- queued the whole `c` ticks from now, not the ones that are left.
pub refresh_exec-restarts :
    {D A : Type 0} (num : Doubles D) (world : InstrWorld D A) (end_evt : ℕ) (i : ExecInstr D A)
    (e c n : ℕ)
    → IsExact num
    → IsAt num i e c
    → e + n ≤ c
    → i.sim.glob_time ≡ i.last_time +ℤ pos n
    → IsValid i.sim
    → i.sim.glob_time +ℤ pos c ≢ max_tick
    → ((refresh_exec num world end_evt (num.of_tick (pos 1)) (num.of_tick (pos 1)) i).0 ≡ return tt)
      × ((refresh_exec num world end_evt (num.of_tick (pos 1)) (num.of_tick (pos 1)) i).1.execd_time
          ≡ pos (e + n))
      × (((refresh_exec num world end_evt
              (num.of_tick (pos 1))
              (num.of_tick (pos 1))
              i).1.sim.events
            end_evt).time
          ≡ i.sim.glob_time +ℤ pos c)
refresh_exec-restarts num world end_evt i e c n exact at within span v far =
    let done = accounted-IsAt num exact world end_evt i e c n at within span in
    rw (refresh_lem num exact world end_evt i e c n at within span v far)
      (refl, done.time, ground arith)
