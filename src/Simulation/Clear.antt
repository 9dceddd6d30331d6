-- ===== src/Simulation/Clear.antt =====
-- `Simulation::clearEventQueue` ends, and leaves nothing.
use partsim.Prelude.{
  ℕ, zero, suc, ◌<◌, ◌≡◌, refl, ap, ◌∙◌, ==_iff, if◌then◌else◌, Bool, true, false, List, [], ◌∷◌,
  some, arith, Option-cases, inl, inr, length,
}
use partsim.Prelude.Int.{pos}
use partsim.Prelude.Action.{Outcome, return}
use partsim.PriorityList.{front}
use partsim.PriorityList.Order.{contains}
use partsim.PriorityList.Elements.{length-erase-front, front-none}
use partsim.Event.{Sim, less, drop}
use partsim.Event.Order.{IsValid, less-IsStrictWeak}
use partsim.Event.Drop.{dropped, dropped-IsValid, contains-dropped, dropped_unqueued}
use partsim.Simulation.Step.{advance-IsValid}
use partsim.Simulation.{World, with_sim, delete_if_disposable, clear_loop, clear_event_queue}

one_more : {e : ℕ} (xs : List ℕ) → front xs ≡ some e → (n : ℕ) × (length xs ≡ suc n)
unfolding front
one_more [] f = absurd (cc)
one_more (x ∷ xs) f = (length xs, refl)

module _ {A : Type 0} where
  abbrev Emptied : (n : ℕ) → Outcome (Unit {0}) × World A → Type 0
  Emptied n (r, w) = (r ≡ return tt) × IsValid w.sim × (length w.sim.event_queue ≡ n)

  either :
      (n : ℕ) (x y : Outcome (Unit {0}) × World A) (b : Bool)
      → Emptied n x
      → Emptied n y
      → Emptied n (if b then x else y)
  either n x y true p q = p
  either n x y false p q = q

  -- One round takes the front alone, whether or not the event is deleted.
  round_lem :
      (e : ℕ) (w : World A) (n : ℕ)
      → IsValid w.sim
      → front w.sim.event_queue ≡ some e
      → length w.sim.event_queue ≡ suc n
      → Emptied n (delete_if_disposable e (with_sim (dropped e w.sim) w))
  unfolding drop
  round_lem e w n v f l =
      let v' = dropped-IsValid e w.sim v in
      let shorter : length (dropped e w.sim).event_queue ≡ n = omega (
        arith,
        length-erase-front (less w.sim.events) (less-IsStrictWeak w.sim.events) e w.sim.event_queue
            f,
      ) in
      let gone : contains e (dropped e w.sim).event_queue ≡ false =
        ground (arith, contains-dropped e w.sim e v, ==_iff e e) in
      either n _ _ ((dropped e w.sim).events e).disposable
        (
          refl,
          dropped-IsValid e (dropped e w.sim) v',
          ap length (dropped_unqueued e (dropped e w.sim) v' gone) ∙ shorter,
        )
        (refl, v', shorter)

  clear_loop_lem :
      (fuel : ℕ) (w : World A)
      → IsValid w.sim
      → length w.sim.event_queue < fuel
      → ((clear_loop fuel w).0 ≡ return tt)
        × IsValid (clear_loop fuel w).1.sim
        × ((clear_loop fuel w).1.sim.event_queue ≡ [])
  unfolding clear_loop drop
  clear_loop_lem zero w v h = elim h [ ]
  clear_loop_lem (suc fuel) w v h = elim (Option-cases (front w.sim.event_queue)) [
    | inl n ↦ rw (n, clear_loop) (refl, v, front-none w.sim.event_queue n)
    | inr (e, f) ↦
        let (n, l) = one_more w.sim.event_queue f in
        let (returns, valid, shorter) = round_lem e w n v f l in
        rw (f, clear_loop)
          (rw returns (
            clear_loop_lem fuel (delete_if_disposable e (with_sim (dropped e w.sim) w)).1 valid
              (omega arith)))
  ]

-- `clearEventQueue` of a well-formed queue, with more fuel than there are queued events: it
-- returns, the queue is empty and well formed, and the clock is back at 0.
pub clear_event_queue-empties :
    {A : Type 0} (fuel : ℕ) (w : World A)
    → IsValid w.sim
    → length w.sim.event_queue < fuel
    → ((clear_event_queue fuel w).0 ≡ return tt)
      × IsValid (clear_event_queue fuel w).1.sim
      × ((clear_event_queue fuel w).1.sim.event_queue ≡ [])
      × ((clear_event_queue fuel w).1.sim.glob_time ≡ pos 0)
unfolding clear_event_queue
clear_event_queue-empties fuel w v h =
    let (returns, valid, empty) = clear_loop_lem fuel w v h in
    rw returns (refl, reset (clear_loop fuel w).1.sim valid empty, empty, refl)
  where
    reset : (s : Sim) → IsValid s → s.event_queue ≡ [] → IsValid (record s { glob_time = pos 0 })
    reset s v e = advance-IsValid (pos 0) s v (λ z c. absurd (cc (ap (contains z) e)))
