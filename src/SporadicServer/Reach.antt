-- ===== src/SporadicServer/Reach.antt =====
-- Whatever happens to a sporadic server that wakes only when its budget is back, no budget is lost
-- or gained, and a server that contends has a replenishment to add to.
use partsim.Prelude.{◌≡◌, ◌≢◌, refl, true, [], inl, inr, Bool-cases}
use partsim.Prelude.Int.{◌+ℤ◌, int_laws}
use partsim.Prelude.Action.{return, Leaves, Leaves-return, Leaves-seq, Leaves-intro}
use partsim.CapacityTimer.{Doubles, set_value}
use partsim.CbServer.{idle, ready, is_executing, is_idle}
use partsim.SporadicServer.{
  SporadicServer, SporadicEvents, is_contending, now, on_vtime, idle_ready, releasing_ready,
  ready_executing, executing_ready, executing_releasing, executing_recharging,
  prepare_replenishment, releasing_idle,
}
use partsim.SporadicServer.Handlers.{SporadicWorld, on_replenishment}
use partsim.SporadicServer.Queues.{amount}
use partsim.SporadicServer.Balance.{is_queued, IsAccounted, append-IsAccounted, rest-IsAccounted}
use partsim.SporadicServer.Execution.{
  releasing_ready-IsAccounted, ready_executing-IsAccounted, executing_ready-IsAccounted,
  executing_releasing-IsAccounted, executing_recharging-IsAccounted,
}
use partsim.SporadicServer.Replenish.{
  Outside, IsDetached, Outside-IsAccounted, on_replenishment-IsAccounted,
}

-- What can happen to a server. It wakes when nothing of its budget is outstanding. The step
-- `replenished` is the one of the engine that runs the replenishment event.
pub data Step {D A : Type 0} (num : Doubles D) (evt : SporadicEvents) (world : SporadicWorld D A)
    (s s' : SporadicServer D A) : Type 0 where
  wakes :
      s.capacity_queue ≡ []
      → s.repl_queue ≡ []
      → idle_ready num s ≡ (return tt, s')
      → Step num evt world s s'
  wakes_early : releasing_ready evt s ≡ (return tt, s') → Step num evt world s s'
  runs :
      is_contending s.status ≡ true
      → ready_executing num evt s ≡ (return tt, s')
      → Step num evt world s s'
  preempted :
      is_executing s.status ≡ true
      → executing_ready num evt s ≡ (return tt, s')
      → Step num evt world s s'
  finished :
      is_executing s.status ≡ true
      → executing_releasing num evt s ≡ (return tt, s')
      → Step num evt world s s'
  exhausted :
      is_executing s.status ≡ true
      → executing_recharging num evt s ≡ (return tt, s')
      → Step num evt world s s'
  rests : releasing_idle s ≡ (return tt, s') → Step num evt world s s'
  replenished :
      is_queued evt.repl s.sim ≡ true
      → on_replenishment world evt s ≡ (return tt, s')
      → Step num evt world s s'
  outside : Outside evt s s' → Step num evt world s s'

pub data Reaches {D A : Type 0} (num : Doubles D) (evt : SporadicEvents) (world : SporadicWorld D A)
    (s : SporadicServer D A) : SporadicServer D A → Type 0 where
  here : Reaches num evt world s s
  next :
      {t u : SporadicServer D A}
      → Reaches num evt world s t
      → Step num evt world t u
      → Reaches num evt world s u

module _ {D A : Type 0} (num : Doubles D) (evt : SporadicEvents) (world : SporadicWorld D A)
    (detached : IsDetached world evt) (band : evt.repl ≢ evt.band_ex)
    (idles : evt.repl ≢ evt.idle_evt) where
  idle_ready-IsAccounted :
      (s : SporadicServer D A)
      → s.capacity_queue ≡ []
      → s.repl_queue ≡ []
      → IsAccounted evt s
      → Leaves (IsAccounted evt) (idle_ready num s)
  unfolding idle_ready prepare_replenishment
  idle_ready-IsAccounted s none_passed none_left i = elim (Bool-cases (is_idle s.status)) [
    | inl at_rest ↦
        let whole : s.q +ℤ amount s.capacity_queue +ℤ amount s.repl_queue ≡ s.q =
          rw (none_passed, none_left) (omega int_laws) in
        rw at_rest (
          Leaves-seq (IsAccounted evt) (on_vtime (set_value num (num.of_tick (now s))))
            (prepare_replenishment (now s)) _
            (Leaves-intro _
              (on_vtime (set_value num (num.of_tick (now s)))
                (record s { status = ready; cap = s.q }))
              (λ a e.
                append-IsAccounted evt (record s { cap = s.q; vtime = _ }) (now s +ℤ s.p) ready
                  whole i.waiting)))
    | inr busy ↦ rw busy tt
  ]

  Step-IsAccounted :
      {s s' : SporadicServer D A} → Step num evt world s s' → IsAccounted evt s → IsAccounted evt s'
  unfolding releasing_idle
  Step-IsAccounted {s} (wakes c r e) i =
      Leaves-return (IsAccounted evt) _ e (idle_ready-IsAccounted s c r i)
  Step-IsAccounted {s} (wakes_early e) i =
      Leaves-return (IsAccounted evt) _ e (releasing_ready-IsAccounted num evt s i idles)
  Step-IsAccounted {s} (runs h e) i =
      Leaves-return (IsAccounted evt) _ e (ready_executing-IsAccounted num evt s i h band)
  Step-IsAccounted {s} (preempted h e) i =
      Leaves-return (IsAccounted evt) _ e (executing_ready-IsAccounted num evt s i h band)
  Step-IsAccounted {s} (finished h e) i =
      Leaves-return (IsAccounted evt) _ e (executing_releasing-IsAccounted num evt s i h band idles)
  Step-IsAccounted {s} (exhausted h e) i =
      Leaves-return (IsAccounted evt) _ e (executing_recharging-IsAccounted num evt s i h band)
  Step-IsAccounted {s} (rests e) i =
      Leaves-return (IsAccounted evt) _ e
        (rest-IsAccounted evt (record s { status = idle }) refl i.balance i.waiting)
  Step-IsAccounted {s} (replenished q e) i =
      Leaves-return (IsAccounted evt) _ e (on_replenishment-IsAccounted world evt detached s i q)
  Step-IsAccounted {s} {s'} (outside o) i = Outside-IsAccounted evt s s' o i

-- Of the steps of a server that wakes only when nothing of its budget is outstanding, whose
-- replenishment event is not the one of its budget's end or of its going idle, and whose kernel's
-- `onArrival` changes no member of it: the capacity, the replenishments that have passed and those
-- to come always hold the whole budget together; a server that is ready or executes has a
-- replenishment to add its use to, and one more if the replenishment event is queued; that event is
-- queued only for a replenishment.
pub Reaches-IsAccounted :
    {D A : Type 0} (num : Doubles D) (evt : SporadicEvents) (world : SporadicWorld D A)
    → IsDetached world evt
    → evt.repl ≢ evt.band_ex
    → evt.repl ≢ evt.idle_evt
    → {s s' : SporadicServer D A} → IsAccounted evt s
    → Reaches num evt world s s'
    → IsAccounted evt s'
Reaches-IsAccounted num evt world detached band idles i here = i
Reaches-IsAccounted num evt world detached band idles i (next r step) =
    Step-IsAccounted num evt world detached band idles step
      (Reaches-IsAccounted num evt world detached band idles i r)
