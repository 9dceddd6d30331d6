-- ===== src/SporadicServer/Handlers.antt =====
-- librtsim/sporadicserver.cpp: the handler of the replenishment event.
use partsim.Prelude.{Bool, none, List, [], ◌∷◌, ◌++◌, length, ltb, if◌then◌else◌}
use partsim.Prelude.Int.{◌+ℤ◌}
use partsim.Prelude.Action.{Action, get, modify, pure, raise, ◌>>=◌, ◌>>◌, null_dereference}
use partsim.Event.{drop}
use partsim.CbServer.{releasing, is_idle}
use partsim.SporadicServer.{
  SporadicServer, SporadicEvents, Replenishment, is_contending, on_sim, on_rest, check_repl,
  recharging_ready,
}

-- Whether `sched_->getFirst()` is not null; `sched_->notify(NULL)`; and `kernel->onArrival(this)`.
pub record SporadicWorld (D A : Type 0) : Type 0 where
  pub has_first : A → Bool
  pub notify_null : Action A (Unit {0})
  pub kernel_on_arrival : Action (SporadicServer D A) (Unit {0})

module _ {D A : Type 0} (world : SporadicWorld D A) (evt : SporadicEvents) where
  abbrev pub nobody : Action (SporadicServer D A) (Unit {0})
  nobody = do
    modify (λ s. record s { status = releasing; curr_exe = none })
    on_rest world.notify_null

  -- The server contends again if a task waits.
  abbrev pub wake_or_release : Action (SporadicServer D A) (Unit {0})
  wake_or_release s =
      if world.has_first s.rest
      then (recharging_ready >> world.kernel_on_arrival) s
      else if is_idle s.status
      then pure tt s
      else nobody s

  -- The front of the queue while the server does not contend, and while it does.
  abbrev pub replenish_now : List Replenishment → Action (SporadicServer D A) (Unit {0})
  replenish_now [] = raise null_dereference
  replenish_now ((_, b) ∷ rs) = do
    modify (λ s. record s { cap = s.cap +ℤ b; repl_queue = rs })
    check_repl evt
    wake_or_release

  abbrev pub replenish_later : List Replenishment → Action (SporadicServer D A) (Unit {0})
  replenish_later [] = raise null_dereference
  replenish_later (r ∷ rs) = do
    modify (λ s. record s { repl_queue = rs; capacity_queue = s.capacity_queue ++ r ∷ [] })
    if ltb 1 (length rs) then check_repl evt else pure tt

  unfoldable pub on_replenishment : Action (SporadicServer D A) (Unit {0})
  unfolding check_repl recharging_ready
  on_replenishment = do
    on_sim (drop evt.repl)
    s ← get
    if is_contending s.status then replenish_later s.repl_queue else replenish_now s.repl_queue
