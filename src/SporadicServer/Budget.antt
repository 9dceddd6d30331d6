-- ===== src/SporadicServer/Budget.antt =====
-- librtsim/sporadicserver.cpp: `changeBudget`, which takes a smaller budget out of the capacity,
-- then of the replenishments that have passed, then of those to come. A range of a list from an
-- iterator to its end is a list.
use partsim.Prelude.{Bool, true, false, not, ◌||◌, List, [], ◌∷◌, if◌then◌else◌}
use partsim.Prelude.Int.{pos, ◌+ℤ◌, ◌-ℤ◌, ltb_ℤ, eqb_ℤ}
use partsim.Prelude.Action.{
  Action, get, modify, pure, raise, unless, ◌>>=◌, ◌>>◌, assertion_failed, null_dereference,
}
use partsim.Tick.{Tick}
use partsim.Event.{post, drop}
use partsim.CapacityTimer.{Doubles}
use partsim.CbServer.{is_executing}
use partsim.SporadicServer.{
  SporadicServer, SporadicEvents, Replenishment, on_sim, now, consume, credit, start_vtime,
  stop_vtime,
}

-- `std::min`
abbrev pub min : Tick → Tick → Tick
min a b = if ltb_ℤ b a then b else a

-- What is left of `delta` after the loop over a queue, and the queue.
unfoldable pub cut : Tick → List Replenishment → Tick × List Replenishment
cut delta [] = (delta, [])
cut delta ((t, b) ∷ rs) =
    let rest = cut (delta -ℤ min delta b) rs in
    if ltb_ℤ (pos 0) delta then (rest.0, (t, b -ℤ min delta b) ∷ rest.1) else (delta, (t, b) ∷ rs)

-- `last_repl_time` after the loop, and whether the loop reached the end of the queue.
unfoldable pub last_repl_time : Tick → Tick → List Replenishment → Tick
last_repl_time last delta [] = last
last_repl_time last delta ((t, b) ∷ rs) =
    let later = last_repl_time t (delta -ℤ min delta b) rs in
    if ltb_ℤ (pos 0) delta then later else last

unfoldable pub reaches_end : Tick → List Replenishment → Bool
reaches_end delta [] = true
reaches_end delta ((t, b) ∷ rs) =
    let later = reaches_end (delta -ℤ min delta b) rs in
    if ltb_ℤ (pos 0) delta then later else false

unfoldable pub drop_empty : List Replenishment → List Replenishment
drop_empty [] = []
drop_empty ((t, b) ∷ rs) = if eqb_ℤ b (pos 0) then drop_empty rs else (t, b) ∷ rs

module _ {D A : Type 0} where
  -- The loops over the two queues. `begin` of an empty queue is dereferenced before the second.
  abbrev pub cut_queues : Tick → List Replenishment → Action (SporadicServer D A) Tick
  cut_queues delta [] = raise null_dereference
  cut_queues delta ((t, b) ∷ rs) = do
    unless (eqb_ℤ (cut delta ((t, b) ∷ rs)).0 (pos 0) || not (reaches_end delta ((t, b) ∷ rs)))
        assertion_failed
    modify (λ s. record s { repl_queue = (cut delta ((t, b) ∷ rs)).1 })
    pure (last_repl_time t delta ((t, b) ∷ rs))

  -- From the capacity on, `delta` is taken where there is some.
  abbrev pub cut_all : Tick → Action (SporadicServer D A) Tick
  cut_all delta s =
      let x = min delta s.cap in
      let queue = cut (delta -ℤ x) s.capacity_queue in
      cut_queues queue.0 s.repl_queue (record s { cap = s.cap -ℤ x; capacity_queue = queue.1 })

module _ {D A : Type 0} (evt : SporadicEvents) where
  abbrev pub post_repl : List Replenishment → Action (SporadicServer D A) (Unit {0})
  post_repl [] = raise null_dereference
  post_repl ((t, _) ∷ _) = on_sim (post evt.repl t false)

  -- The event of the front moves to the one behind it.
  abbrev pub repost_repl : List Replenishment → Action (SporadicServer D A) (Unit {0})
  repost_repl rs s =
      if (s.sim.events evt.repl).is_in_queue
      then (on_sim (drop evt.repl) >> post_repl rs) s
      else pure tt s

  unfoldable pub trim_repl : List Replenishment → Action (SporadicServer D A) (Unit {0})
  trim_repl [] = pure tt
  trim_repl ((t, b) ∷ rs) = do
    let rest = (modify (λ s. record s { repl_queue = rs }) >> repost_repl rs) >> trim_repl rs
    if eqb_ℤ b (pos 0) then rest else pure tt

module _ {D A : Type 0} (num : Doubles D) (evt : SporadicEvents) where
  abbrev pub when_executing :
      Action (SporadicServer D A) (Unit {0}) → Action (SporadicServer D A) (Unit {0})
  when_executing m s = if is_executing s.status then m s else pure tt s

  abbrev pub post_end : Action (SporadicServer D A) (Unit {0})
  post_end s = on_sim (post evt.band_ex (s.last_time +ℤ s.cap) false) s

  unfoldable pub grow : Tick → Action (SporadicServer D A) Tick
  unfolding credit
  grow n = do
    modify (λ s. record s { cap = s.cap +ℤ (n -ℤ s.q) })
    when_executing (do
      consume
      credit
      on_sim (drop evt.band_ex)
      stop_vtime num
      modify (λ s. record s { last_time = now s })
      post_end
      start_vtime num n)
    modify (λ s. record s { q = n })
    s ← get
    pure (now s)

  -- The server that executes goes on: at capacity zero its budget is exhausted now.
  abbrev pub resume : Action (SporadicServer D A) (Unit {0})
  resume s =
      (start_vtime num s.q
          >> (if eqb_ℤ s.cap (pos 0)
              then (on_sim (drop evt.band_ex) >> on_sim (post evt.band_ex (now s) false))
              else post_end))
        s

  unfoldable pub shrink : Tick → Action (SporadicServer D A) Tick
  unfolding credit cut last_repl_time reaches_end drop_empty trim_repl
  shrink n = do
    when_executing (do
      consume
      credit
      modify (λ s. record s { last_time = now s })
      on_sim (drop evt.band_ex)
      stop_vtime num)
    s ← get
    t ← cut_all (s.q -ℤ n)
    modify (λ s. record s { q = n; capacity_queue = drop_empty s.capacity_queue })
    s' ← get
    trim_repl evt s'.repl_queue
    when_executing resume
    pure t

  unfoldable pub sporadic_change_budget : Tick → Action (SporadicServer D A) Tick
  unfolding grow shrink
  sporadic_change_budget n s =
      if ltb_ℤ s.q n
      then grow n s
      else if eqb_ℤ n s.q
      then pure (now s) s
      else if ltb_ℤ (pos 0) n
      then shrink n s
      else pure (pos 0) s

-- `changeQ`
unfoldable pub change_q : {D A : Type 0} → Tick → Action (SporadicServer D A) Tick
change_q n = do modify (λ s. record s { q = n }); pure (pos 0)
