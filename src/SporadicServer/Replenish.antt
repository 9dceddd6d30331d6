-- ===== src/SporadicServer/Replenish.antt =====
-- A replenishment moves budget and changes no total.
use partsim.Prelude.{
  ◌<◌, ◌≡◌, refl, sym, ap, ◌∙◌, arith, true, false, List, [], ◌∷◌, ◌++◌, length, ltb, inl, inr,
  Bool-cases,
}
use partsim.Prelude.Int.{◌+ℤ◌, int_laws}
use partsim.Prelude.Action.{Leaves, Leaves-seq, Leaves-intro}
use partsim.Event.{drop}
use partsim.CbServer.{ready, is_idle}
use partsim.SporadicServer.{
  SporadicServer, SporadicEvents, Replenishment, is_contending, now, check_repl, on_rest,
  recharging_ready, prepare_replenishment,
}
use partsim.SporadicServer.Handlers.{
  SporadicWorld, wake_or_release, replenish_now, replenish_later, on_replenishment,
}
use partsim.SporadicServer.Queues.{amount, amount-append}
use partsim.SporadicServer.Balance.{
  total, is_queued, IsAccounted, check_repl_ends, append-IsAccounted, rest-IsAccounted,
}
use partsim.SporadicServer.Execution.{IsSettled}

-- A change from outside: of the events, the tasks and the kernel, but not of the replenishment
-- event.
pub record Outside {D A : Type 0} (evt : SporadicEvents) (s s' : SporadicServer D A) : Type 0 where
  pub members : s' ≡ record s { sim = s'.sim; curr_exe = s'.curr_exe; rest = s'.rest }
  pub event : is_queued evt.repl s'.sim ≡ is_queued evt.repl s.sim

pub Outside-IsAccounted :
    {D A : Type 0} (evt : SporadicEvents) (s s' : SporadicServer D A)
    → Outside evt s s'
    → IsAccounted evt s
    → IsAccounted evt s'
Outside-IsAccounted evt s s' out i = rw out.members (record {
  balance = i.balance;
  current = i.current;
  behind = λ c h. i.behind c (sym out.event ∙ h);
  waiting = λ h. i.waiting (sym out.event ∙ h);
})

-- The kernel's `onArrival` changes only what is outside of the server.
abbrev pub IsDetached : {D A : Type 0} → SporadicWorld D A → SporadicEvents → Type 0
IsDetached {D} {A} world evt =
    (s : SporadicServer D A) → Outside evt s (world.kernel_on_arrival s).1

module _ {D A : Type 0} (world : SporadicWorld D A) (evt : SporadicEvents)
    (detached : IsDetached world evt) where
  wake-IsAccounted :
      (s : SporadicServer D A)
      → is_contending s.status ≡ false
      → IsSettled evt s
      → Leaves (IsAccounted evt) (wake_or_release world evt s)
  unfolding recharging_ready prepare_replenishment
  wake-IsAccounted s out (balance, waiting) = elim (Bool-cases (world.has_first s.rest)) [
    | inl some_task ↦ rw some_task (
        Leaves-intro (IsAccounted evt) (world.kernel_on_arrival _) (λ a e.
          Outside-IsAccounted evt _ _ (detached _)
            (append-IsAccounted evt s (now s +ℤ s.p) ready balance waiting)))
    | inr no_task ↦ elim (Bool-cases (is_idle s.status)) [
      | inl at_rest ↦ rw (no_task, at_rest) (rest-IsAccounted evt s out balance waiting)
      | inr busy ↦
          rw (no_task, busy)
            (Leaves-intro (IsAccounted evt) (on_rest world.notify_null _)
              (λ a e. rest-IsAccounted evt _ refl balance waiting))
    ]
  ]

  module _ (s : SporadicServer D A) (i : IsAccounted evt s)
      (queued : is_queued evt.repl s.sim ≡ true) where
    -- The event has left the queue.
    abbrev fired : SporadicServer D A
    fired = record s { sim = (drop evt.repl s.sim).1 }

    unqueued : is_queued evt.repl fired.sim ≡ false
    unfolding drop
    unqueued = ground arith

    now-IsAccounted :
        (rs : List Replenishment)
        → s.repl_queue ≡ rs
        → is_contending s.status ≡ false
        → Leaves (IsAccounted evt) (replenish_now world evt rs fired)
    now-IsAccounted [] e out = tt
    now-IsAccounted ((t, b) ∷ rs) e out =
        let s' : SporadicServer D A = record fired { cap = s.cap +ℤ b; repl_queue = rs } in
        let back : s.cap +ℤ b +ℤ amount s.capacity_queue +ℤ amount rs ≡ total s =
          rw e (omega int_laws) in
        Leaves-seq (IsAccounted evt) (check_repl evt) (wake_or_release world evt) _ (
          check_repl_ends evt (λ s'. Leaves (IsAccounted evt) (wake_or_release world evt s'))
            (record fired { cap = s.cap +ℤ b; repl_queue = rs }) (λ h. absurd (cc (h, unqueued)))
            (λ sim waiting.
              wake-IsAccounted (record fired { cap = s.cap +ℤ b; repl_queue = rs; sim = sim }) out
                (back ∙ i.balance, waiting)))

    later-IsAccounted :
        (rs : List Replenishment)
        → s.repl_queue ≡ rs
        → is_contending s.status ≡ true
        → Leaves (IsAccounted evt) (replenish_later world evt rs fired)
    later-IsAccounted [] e on = tt
    later-IsAccounted ((t, b) ∷ rs) e on =
        let more : 1 < length s.repl_queue = i.behind on queued in
        let long : 0 < length rs =
          let size = ap (λ (l : List Replenishment). length l) e in omega (arith, size, more) in
        let moved : s.cap +ℤ amount (s.capacity_queue ++ (t, b) ∷ []) +ℤ amount rs ≡ total s =
          rw (e, amount-append s.capacity_queue t b) (omega int_laws) in
        elim (Bool-cases (ltb 1 (length rs))) [
          | inl many ↦ rw many (
              check_repl_ends evt (IsAccounted evt)
                (record fired { repl_queue = rs; capacity_queue = s.capacity_queue ++ (t, b) ∷ [] })
                (λ _. long)
                (λ sim waiting. record {
                  balance = moved ∙ i.balance;
                  current = λ _. long;
                  behind = λ _ _. ground arith;
                  waiting = waiting;
                }))
          | inr one ↦ rw one (record {
            balance = moved ∙ i.balance;
            current = λ _. long;
            behind = λ _ h. absurd (cc (h, unqueued));
            waiting = λ _. long;
          })
        ]

    pub on_replenishment-IsAccounted : Leaves (IsAccounted evt) (on_replenishment world evt s)
    unfolding on_replenishment drop
    on_replenishment-IsAccounted = elim (Bool-cases (is_contending s.status)) [
      | inl on ↦ rw on (later-IsAccounted s.repl_queue refl on)
      | inr out ↦ rw out (now-IsAccounted s.repl_queue refl out)
    ]
