-- ===== src/SporadicServer/Execution.antt =====
-- The operations of a sporadic server lose no budget and gain none.
use partsim.Prelude.{
  ◌<◌, ◌≡◌, ◌≢◌, refl, sym, ◌∙◌, arith, true, false, List, [], ◌∷◌, length, inl, inr, Bool-cases,
}
use partsim.Prelude.Int.{◌+ℤ◌, ◌-ℤ◌, int_laws}
use partsim.Prelude.Action.{Action, ◌>>◌, Leaves, Leaves-then, Leaves-seq}
use partsim.Event.{post, drop}
use partsim.CapacityTimer.{Doubles, get_value}
use partsim.CbServer.{idle, ready, executing, releasing, recharging, is_executing}
use partsim.SporadicServer.{
  SporadicServer, SporadicEvents, Replenishment, is_contending, executed, credit, check_repl, now,
  set_status, on_sim, stop_vtime, start_vtime, stop_executing, leave, take_capacity,
  ready_executing, executing_ready, executing_releasing, executing_recharging, releasing_ready,
  prepare_replenishment,
}
use partsim.SporadicServer.Queues.{amount}
use partsim.SporadicServer.Balance.{
  total, is_queued, drop_flags, IsAccounted, moved, credit_lem, start_ends, post_ends,
  check_repl_ends, stop_ends, append-IsAccounted, rest-IsAccounted,
}

-- Everything is accounted for, whatever the status.
abbrev pub IsSettled : {D A : Type 0} → SporadicEvents → SporadicServer D A → Type 0
IsSettled evt s = (total s ≡ s.q) × (is_queued evt.repl s.sim ≡ true → 0 < length s.repl_queue)

take-IsAccounted :
    {D A : Type 0} (evt : SporadicEvents) (s : SporadicServer D A)
    → IsSettled evt s
    → (queue : List Replenishment) → s.capacity_queue ≡ queue
    → Leaves (IsAccounted evt) (take_capacity queue s)
unfolding prepare_replenishment
take-IsAccounted evt s (balance, waiting) [] e =
    rest-IsAccounted evt (record s { status = recharging }) refl balance waiting
take-IsAccounted evt s (balance, waiting) ((t, b) ∷ rs) e =
    let used : s.cap +ℤ b +ℤ amount rs +ℤ amount s.repl_queue ≡ total s = rw e (omega int_laws) in
    append-IsAccounted evt (record s { capacity_queue = rs; cap = s.cap +ℤ b; last_time = now s })
      (t +ℤ s.p) ready (used ∙ balance) waiting

leave-IsAccounted :
    {D A : Type 0} (num : Doubles D) (evt : SporadicEvents) (s : SporadicServer D A)
    → IsSettled evt s
    → evt.repl ≢ evt.idle_evt
    → (v : D) → Leaves (IsAccounted evt) (leave num evt v s)
leave-IsAccounted num evt s (balance, waiting) other v =
    elim (Bool-cases (num.le v (num.of_tick (now s)))) [
      | inl reached ↦
          rw reached (rest-IsAccounted evt (record s { status = idle }) refl balance waiting)
      | inr ahead ↦ rw ahead (
          Leaves-seq (IsAccounted evt) (on_sim (post evt.idle_evt (num.ceil v) false))
            (set_status releasing) s
            (post_ends evt (λ s'. IsAccounted evt (record s' { status = releasing })) s evt.idle_evt
              (num.ceil v) other
              (λ sim same.
                rest-IsAccounted evt (record s { status = releasing; sim = sim }) refl balance
                  (λ h. waiting (sym same ∙ h)))))
    ]

module _ {D A : Type 0} (num : Doubles D) (evt : SporadicEvents) (s : SporadicServer D A)
    (i : IsAccounted evt s) where
  pub releasing_ready-IsAccounted :
      evt.repl ≢ evt.idle_evt → Leaves (IsAccounted evt) (releasing_ready evt s)
  unfolding releasing_ready drop
  releasing_ready-IsAccounted apart =
      append-IsAccounted evt (record s { sim = (drop evt.idle_evt s.sim).1 }) (now s +ℤ s.p) ready
        i.balance (λ h. i.waiting (ground (arith, drop_flags evt.idle_evt evt.repl s.sim)))

  pub ready_executing-IsAccounted :
      is_contending s.status ≡ true
      → evt.repl ≢ evt.band_ex
      → Leaves (IsAccounted evt) (ready_executing num evt s)
  unfolding ready_executing
  ready_executing-IsAccounted runs apart =
      Leaves-seq (IsAccounted evt) (start_vtime num s.q) _
        (record s { status = executing; last_time = now s })
        (start_ends num _ (record s { status = executing; last_time = now s }) s.q
          (λ t.
            post_ends evt (IsAccounted evt)
              (record s { status = executing; last_time = now s; vtime = t }) evt.band_ex
              (now s +ℤ s.cap) apart
              (λ sim same. record {
                balance = i.balance;
                current = λ _. i.current runs;
                behind = λ _ h. i.behind runs (sym same ∙ h);
                waiting = λ h. i.waiting (sym same ∙ h);
              })))

  module _ (runs : is_executing s.status ≡ true) (apart : evt.repl ≢ evt.band_ex) where
    contends : is_contending s.status ≡ true
    contends = ground arith

    -- The budget is used, and its end no longer awaited.
    abbrev paused : SporadicServer D A
    paused = record s { cap = s.cap -ℤ executed s; sim = (drop evt.band_ex s.sim).1 }

    paused_flag : is_queued evt.repl paused.sim ≡ is_queued evt.repl s.sim
    unfolding drop
    paused_flag = ground arith

    pub executing_ready-IsAccounted : Leaves (IsAccounted evt) (executing_ready num evt s)
    unfolding executing_ready drop
    executing_ready-IsAccounted =
        Leaves-seq (IsAccounted evt) (stop_vtime num) credit (record paused { status = ready })
          (stop_ends num (λ s'. Leaves (IsAccounted evt) (credit s'))
            (record paused { status = ready })
            (λ t.
              let (ys, e, sum, size) =
                credit_lem (record paused { status = ready; vtime = t }) (i.current contends) in
              rw e (record {
                balance = rw sum (
                    moved s.cap (executed s) (amount s.capacity_queue) (amount s.repl_queue)
                    ∙ i.balance);
                current = λ _. let long = i.current contends in omega (arith, size, long);
                behind = λ _ h.
                    let more = i.behind contends (sym paused_flag ∙ h) in omega (arith, size, more);
                waiting = λ _. let long = i.current contends in omega (arith, size, long);
              })))

    -- The used budget goes to the last replenishment, and the first one is awaited.
    paid :
        (f : Action (SporadicServer D A) (Unit {0})) (P : SporadicServer D A → Type 0)
        → ((s' : SporadicServer D A) → IsSettled evt s' → Leaves P (f s'))
        → Leaves P ((credit >> (check_repl evt >> f)) paused)
    unfolding drop
    paid f P next =
        let (ys, e, sum, size) = credit_lem paused (i.current contends) in
        let long : 0 < length ys = let l = i.current contends in omega (arith, size, l) in
        let balance : total (record paused { repl_queue = ys }) ≡ s.q =
          rw sum (
            moved s.cap (executed s) (amount s.capacity_queue) (amount s.repl_queue) ∙ i.balance) in
        rw e (
          Leaves-seq P (check_repl evt) f (record paused { repl_queue = ys })
            (check_repl_ends evt (λ s'. Leaves P (f s')) (record paused { repl_queue = ys })
              (λ _. long)
              (λ sim waiting.
                next (record paused { repl_queue = ys; sim = sim }) (balance, waiting))))

    stop-IsSettled : Leaves (IsSettled evt) (stop_executing num evt s)
    unfolding drop
    stop-IsSettled = rw runs (
        paid (stop_vtime num) (IsSettled evt)
          (λ s' settled. stop_ends num (IsSettled evt) s' (λ t. settled)))

    pub executing_releasing-IsAccounted :
        evt.repl ≢ evt.idle_evt → Leaves (IsAccounted evt) (executing_releasing num evt s)
    unfolding executing_releasing
    executing_releasing-IsAccounted other =
        Leaves-then (IsSettled evt) (IsAccounted evt) (stop_executing num evt)
          (λ _ s'. leave num evt (get_value num (now s') s'.vtime) s') s stop-IsSettled
          (λ _ s' settled.
            leave-IsAccounted num evt s' settled other (get_value num (now s') s'.vtime))

    pub executing_recharging-IsAccounted : Leaves (IsAccounted evt) (executing_recharging num evt s)
    unfolding executing_recharging drop
    executing_recharging-IsAccounted =
        paid (stop_vtime num >> λ s'. take_capacity s'.capacity_queue s') (IsAccounted evt)
          (λ s' settled.
            Leaves-seq (IsAccounted evt) (stop_vtime num) (λ s'. take_capacity s'.capacity_queue s')
              s'
              (stop_ends num (λ s'. Leaves (IsAccounted evt) (take_capacity s'.capacity_queue s'))
                s'
                (λ t.
                  take-IsAccounted evt (record s' { vtime = t }) settled s'.capacity_queue refl)))
