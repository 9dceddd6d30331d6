-- ===== src/MrtKernel/Begin.antt =====
-- The begin of a dispatch: the switch that it starts, and the order in which EDF serves the tasks.
use partsim.Prelude.{
  ℕ, ◌+◌, ◌≡◌, ◌≢◌, refl, sym, subst, ◌∙◌, ◌⊎◌, inl, inr, true, false, Option, none, some, ◌==◌,
  ==_iff, arith, Bool-cases, length,
}
use partsim.Prelude.Int.{pos, ◌+ℤ◌, ◌≤ℤ◌, int_laws}
use partsim.Prelude.Action.{return}
use partsim.Tick.{Tick, max_tick}
use partsim.Event.{Sim}
use partsim.Event.Order.{IsValid}
use partsim.Event.Post.{post_lem, posted, posted-IsValid}
use partsim.MrtKernel.{
  MrtKernel, Machine, lookup_cpu, migrates, start_switch, vacate, overhead, switch_multi,
  first_not_dispatched, on_begin_dispatch_multi,
}
use partsim.MrtKernel.Invariant.{is_queued, lookup_cpu-remove_task_self, lookup_cpu-remove_task_ne}
use partsim.MrtKernel.Choice.{Choice, choice_lem}

-- `deschedule` as the begin of a dispatch relies on it: it returns, keeps the event queue well
-- formed, and leaves the clock and the ends of the context switches alone.
pub record IsQuiet {A : Type 0} (env : Machine A) : Type 0 where
  pub returns : (t : ℕ) (s : Sim × A) → (env.deschedule t s).0 ≡ return tt
  pub valid : (t : ℕ) (s : Sim × A) → IsValid s.0 → IsValid (env.deschedule t s).1.0
  pub clock : (t : ℕ) (s : Sim × A) → (env.deschedule t s).1.0.glob_time ≡ s.0.glob_time
  pub flags :
      (t : ℕ) (s : Sim × A) (p : ℕ)
      → is_queued (env.end_evt p) (env.deschedule t s).1.0 ≡ is_queued (env.end_evt p) s.0

-- The processor after its task, if it has one, has left it.
abbrev pub vacated : {A : Type 0} → Machine A → ℕ → MrtKernel A → MrtKernel A
vacated env p k = (vacate env p (k.curr_exe p) k).1

-- The end of the switch to `o`.
abbrev pub switch_end : {A : Type 0} → Machine A → ℕ → Option ℕ → MrtKernel A → Tick
switch_end env p o k = k.sim.glob_time +ℤ overhead env p o k

-- The state once a switch to `o` has begun.
abbrev pub switched : {A : Type 0} → Machine A → ℕ → Option ℕ → MrtKernel A → MrtKernel A
switched env p o k = record (start_switch p o k) {
  sim = posted (env.end_evt p) (switch_end env p o k) false k.sim;
}

module _ {A : Type 0} (env : Machine A) (p : ℕ) where
  record IsVacant (k u : MrtKernel A) : Type 0 where
    valid : IsValid u.sim
    clock : u.sim.glob_time ≡ k.sim.glob_time
    free : is_queued (env.end_evt p) u.sim ≡ is_queued (env.end_evt p) k.sim
    empty : u.curr_exe p ≡ none
    ready : u.sched ≡ k.sched
    delay : u.context_switch_delay ≡ k.context_switch_delay
    migration : u.migration_delay ≡ k.migration_delay

  vacates :
      (o : Option ℕ) (k : MrtKernel A)
      → IsQuiet env
      → k.curr_exe p ≡ o
      → IsValid k.sim
      → ((vacate env p o k).0 ≡ return tt) × IsVacant k (vacate env p o k).1
  vacates none k quiet e v = (
    refl,
    record {
      valid = v;
      clock = refl;
      free = refl;
      empty = e;
      ready = refl;
      delay = refl;
      migration = refl;
    },
  )
  vacates (some t) k quiet e v = (
    quiet.returns t (k.sim, k.rest),
    record {
      valid = quiet.valid t (k.sim, k.rest) v;
      clock = quiet.clock t (k.sim, k.rest);
      free = quiet.flags t (k.sim, k.rest) p;
      empty = ground arith;
      ready = refl;
      delay = refl;
      migration = refl;
    },
  )

  switch_lem :
      (o : Option ℕ) (k : MrtKernel A)
      → IsValid k.sim
      → is_queued (env.end_evt p) k.sim ≡ false
      → k.sim.glob_time ≤ℤ switch_end env p o k
      → switch_end env p o k ≢ max_tick
      → switch_multi env p o k ≡ (return tt, switched env p o k)
  switch_lem none k v free ahead far =
      rw (post_lem (env.end_evt p) (switch_end env p none k) false k.sim v free ahead far) refl
  switch_lem (some t) k v free ahead far =
      rw (post_lem (env.end_evt p) (switch_end env p (some t) k) false k.sim v free ahead far) refl

  -- With a migration or without one.
  overhead-cases :
      (o : Option ℕ) (k : MrtKernel A)
      → (overhead env p o k ≡ k.context_switch_delay)
        ⊎ (overhead env p o k ≡ k.context_switch_delay +ℤ k.migration_delay)
  overhead-cases none k = inl refl
  overhead-cases (some t) k = elim (Bool-cases (migrates p (k.old_exe t))) [
    | inl e ↦ inr (rw e refl)
    | inr e ↦ inl (rw e refl)
  ]

posted_time : (e : ℕ) (t : Tick) (s : Sim) → ((posted e t false s).events e).time ≡ t
posted_time e t s = ground arith

-- The members that `start_switch` sets.
module _ {A : Type 0} (p : ℕ) where
  started_task : (o : Option ℕ) (k : MrtKernel A) → (start_switch p o k).end_task p ≡ o
  started_task none k = ground arith
  started_task (some t) k = ground arith

  started_switching : (o : Option ℕ) (k : MrtKernel A) → (start_switch p o k).switching p ≡ true
  started_switching none k = ground arith
  started_switching (some t) k = ground arith

  started_empty : (o : Option ℕ) (k : MrtKernel A) → (start_switch p o k).curr_exe p ≡ k.curr_exe p
  started_empty none k = refl
  started_empty (some t) k = refl

  started_there :
      (o : Option ℕ) (k : MrtKernel A) (t : ℕ)
      → o ≡ some t
      → lookup_cpu t (start_switch p o k).dispatched ≡ some p
  started_there none k t e = absurd (cc)
  started_there (some u) k t e = ground arith

-- What the begin of a dispatch on `p` leaves.
pub record Begun {A : Type 0} (env : Machine A) (p : ℕ) (k k' : MrtKernel A) : Type 0 where
  pub chosen : Choice (vacated env p k) (k'.end_task p)
  pub planned : (t : ℕ) → k'.end_task p ≡ some t → lookup_cpu t k'.dispatched ≡ some p
  pub empty : k'.curr_exe p ≡ none
  pub under_way : k'.switching p ≡ true
  pub valid : IsValid k'.sim
  pub queued : is_queued (env.end_evt p) k'.sim ≡ true
  -- The switch ends once its delay is over, which a task that last ran elsewhere prolongs.
  pub moves :
      (t q : ℕ)
      → k'.end_task p ≡ some t
      → (vacated env p k).old_exe t ≡ some q
      → q ≢ p
      → (k'.sim.events (env.end_evt p)).time
        ≡ k.sim.glob_time +ℤ (k.context_switch_delay +ℤ k.migration_delay)
  pub stays :
      (t : ℕ)
      → k'.end_task p ≡ some t
      → ((vacated env p k).old_exe t ≡ none) ⊎ ((vacated env p k).old_exe t ≡ some p)
      → (k'.sim.events (env.end_evt p)).time ≡ k.sim.glob_time +ℤ k.context_switch_delay
  pub rests :
      k'.end_task p ≡ none
      → (k'.sim.events (env.end_evt p)).time ≡ k.sim.glob_time +ℤ k.context_switch_delay

module _ {A : Type 0} (env : Machine A) (p : ℕ) (k : MrtKernel A) (quiet : IsQuiet env)
    (v : IsValid k.sim) (free : is_queued (env.end_evt p) k.sim ≡ false)
    (delay : pos 0 ≤ℤ k.context_switch_delay) (migration : pos 0 ≤ℤ k.migration_delay)
    (far : k.sim.glob_time +ℤ k.context_switch_delay ≢ max_tick)
    (far_off : k.sim.glob_time +ℤ (k.context_switch_delay +ℤ k.migration_delay) ≢ max_tick) where
  abbrev after : MrtKernel A
  after = vacated env p k

  after_lem : ((vacate env p (k.curr_exe p) k).0 ≡ return tt) × IsVacant env p k after
  after_lem = vacates env p (k.curr_exe p) k quiet refl v

  abbrev next_task : Option ℕ
  next_task = first_not_dispatched (length after.sched.queue + 1) 0 after

  after_free : is_queued (env.end_evt p) after.sim ≡ false
  after_free = after_lem.1.free ∙ free

  ahead : (o : Option ℕ) → after.sim.glob_time ≤ℤ switch_end env p o after
  ahead o =
      let x = after_lem.1 in
      let d : pos 0 ≤ℤ after.context_switch_delay = rw x.delay delay in
      let m : pos 0 ≤ℤ after.migration_delay = rw x.migration migration in
      elim (overhead-cases env p o after) [
        | inl e ↦ rw e (omega (int_laws, d))
        | inr e ↦ rw e (omega (int_laws, d, m))
      ]

  in_time : (o : Option ℕ) → switch_end env p o after ≢ max_tick
  in_time o =
      let x = after_lem.1 in
      elim (overhead-cases env p o after) [
        | inl e ↦ rw (e, x.clock, x.delay) far
        | inr e ↦ rw (e, x.clock, x.delay, x.migration) far_off
      ]

  switched-valid : (o : Option ℕ) → IsValid (switched env p o after).sim
  switched-valid o =
      posted-IsValid (env.end_evt p) (switch_end env p o after) false after.sim after_lem.1.valid
        after_free (ahead o) (in_time o)

  moves-overhead :
      (t q : ℕ)
      → after.old_exe t ≡ some q
      → q ≢ p
      → overhead env p (some t) after ≡ k.context_switch_delay +ℤ k.migration_delay
  moves-overhead t q old away =
      let other : (q == p) ≡ false = ground arith in
      let x = after_lem.1 in rw (old, other, x.delay, x.migration) refl

  stays-overhead :
      (t : ℕ)
      → (after.old_exe t ≡ none) ⊎ (after.old_exe t ≡ some p)
      → overhead env p (some t) after ≡ k.context_switch_delay
  stays-overhead t (inl old) = rw old after_lem.1.delay
  stays-overhead t (inr old) =
      let here : (p == p) ≡ true = ground arith in rw (old, here) after_lem.1.delay

  -- When the switch to `o`, which is the task of the event, ends.
  ends_after :
      (o o' : Option ℕ) (d : Tick)
      → (start_switch p o after).end_task p ≡ o'
      → overhead env p o' after ≡ d
      → ((switched env p o after).sim.events (env.end_evt p)).time ≡ k.sim.glob_time +ℤ d
  ends_after o o' d e h =
      let same : o ≡ o' = sym (started_task p o after) ∙ e in
      let now = after_lem.1.clock in
      posted_time (env.end_evt p) (switch_end env p o after) after.sim ∙ rw (same, h, now) refl

  begun : (o : Option ℕ) → Choice after o → Begun env p k (switched env p o after)
  begun o c = record {
    chosen = subst (Choice after) (sym (started_task p o after)) c;
    planned = λ t e. started_there p o after t (sym (started_task p o after) ∙ e);
    empty = started_empty p o after ∙ after_lem.1.empty;
    under_way = started_switching p o after;
    valid = switched-valid o;
    queued = ground arith;
    moves = λ t q e old away. ends_after o (some t) _ e (moves-overhead t q old away);
    stays = λ t e old. ends_after o (some t) _ e (stays-overhead t old);
    rests = λ e. ends_after o none _ e (after_lem.1.delay);
  }

  begins : on_begin_dispatch_multi env p k ≡ (return tt, switched env p next_task after)
  unfolding on_begin_dispatch_multi
  begins = rw (after_lem.0) (
      switch_lem env p next_task after after_lem.1.valid after_free (ahead next_task)
        (in_time next_task))

-- The begin of a dispatch on a processor whose end of a switch is not queued, in a well-formed
-- event queue, with delays that are not negative and ends before `MAXTICK`, over tasks whose
-- `deschedule` is quiet. It returns. The task that ran has left the processor. The task to which it
-- switches is the first in the ready queue that is not dispatched, and there is none only if all
-- ready tasks are; it is dispatched to the processor. The switch is under way, and its end is
-- queued the delay of a context switch from now, plus that of a migration if the task last ran on
-- another processor.
pub on_begin_dispatch_multi-chooses :
    {A : Type 0} (env : Machine A) (p : ℕ) (k : MrtKernel A)
    → IsQuiet env
    → IsValid k.sim
    → is_queued (env.end_evt p) k.sim ≡ false
    → pos 0 ≤ℤ k.context_switch_delay
    → pos 0 ≤ℤ k.migration_delay
    → k.sim.glob_time +ℤ k.context_switch_delay ≢ max_tick
    → k.sim.glob_time +ℤ (k.context_switch_delay +ℤ k.migration_delay) ≢ max_tick
    → ((on_begin_dispatch_multi env p k).0 ≡ return tt)
      × Begun env p k (on_begin_dispatch_multi env p k).1
on_begin_dispatch_multi-chooses env p k quiet v free delay migration far far_off =
    rw (begins env p k quiet v free delay migration far far_off) (
      refl,
      begun env p k quiet v free delay migration far far_off _ (choice_lem (vacated env p k)),
    )

-- A task that waits for a processor once the one on `p` has left it.
abbrev pub IsWaiting : {A : Type 0} → ℕ → MrtKernel A → ℕ → Type 0
IsWaiting p k t = (lookup_cpu t k.dispatched ≡ none) ⊎ (k.curr_exe p ≡ some t)

module _ {A : Type 0} (env : Machine A) (p : ℕ) (k : MrtKernel A) where
  pub waiting-fresh : (t : ℕ) → IsWaiting p k t → lookup_cpu t (vacated env p k).dispatched ≡ none
  waiting-fresh t w = by_task (k.curr_exe p) refl w
    where
      by_task :
          (o : Option ℕ)
          → k.curr_exe p ≡ o
          → IsWaiting p k t
          → lookup_cpu t (vacate env p o k).1.dispatched ≡ none
      by_task none e (inl n) = n
      by_task none e (inr r) = absurd (cc)
      by_task (some u) e (inl n) = elim (Bool-cases (u == t)) [
        | inl x ↦ rw ((==_iff u t).0 x) (lookup_cpu-remove_task_self t k.dispatched)
        | inr x ↦ lookup_cpu-remove_task_ne u t k.dispatched x ∙ n
      ]
      by_task (some u) e (inr r) =
          let same : u ≡ t = ground arith in rw same (lookup_cpu-remove_task_self t k.dispatched)

pub vacated-sched :
    {A : Type 0} (env : Machine A) (p : ℕ) (k : MrtKernel A) → (vacated env p k).sched ≡ k.sched
vacated-sched env p k = same (k.curr_exe p)
  where
    same : (o : Option ℕ) → (vacate env p o k).1.sched ≡ k.sched
    same none = refl
    same (some t) = refl
