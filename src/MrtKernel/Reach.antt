-- ===== src/MrtKernel/Reach.antt =====
-- Whatever happens to the kernel, no task runs on two processors.
use partsim.Prelude.{ℕ, ◌≡◌, ◌≢◌, sym, ◌∙◌, true, false, none, some, arith}
use partsim.Event.{Sim, drop}
use partsim.Scheduler.{Scheduler}
use partsim.MrtKernel.{
  MrtKernel, Machine, on_sim, dispatch, on_arrival, suspend, on_end, on_begin_dispatch_multi,
  on_end_dispatch_multi,
}
use partsim.MrtKernel.Invariant.{IsWired, IsConsistent, is_queued, moved}
use partsim.MrtKernel.Placement.{drop_begin, dispatch-IsConsistent}
use partsim.MrtKernel.Handlers.{
  IsCooperative, EndsQuietly, on_arrival-IsConsistent, suspend-IsConsistent, on_end-IsConsistent,
  on_begin_dispatch_multi-IsConsistent, on_end_dispatch_multi-IsConsistent,
}

-- What may happen to the kernel: its methods are called, the engine takes one of its events from
-- the queue and runs it, at the end of a switch with a task whose `schedule` does not call the
-- kernel back, or the world around it changes and leaves the ends of its switches alone.
pub data Step {A : Type 0} (env : Machine A) : MrtKernel A → MrtKernel A → Type 0 where
  arrives : (t : ℕ) (k : MrtKernel A) → Step env k (on_arrival env t k).1
  suspends : (t : ℕ) (k : MrtKernel A) → Step env k (suspend env t k).1
  ends : (t : ℕ) (k : MrtKernel A) → Step env k (on_end env t k).1
  asked : (k : MrtKernel A) → Step env k (dispatch env k).1
  begins :
      (p : ℕ) (k : MrtKernel A)
      → Step env k (on_begin_dispatch_multi env p (on_sim (drop (env.begin_evt p)) k).1).1
  finishes :
      (p : ℕ) (k : MrtKernel A)
      → is_queued (env.end_evt p) k.sim ≡ true
      → EndsQuietly env p (on_sim (drop (env.end_evt p)) k).1
      → Step env k (on_end_dispatch_multi env p (on_sim (drop (env.end_evt p)) k).1).1
  elsewhere :
      (k : MrtKernel A) (s : Sim) (sched : Scheduler) (rest : A)
      → ((p : ℕ) → is_queued (env.end_evt p) s ≡ is_queued (env.end_evt p) k.sim)
      → Step env k (record k { sim = s; sched = sched; rest = rest })

pub data Reaches {A : Type 0} (env : Machine A) : MrtKernel A → MrtKernel A → Type 0 where
  here : (k : MrtKernel A) → Reaches env k k
  next : (k k' k'' : MrtKernel A) → Step env k k' → Reaches env k' k'' → Reaches env k k''

-- No processor runs a task or switches to one.
pub record IsIdle {A : Type 0} (env : Machine A) (k : MrtKernel A) : Type 0 where
  pub runs : (p : ℕ) → k.curr_exe p ≡ none
  pub switches : (p : ℕ) → k.switching p ≡ false
  pub queued : (p : ℕ) → is_queued (env.end_evt p) k.sim ≡ false

module _ {A : Type 0} (env : Machine A) (wired : IsWired env)
    (stops : IsCooperative env env.deschedule) where
  step-IsConsistent :
      (k k' : MrtKernel A) → Step env k k' → IsConsistent env k → IsConsistent env k'
  step-IsConsistent k _ (arrives t _) c = on_arrival-IsConsistent env wired stops t k c
  step-IsConsistent k _ (suspends t _) c = suspend-IsConsistent env wired stops t k c
  step-IsConsistent k _ (ends t _) c = on_end-IsConsistent env wired stops t k c
  step-IsConsistent k _ (asked _) c = dispatch-IsConsistent env wired k c
  step-IsConsistent k _ (begins p _) c =
      on_begin_dispatch_multi-IsConsistent env wired stops p (on_sim (drop (env.begin_evt p)) k).1
        (drop_begin env wired p k c)
  step-IsConsistent k _ (finishes p _ q quiet) c =
      on_end_dispatch_multi-IsConsistent env wired stops p k c q quiet
  step-IsConsistent k _ (elsewhere _ s sched rest same) c =
      moved env wired k c s sched rest (λ p h. c.ends p (sym (same p) ∙ h))

  reached : (k k' : MrtKernel A) → Reaches env k k' → IsConsistent env k → IsConsistent env k'
  reached k _ (here _) c = c
  reached k k' (next _ u _ s r) c = reached u k' r (step-IsConsistent k u s c)

idle-IsConsistent :
    {A : Type 0} (env : Machine A) (k : MrtKernel A) → IsIdle env k → IsConsistent env k
idle-IsConsistent env k i = record {
  running = λ p t e. let none_runs = i.runs p in absurd (ground arith);
  planned = λ p t s e. let none_switches = i.switches p in absurd (ground arith);
  idle = λ p s. i.runs p;
  ends = λ p h. let none_queued = i.queued p in absurd (ground arith);
}

-- The kernel of several processors, from a state in which none of them runs a task or switches to
-- one, after any sequence of arrivals, suspensions, ends of tasks, requests for a dispatch,
-- dispatch events that the engine runs, and changes around it that queue or drop no end of a
-- switch, also where one of them throws. The two events of each processor are its own; `deschedule`
-- queues or drops no end of a switch; and the `schedule` at the end of a switch returns, does
-- neither, and does not call the kernel back. No task runs on two processors; a processor in a
-- context switch runs nothing; and a task to which a processor switches runs nowhere.
pub Reaches-one_processor :
    {A : Type 0} (env : Machine A) (k k' : MrtKernel A)
    → IsWired env
    → IsCooperative env env.deschedule
    → IsIdle env k
    → Reaches env k k'
    → ((p q t : ℕ) → k'.curr_exe p ≡ some t → k'.curr_exe q ≡ some t → p ≡ q)
      × ((p : ℕ) → k'.switching p ≡ true → k'.curr_exe p ≡ none)
      × ((p q t : ℕ) → k'.switching p ≡ true → k'.end_task p ≡ some t → k'.curr_exe q ≢ some t)
Reaches-one_processor env k k' wired stops i r =
    let c = reached env wired stops k k' r (idle-IsConsistent env k i) in
    (
      (λ p q t at_p at_q.
          let here_p = c.running p t at_p in let here_q = c.running q t at_q in ground arith),
      c.idle,
      λ p q t s plans at_q.
          let here_p = c.planned p t s plans in
          let here_q = c.running q t at_q in
          let still = c.idle p s in
          let same : p ≡ q = ground arith in absurd (cc (same, still, at_q)),
    )
