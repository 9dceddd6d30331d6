-- ===== src/Simulation.antt =====
-- libmetasim/simul.cpp and libmetasim/include/metasim/simul.hpp: the simulation engine.
-- `World A` is the singleton `Simulation` beside the event queue and the state `A` of the simulated
-- entities. What the engine calls through virtual methods is the record `Callbacks`. Console
-- messages are left out. A `while` loop takes fuel, and raises `out_of_fuel` when that is used up.
pub mod Step
pub mod Order
pub mod Clear
pub mod Reach
pub mod MainCycle
pub mod Examples
use partsim.Prelude.{
  ℕ, zero, suc, ◌+◌, ◌≡◌, Bool, true, false, Option, none, some, ◌==◌, ltb, if◌then◌else◌, length,
}
use partsim.Prelude.Int.{ℤ, pos, negsuc, leb_ℤ, ltb_ℤ, eqb_ℤ}
use partsim.Prelude.Action.{
  Exc, Outcome, return, throw, Action, get, modify, pure, raise, on_part, ◌>>=◌, ◌>>◌,
  no_more_events_in_queue, out_of_fuel,
}
use partsim.Tick.{Tick}
use partsim.Event.{
  Event, Sim, new_event, default_priority, store, drop, post, restore_priority, get_first,
}

pub record World (A : Type 0) : Type 0 where
  pub sim : Sim
  pub rest : A
  pub num_runs : ℕ
  pub act_runs : ℕ
  pub end : Bool

-- `doit` is `Event::doit` and `probe` calls the particles of an event; the others are
-- `Entity::callNewRun`, `Entity::callEndRun` and the static methods of `BaseStat`.
pub record Callbacks (A : Type 0) : Type 0 where
  pub doit : ℕ → Action (World A) (Unit {0})
  pub probe : ℕ → Action (World A) (Unit {0})
  pub call_new_run : Action (World A) (Unit {0})
  pub call_end_run : Action (World A) (Unit {0})
  pub stat_init : ℕ → Action (World A) (Unit {0})
  pub stat_new_run : Action (World A) (Unit {0})
  pub stat_end_run : Action (World A) (Unit {0})
  pub stat_end_sim : Action (World A) (Unit {0})

module _ {A : Type 0} where
  abbrev pub with_sim : Sim → World A → World A
  with_sim s w = record w { sim = s }

  -- A method of `Event`, called from the engine.
  abbrev pub on_sim : {B : Type 0} → Action Sim B → Action (World A) B
  on_sim m = on_part (λ w. w.sim) with_sim m

  abbrev pub set_time : Tick → Action (World A) (Unit {0})
  set_time t = modify (λ w. with_sim (record w.sim { glob_time = t }) w)

  -- `_lastTime = _time`
  abbrev pub set_last_time : ℕ → Action (World A) (Unit {0})
  set_last_time e = modify (λ w.
      with_sim (store e (record (w.sim.events e) { last_time = (w.sim.events e).time }) w.sim) w)

  -- `delete e`: the destructor drops the event.
  abbrev pub delete_if_disposable : ℕ → Action (World A) (Unit {0})
  delete_if_disposable e w =
      if (w.sim.events e).disposable then on_sim (drop e) w else (return tt, w)

  -- `getNextEventTime`
  unfoldable pub get_next_event_time : Action (World A) Tick
  get_next_event_time w = elim (get_first w.sim) [
    | none ↦ (throw no_more_events_in_queue, w)
    | some e ↦ (return (w.sim.events e).time, w)
  ]

module _ {A : Type 0} (c : Callbacks A) where
  -- `Event::action`
  unfoldable pub action : ℕ → Action (World A) (Unit {0})
  action e = do set_last_time e; on_sim (restore_priority e); c.doit e; c.probe e

  -- `sim_step` from the event that it takes.
  unfoldable pub step_event : ℕ → Action (World A) Tick
  unfolding action
  step_event e = do
    on_sim (drop e)
    w ← get
    let my_time = (w.sim.events e).time
    set_time my_time
    action e
    delete_if_disposable e
    pure my_time

  unfoldable pub sim_step : Action (World A) Tick
  sim_step w = elim (get_first w.sim) [
    | none ↦ (throw no_more_events_in_queue, w)
    | some e ↦ step_event e w
  ]

  -- `while (getNextEventTime() <= stop) globTime = sim_step();`
  unfoldable pub run_to_loop : ℕ → Tick → Action (World A) (Unit {0})
  run_to_loop zero stop = raise out_of_fuel
  run_to_loop (suc fuel) stop = do
    next ← get_next_event_time
    elim (leb_ℤ next stop) [
      | true ↦ (sim_step >>= set_time) >> run_to_loop fuel stop
      | false ↦ pure tt
    ]

-- `clearEventQueue`
unfoldable pub clear_loop : {A : Type 0} → ℕ → Action (World A) (Unit {0})
clear_loop zero w = (throw out_of_fuel, w)
clear_loop (suc fuel) w = elim (get_first w.sim) [
  | none ↦ (return tt, w)
  | some e ↦ (on_sim (drop e) >> (delete_if_disposable e >> clear_loop fuel)) w
]

unfoldable pub clear_event_queue : {A : Type 0} → ℕ → Action (World A) (Unit {0})
unfolding clear_loop
clear_event_queue fuel = clear_loop fuel >> set_time (pos 0)

-- `MsgEvt`, a local object of `run_to`: `msg` is its address, and its priority is 18.
abbrev pub new_msg : {A : Type 0} → ℕ → Action (World A) (Unit {0})
new_msg msg = on_sim (modify (store msg (new_event (pos 18))))

-- The handler of the message only prints.
abbrev pub with_msg : {A : Type 0} → ℕ → Callbacks A → Callbacks A
with_msg msg c = record c { doit = λ e. if e == msg then pure tt else c.doit e }

-- The end of the `try` block: the destructor of the message, and the handler.
unfoldable pub caught : {A : Type 0} → ℕ → Outcome (Unit {0}) → Action (World A) Tick
caught msg (return _) w = (on_sim (drop msg) >> (λ w'. (return w'.sim.glob_time, w'))) w
caught msg (throw no_more_events_in_queue) w =
    (on_sim (drop msg) >> (λ w'. (return w'.sim.glob_time, w'))) w
caught msg (throw e) w = (on_sim (drop msg) >> raise e) w

-- The first part of `run`: whether to initialise, whether to end the simulation, and how many runs.
unfoldable pub plan_runs : ℤ → record { initialize : Bool; terminate : Bool; runs : ℕ }
plan_runs (negsuc (suc n)) = record { initialize = true; terminate = false; runs = 1 }
plan_runs (negsuc zero) = record { initialize = false; terminate = false; runs = 1 }
plan_runs (pos zero) = record { initialize = false; terminate = true; runs = 1 }
plan_runs (pos (suc zero)) = record { initialize = true; terminate = true; runs = 1 }
plan_runs (pos (suc (suc n))) = record {
  initialize = true;
  terminate = true;
  runs = if n == 0 then 3 else n + 2;
}

module _ {A : Type 0} (c : Callbacks A) where
  unfoldable pub run_to : (msg fuel : ℕ) → Tick → Action (World A) Tick
  unfolding caught
  run_to msg fuel stop w =
      let (r, w') =
        (new_msg msg >> (on_sim (post msg stop false) >> run_to_loop (with_msg msg c) fuel stop))
          w in
      caught msg r w'

  unfoldable pub init_runs : ℕ → Action (World A) (Unit {0})
  init_runs n = do c.stat_init n; set_time (pos 0); modify (λ w. record w { end = false })

  unfoldable pub init_single_run : Action (World A) (Unit {0})
  init_single_run = do set_time (pos 0); c.call_new_run; c.stat_new_run

  unfoldable pub end_single_run : ℕ → Action (World A) (Unit {0})
  unfolding clear_event_queue
  end_single_run fuel = do c.call_end_run; c.stat_end_run; clear_event_queue fuel

  -- `while (globTime < endTick) globTime = sim_step();`
  unfoldable pub main_cycle : ℕ → Tick → Action (World A) (Unit {0})
  main_cycle zero end_tick w = (throw out_of_fuel, w)
  main_cycle (suc fuel) end_tick w = elim (ltb_ℤ w.sim.glob_time end_tick) [
    | true ↦ ((sim_step c >>= set_time) >> main_cycle fuel end_tick) w
    | false ↦ (return tt, w)
  ]

  -- `catch (NoMoreEventsInQueue &e)`
  abbrev pub catch_no_more : Action (World A) (Unit {0}) → Action (World A) (Unit {0})
  catch_no_more m w =
      let (r, w') = m w in
      elim r [ throw no_more_events_in_queue ↦ (return tt, w') | other ↦ (other, w') ]

  unfoldable pub one_run : ℕ → Tick → Action (World A) (Unit {0})
  unfolding init_single_run main_cycle end_single_run
  one_run fuel end_tick = do
    init_single_run
    catch_no_more (main_cycle fuel end_tick)
    end_single_run fuel
    modify (λ w. record w { act_runs = w.act_runs + 1 })

  -- `while (actRuns < numRuns)`, by the runs that are left.
  unfoldable pub all_runs : ℕ → ℕ → Tick → Action (World A) (Unit {0})
  unfolding one_run
  all_runs fuel zero end_tick = pure tt
  all_runs fuel (suc left) end_tick = one_run fuel end_tick >> all_runs fuel left end_tick

  unfoldable pub run : ℕ → Tick → ℤ → Action (World A) (Unit {0})
  unfolding plan_runs init_runs all_runs
  run fuel end_tick n = do
    let plan = plan_runs n
    modify (λ w. record w { num_runs = plan.runs })
    if plan.initialize then init_runs plan.runs else pure tt
    modify (λ w. record w { act_runs = 0 })
    all_runs fuel plan.runs end_tick
    modify (λ w. record w { end = true })
    if plan.terminate then c.stat_end_sim else pure tt
