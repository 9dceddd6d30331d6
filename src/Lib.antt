-- ===== src/Lib.antt =====
-- PARTSim: a simulator of real-time systems on a discrete-event engine.
--
-- The program. libmetasim is the engine: events wait in one global queue ordered by time, priority
-- and number of posting, and the singleton `Simulation` takes them one by one, moves the clock to
-- their time and runs their handlers. librtsim simulates real-time systems with it: a kernel keeps
-- its ready tasks in a scheduler, posts events to dispatch the first of them, and hands resources
-- out through a resource manager; servers give groups of tasks a budget. The code of a task is a
-- text that is split into instructions, and an instruction takes time on a processor.
--
-- The files, by what they model:
--   Tick            libmetasim/include/metasim/tick.hpp: `Tick` as an integer, its increments,
--                   decrements and conversion to `int`.
--   PriorityList    libmetasim/include/metasim/plist.hpp: `priority_list`, a `std::set` under a
--                   comparison. Order has sortedness, Elements what is in the list.
--   Event           libmetasim/event.cpp, libmetasim/include/metasim/event.hpp: `post`, `drop`,
--                   `process` on the queue, the counter and the events (`Sim`). Order has the
--                   invariant of the queue, Post and Drop one operation each, Repost a drop followed by a
--                   post, Contract the whole.
--   Simulation      libmetasim/simul.cpp: `sim_step`, `run_to`, `run`, `clearEventQueue`. Step and
--                   Order are about one step, Reach and MainCycle about many, Clear about
--                   the end of a run.
--   Scheduler       librtsim/scheduler/scheduler.cpp with Model for the task models of
--                   edfsched.cpp, rrsched.cpp, fpsched.hpp, rmsched.hpp, fifosched.hpp and
--                   truefifo.hpp. Order has the invariant of the ready queue, Insert the two
--                   operations on it, Service the contract with the kernel.
--   Resource        librtsim/resource/resource.cpp, resmanager.cpp, fcfsresmanager.cpp: counted
--                   resources with waiting queues. Serve is the reference for a release,
--                   Release and Single relate the two, Accounting is about requests, Units and
--                   Usage are about who holds a resource over time.
--   CapacityTimer   librtsim/capacitytimer.cpp, over any type of floating-point numbers (`Doubles`).
--   CbServer        librtsim/cbserver.cpp: the changes of status and budget of a constant bandwidth
--                   server. Handlers has the handlers of librtsim/server.cpp, Slice is about the
--                   time that a server executes, Budget about recharging, Arrival about waking.
--   Kernel          librtsim/kernel.cpp: the kernel of one processor. Dispatch is about the switch
--                   from one task to the next. Locking joins it with the resource manager, Handover
--                   is about a task that is refused a resource and gets it later.
--   Task            librtsim/task.cpp: instances of a task and the buffer of its arrivals. Handlers
--                   has the handlers of its events, Buffer, Arrivals, Running and Preemption the theorems.
--   ExecInstr       librtsim/exeinstr.cpp: an instruction that takes time. Progress has what the
--                   theorems ask, Slice is about preemption, Refresh about a change of speed.
--   Tokens          libmetasim/strtoken.cpp: splitting texts. Text has what it uses of strings, Split
--                   and RoundTrip are about pieces, Ends, Nested and Parameters about parameters.
--   Code            librtsim/task.cpp: `insertCode`. Calls is about one instruction, Printed about all.
--   MrtKernel       librtsim/mrtkernel.cpp: the kernel of several processors, with State for its
--                   members and what reads them. Invariant relates the members, Placement, Handlers
--                   and Reach keep that; Choice, Begin and GlobalEdf are about the task that a
--                   processor goes to, NewRun about a new run.
--   ResponseTime    librtsim/schedrta.cpp: response times and budgets of servers. Monotone and Least
--                   are about the response time, Search and Change about budgets.
--   RoundRobin      librtsim/scheduler/rrsched.cpp: slices of tasks and the event that ends one.
--                   Rotation is about the order of the tasks.
--   LockInstr       librtsim/waitinstr.cpp: the instructions that wait for a resource and release it.
--                   Blocking is about a wait that is refused.
--   SporadicServer  librtsim/sporadicserver.cpp: the sporadic server. Budget has `changeBudget`; Queues,
--                   Balance, Execution, Replenish and Reach are about what its budget adds up to,
--                   Slice is about executing, Cut, Smaller and Forget are
--                   about a smaller budget.
--   Random          libmetasim/randomvar.cpp: random numbers. Lehmer is about the generator, Repeat about
--                   uniform variables, Cycle about arrays of values.
--   Prelude         shared helpers: Tests, Lists, Int (integers over the native naturals) and Action
--                   (a method as a function from a state to an outcome and a state).
--   The modules called Examples hold concrete states, tests and applications of the theorems.
--
-- How the code is read. A pointer is a number, an object a record in a store, a method an action
-- that returns or throws and leaves a state. Virtual methods that a component calls of others are a
-- record that its definitions take (`Callbacks`, `Kernels`, `Surroundings`, `Machine`, `TaskWorld`,
-- `InstrWorld`, `RrWorld`, `LockWorld`, `SporadicWorld`); the laws that a theorem asks of them are
-- its hypotheses (`IsOrderly`, `Falls`, `Answers`, `Cooperated`, `EndsQuietly`, `IsQuiet`,
-- `IsInner`, `Acted`, `IsDetached`, `IsUnit`), and the examples instantiate them. A `double` is a
-- value of any type with the operations of `Doubles`; where a theorem needs its arithmetic,
-- `IsExact` says what. A `while` loop takes fuel. Clearing the queue needs one unit more than there
-- are events, a release two more than there are waiting requests, the search for a task on several
-- processors one more than there are ready tasks, the response time two more than the period, the
-- search of a budget one more than the period, and the splitting of a text one or two more than its
-- length; these are shown to be enough under the conditions of the theorems, and where a text has a
-- parenthesis that is not closed, no fuel is. The fuel of the search for a task to evict is one
-- more than there are ready tasks, since each round passes one. The search for the kernel of a task
-- in servers needs one more than there are servers around it. Whether `run_to` and the main cycle
-- of `run` end depends on the handlers: the fuel of the main cycle is more than a measure of the
-- work that falls with each step, and `run_to` may raise `out_of_fuel`. Signed overflow, which is
-- undefined in C++, is left out: a signed member is an integer without bounds. Conversions of ticks
-- to `int` and the wrap-around of string positions are written out.
--
-- The `schedule` of a task at the end of a switch on several processors may call the kernel back;
-- what the kernel then does is in the definitions.
--
-- Not modelled: the instructions that suspend; the polling and GRUB servers and SuperCBS;
-- statistics, the distributions of random variables other than the uniform one and the array of
-- values, power models and traces, which are floating-point or output; the configuration files and
-- the command line; the energy-aware kernel and the managers PIRManager and BWI, which the build
-- leaves out.
pub mod CapacityTimer
pub mod CbServer
pub mod Code
pub mod Event
pub mod ExecInstr
pub mod Kernel
pub mod LockInstr
pub mod MrtKernel
pub mod Prelude
pub mod PriorityList
pub mod Random
pub mod Resource
pub mod ResponseTime
pub mod RoundRobin
pub mod Scheduler
pub mod Simulation
pub mod SporadicServer
pub mod Task
pub mod Tick
pub mod Tokens
