-- ===== src/Lib.antt =====
-- Verification of coroutinelib, a library of stackful coroutines for servers.
--
-- The program's parts. A `Fiber` is a coroutine with a stack and a saved context (src/fiber). A
-- `Scheduler` runs fibers and callbacks on some threads, from one queue (src/scheduler). A
-- `TimerManager` keeps timers in order of their deadlines and hands out the callbacks of those that
-- have expired (src/timer). An `IOManager` is both, and lets the fiber that runs when there is
-- nothing to do wait in `epoll_wait` for ready descriptors and for the next timer (src/iomanager).
-- The callbacks of timers and the fibers and callbacks of descriptors go into the scheduler's queue
-- by `scheduleLock`, which wakes a waiting thread by a byte in a pipe. The threads are made by
-- `Thread`, whose constructor waits on a `Semaphore` (src/thread). The hooks of `sleep`, `usleep`
-- and `nanosleep` suspend the calling fiber instead of the thread, and leave a timer that schedules
-- it again (src/hook). src/main.cc is a server on the `IOManager`, epoll/epoll.cc the same server on
-- epoll alone, and 20co has four programs with the coroutines of C++20.
--
-- The files.
--   Base, Faults, Callback: lists as stores of objects, results with the ways the code can fail to
--     return (assertion, null pointer, `pthread_exit`, `exit`, deadlock, undefined behaviour), the
--     `std::function` values.
--   Thread: `Semaphore` and `Thread`. Thread/Semaphore: any number of threads in `wait` and
--     `signal`, as a step relation. Thread/Handshake: the constructor and `Thread::run`,
--     interleaved, with the condition variable. Thread/Handle: `join`, the destructor and the names.
--   Timer: the record `Timer`, its constructor and comparator. Timer/OrderedSet: `std::set` with
--     that comparator. Timer/Manager: `TimerManager`, one function for each method of
--     src/timer/timer.cc (`cancel`, `refresh`, `reset`, `add_timer`, `add_condition_timer`,
--     `get_next_timer`, `list_expired_cb`, `has_timer`, `detect_clock_rollover`). Timer/Expiry,
--     Timer/Endless, Timer/NextTimer, Timer/Cancel, Timer/Collision, Timer/Front and Timer/Calls are
--     about these methods.
--   Fiber: `Fiber`, the thread-local variables and the counters of src/fiber/fiber.cc as the record
--     `World`, with one function for each method. `on_cpu` says whose code the thread runs; `resume`
--     and `yield` go as far as the switch of contexts, and what the other fiber does is the next
--     call. Fiber/Switch, Fiber/Returns, Fiber/Life, Fiber/Ids and Fiber/Nested are about them.
--   Scheduler: `ScheduleTask`, the queue and the counters, `scheduleLock`, the locked block of `run`
--     (`take_task`) and `stopping`. Scheduler/Dispatch: a round of the loop of `run` on one thread,
--     with the switches to its fibers; Scheduler/Dispatch/Idle: `idle`; Scheduler/Dispatch/Loop: the
--     loop; Scheduler/Dispatch/Serves: the loop with what is posted meanwhile. Scheduler/Workers:
--     that loop on any number of threads, as a relation between states of the whole system, one step
--     for each stretch of code between two accesses to the shared data; Scheduler/Dispatch/Refines
--     relates the two. Scheduler/Lifecycle: the constructor, `start` and `stop`.
--   Epoll: what the kernel's epoll instance does, as an interface with laws. Epoll/Example meets it.
--   IoManager: the manager's data, `tickle`, `stopping`, `contextResize`. IoManager/Event: the event
--     flags. IoManager/Context: `FdContext`. IoManager/Events: `addEvent`, `delEvent`,
--     `cancelEvent`, `cancelAll`. IoManager/Idle: a round of `idle`. IoManager/Kernel: the operation
--     of `epoll_ctl` that each call chooses, and the calls on the manager and the epoll instance
--     together. IoManager/Registry: a registry of waiting tasks that the calls implement.
--     IoManager/Actions: the manager with its threads, timers and events, in any order.
--     IoManager/Reports and IoManager/IdleRound are about the round, the other files of IoManager
--     about the events and `stopping`.
--   Hook: the three hooks, `set_hook_enable`. Hook/Init: `hook_init` and the pointers to the
--     original functions. Hook/Sleep, Hook/Wake and Hook/Served are about the three.
--   Server: Server/Receive and Server/Accept model src/main.cc, Server/Loop models epoll/epoll.cc.
--     Server/Relisten and Server/Ordered are about them.
--   Generators: Generators/Sequence models 20co/coroutine.cc, Generators/Async 20co/AsyncSeq.cc,
--     Generators/Optional 20co/AsyncOpt.cc, Generators/Single 20co/AsyncSin.cc. Generators/Counts
--     and Generators/Same are about the first two.
--   The Tests modules apply the theorems to concrete states.
--
-- Numbers and bounds. Time points and durations count nanoseconds as natural numbers; they do not
-- wrap, which the 64-bit signed clock of the library grants until the year 2262 for periods of less
-- than 2^43 milliseconds. `sleep_ms` and `nanosleep_ms` wrap as the C++ types of src/hook/hook.cc
-- do. `m_pendingEventCount`, `s_fiber_id` and `s_fiber_count` wrap at 2^64; the counter of
-- `sequence` in 20co must not pass INT_MAX. The loops of `listExpiredCb` and of `run` have a bound
-- on their rounds as an argument, with `none` when it runs out, and the loops over the generators of
-- 20co one with a flag that says whether the loop ended. How many rounds are enough is stated below.
-- All other loops recur on the list that they walk over: the loops that wait for the system recur on
-- the list of its answers.
--
-- What stands outside the code: the results of `getcontext` and `swapcontext`, the readings of the
-- clock, and what `epoll_wait` and the socket calls return are arguments of the functions that use
-- them. The result of `epoll_ctl` is the argument `fails`, or the answer of the interface in Epoll.
--
-- What is not modelled: the destructors of `IOManager` and of the generators, the hooks of sockets,
-- which are empty (the socket calls of src/main.cc are taken to be the system's), and the programs
-- under tests. In the rounds of `run` the code of a fiber yields or returns: one that resumes another
-- fiber there, or an exception out of a callback, is not followed. The memory model of the C++
-- atomics is not modelled: a step reads and writes its counters at once.
pub mod Base
pub mod Faults
pub mod Callback
pub mod Thread
pub mod Timer
pub mod Fiber
pub mod Generators
pub mod Scheduler
pub mod Epoll
pub mod IoManager
pub mod Hook
pub mod Server
