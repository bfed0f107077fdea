-- ===== src/Lib.antt =====
-- tang: coroutines, channels and a scheduler for C++20.
--
-- The program. A `task` (include/tang/task.h) owns a coroutine, which runs up to its first
-- suspension when it is made. `run` puts the handle of a suspended one into the queue of the
-- global scheduler (src/runtime.cpp), whose main thread and worker threads take handles from the
-- front, resume them, and put back those that suspended; `go` and `spawn` make a coroutine that
-- calls a function, and `run` it. A `channel` (include/tang/channel.h) keeps a buffer and the
-- coroutines that wait to send or to receive; it wakes them by `runtime::schedule`. `select`
-- (include/tang/select.h) runs one of several channel operations. The event loop
-- (src/event_loop.cpp) has timers and a poller (src/event_poller_linux.cpp). `RuntimeScope`
-- (include/tang/runtime_scope.h) starts and stops the runtime, `defer_guard`
-- (include/tang/defer.h) runs a function at the end of a scope, and the loggers
-- (include/tang/logger.h, src/logger.cpp) print lines.
--
-- The modules.
--   Prelude: shared names, Boolean tests, lists.
--   Channel: include/tang/channel.h. Defs is the state, Ops has one function per method
--     (`try_send`, `try_recv`, `register_send_waiter`, `register_recv_waiter`, `close`, the
--     operators), and SendAwaiter and RecvAwaiter are `channel_send_awaiter` and
--     `channel_recv_awaiter`. Runtime is what a channel needs of the runtime, a record of
--     operations and laws. System is one channel under many threads, as a step relation. Operators
--     is `operator<<` and `operator>>` with the tasks that they give. Queue is the abstract queue;
--     Refinement, Fifo, Closed, Waking, Invariant and Races hold theorems.
--   Scheduler: src/runtime.cpp. Defs is the state, Ops the methods that move tasks, Loop and Run
--     `scheduler::init` and `scheduler::run`, Stop `scheduler::stop`, Global the functions of the
--     namespace `tang::runtime`. Interface gives the channels their Runtime. Threads/Defs has the
--     loops of the main thread and of the worker threads as a step relation; Threads/Counter,
--     Invariant, Idle, Order and Once are about it. Its steps allow more than a program can do, so
--     what is shown of all sequences of steps holds of every run.
--     Counting, Progress, Leftover, Completion, Batch and Lifecycle hold theorems on the main loop
--     and on the global functions.
--   Task: include/tang/task.h. Defs is the methods of a task, Creation how a coroutine starts and
--     ends, with `go` and `spawn`; Going, Counting, Ownership, Results and Awaiting hold theorems.
--   Waiting: `yield` of include/tang/runtime.h, and waits on channels, under the scheduler's loops;
--     Late holds a theorem on what comes to such a wait afterwards, Stopped one on `stop` after a
--     `yield`.
--   Select: include/tang/select.h. Defs has the cases, Ops `select` and `select_awaiter`; Taken
--     is its loop with other threads in the midst of it; Choice, Blocking, Once and Awaiting hold
--     theorems.
--   EventLoop: src/event_loop.cpp. Defs has the timers and one round, Loop `event_loop::run`, and
--     Callbacks a sweep whose callbacks cancel timers; Timers, Firing, Erasing and Cancelling hold
--     theorems.
--   Poller: Interface is `event_poller` of include/tang/event_poller.h with the event loop's calls
--     that hand over to it. Events and Defs are src/event_poller_linux.cpp, Flags is
--     include/tang/event.h; Dispatch is a round whose sources change the poller; Laws, History and
--     Waiting hold theorems on them. Windows is
--     src/event_poller_win.cpp.
--   Sleep: include/tang/sleep.h and `task<void>::sleep`. Coroutine is `sleep` as the coroutine that
--     it is, with a theorem; Early holds one on a coroutine that sleeps.
--   RuntimeScope: include/tang/runtime_scope.h; RuntimeScope/Scheduler performs its calls on the
--     scheduler. Logger: include/tang/logger.h and src/logger.cpp; Logger/Streams is its
--     `LogStream`. Defer: include/tang/defer.h.
--   Examples: the directory examples. Channels and Unbuffered are the programs of
--     channel_example.cpp, Selects and Defaults those of select_example.cpp, Deferred is
--     defer_example.cpp, and Hello is hello_world.cpp; Loops, Overflow, Rounds, Fairness, Received and
--     Attempts hold theorems.
--   Tests: runs on concrete inputs.
--
-- How state is modelled. A method that holds the channel's mutex throughout is one function on the
-- state; `close` is two, since it marks the channel before it takes the mutex. A pointer is an
-- address, and the memory behind it a function. A coroutine handle is a number, 0 for null; its frame
-- is suspended, finished or destroyed. A use of a destroyed frame is undefined in C++; here such a
-- frame is not finished, and Scheduler/Stop says when the loop of `stop` uses none. `active_tasks_` is the bit pattern of a 32-bit `int`, which wraps around, and
-- so is `instance_count_`. `threads_.capacity()` is what was reserved. Times are whole nanoseconds that
-- do not overflow. A throw of an exception is a result. Texts are lists of bytes.
--
-- Parameters. What the bodies of the coroutines do is `Program`, and what a function given to `go`
-- does is `Function`. The address of a new coroutine frame is an argument, `h` or `frame`. What
-- the destructor of a result does to frames is `Destructor`. What other threads do between two
-- steps of a loop is a function: `others` in the loops of the scheduler and of `select`, `joined`
-- until the workers are joined. In Scheduler/Threads they are steps. Further parameters are
-- `can_spawn` (which threads the system makes), `hardware`
-- (`std::thread::hardware_concurrency()`), `shuffle` (`std::shuffle`), `cancels` (which timers a
-- callback cancels), `on_event` (what a source that is called does to the poller), `between` (what
-- others do between the test and the execution of a case of `select`), the kernel `Epoll` with the documented laws of epoll_ctl(2), the kernel
-- `Ports` with those of CreateIoCompletionPort, the answers of `epoll_wait` and of
-- GetQueuedCompletionStatus, the readings of the clock, `get_handle` of a source, the order in
-- which an unordered map is iterated, the time stamp, and the decimal print of a line number.
--
-- Bounds and fuel. The main loop runs on fuel. It may run for ever if the coroutines do, so its
-- results say how much fuel is enough where it ends: 501 rounds when there is nothing to run, the
-- suspensions and 502 rounds more for one coroutine, and one round more than there are coroutines
-- for coroutines that end at once. `select` runs on fuel for its busy wait alone. The event loop
-- has two rounds more than the number of the round in which it is stopped. The extended wait has
-- the 100 rounds of the code. The consumer's loop on a closed channel has one round more than the buffer
-- has values, and a loop `while (ch >> value)` one round. The loop of the example of `select` has
-- one round more than it takes until each channel was first in a shuffle as often as it has
-- values, and a sweep of the timers one round more than there are timers. Other functions recur on
-- lists. The results on the counter of the threads take fewer than 2 ^ 31 calls of `task_started`,
-- what the `int` counts.
--
-- Not modelled. Logging calls outside Logger, which change no state. The condition variables,
-- whose waits are rounds in which nothing happens. In Scheduler/Threads, a `stop` by another
-- thread than the main thread or while somebody is within `schedule`. `get_event_loop` and
-- `sleep_ms`. Another thread between the two reads of the main loop's test, in Loop; and between
-- `try_ready` and `try_execute` of a case, but for Select/Taken. Callbacks of timers that add timers, for which an unordered map may be rehashed.
-- `select` over channels of several value types. `sleep_task`, whose `await_suspend` does not
-- compile (sleep.h:115) and whose `create` gives a handle to a local variable that is gone, and
-- `sleep_promise`, which does not compile either. `shutdown_` of the
-- Windows poller, which nothing reads. The tests; examples/async_io_example.cpp, whose coroutines
-- are destroyed while they sleep, and examples/event_loop_example.cpp, which does not compile; of
-- the other examples, headings, thread ids and pauses.
pub mod Prelude
pub mod Channel
pub mod Scheduler
pub mod Task
pub mod Select
pub mod EventLoop
pub mod Poller
pub mod Defer
pub mod Waiting
pub mod Sleep
pub mod RuntimeScope
pub mod Logger
pub mod Examples
pub mod Tests
