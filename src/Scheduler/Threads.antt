-- ===== src/Scheduler/Threads.antt =====
-- The threads of src/runtime.cpp: the worker threads of `scheduler::init`, the main thread in
-- `scheduler::run`, and the callers of `scheduler::schedule`, one access to shared state at a time.
pub mod Defs
pub mod Counter
pub mod Invariant
pub mod Idle
pub mod Order
pub mod Once
