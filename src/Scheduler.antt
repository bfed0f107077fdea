-- ===== src/Scheduler.antt =====
-- src/runtime.cpp and include/tang/runtime.h.
pub mod Defs
pub mod Ops
pub mod Loop
pub mod Counting
pub mod Stop
pub mod Run
pub mod Global
pub mod Interface
pub mod Progress
pub mod Leftover
pub mod Completion
pub mod Batch
pub mod Lifecycle
pub mod Threads
