-- ===== src/Task.antt =====
-- include/tang/task.h.
pub mod Defs
pub mod Creation
pub mod Going
pub mod Counting
pub mod Ownership
pub mod Results
pub mod Awaiting
