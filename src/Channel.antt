-- ===== src/Channel.antt =====
-- include/tang/channel.h.
pub mod Runtime
pub mod Defs
pub mod Ops
pub mod SendAwaiter
pub mod RecvAwaiter
pub mod System
pub mod Waking
pub mod Invariant
pub mod Queue
pub mod Refinement
pub mod Fifo
pub mod Closed
pub mod Operators
pub mod Races
