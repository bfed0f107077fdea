-- ===== src/EventLoop.antt =====
-- src/event_loop.cpp and include/tang/event_loop.h.
pub mod Defs
pub mod Timers
pub mod Loop
pub mod Firing
pub mod Callbacks
pub mod Erasing
pub mod Cancelling
