-- ===== src/Poller.antt =====
-- src/event_poller_linux.cpp, with include/tang/event.h.
pub mod Events
pub mod Defs
pub mod Flags
pub mod Laws
pub mod Dispatch
pub mod History
pub mod Waiting
pub mod Interface
pub mod Windows
