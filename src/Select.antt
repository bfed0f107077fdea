-- ===== src/Select.antt =====
-- include/tang/select.h.
pub mod Defs
pub mod Ops
pub mod Choice
pub mod Blocking
pub mod Awaiting
pub mod Taken
pub mod Once
