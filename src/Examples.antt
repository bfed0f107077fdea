-- ===== src/Examples.antt =====
-- Programs of the directory examples.
pub mod Channels
pub mod Loops
pub mod Overflow
pub mod Unbuffered
pub mod Selects
pub mod Rounds
pub mod Fairness
pub mod Received
pub mod Defaults
pub mod Attempts
pub mod Deferred
pub mod Hello
