-- ===== src/Tests.antt =====
-- Runs of the modules on concrete inputs.
mod Channels
mod Runtime
mod Threads
mod Selects
mod Pollers
mod Others
mod Programs
