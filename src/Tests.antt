-- ===== src/Tests.antt =====
-- Concrete inputs at which the theorems apply.
mod Wire
mod Threads
mod Game
mod Startup
mod Accounts
mod System
mod Running
