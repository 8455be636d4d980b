-- ===== src/Tests.antt =====
-- Inputs at which the theorems are applied, and the theorems at them.
pub mod Fixtures
mod Wire
mod Routes
mod Discoveries
mod Runs
mod Buffers
mod Slots
mod Medium
mod Names
mod Schedules
