-- ===== src/CommandWorker.antt =====
-- The external command worker (src/app/workers/external_command_worker.py).
pub mod Effects
pub mod Config
pub mod Target
pub mod Reasons
pub mod Classify
pub mod Records
pub mod Marking
pub mod Handoff
pub mod Followups
pub mod Cards
pub mod Queries
pub mod Process
pub mod Counting
pub mod Restraint
pub mod Rules
pub mod Paths
pub mod Outcome
mod Examples
