-- ===== src/CommandWorker/Paths.antt =====
-- What the paths through the processing of a command call, and that each settles its row
-- (src/app/workers/external_command_worker.py).
mod Marking
mod Failing
pub mod Permits
pub mod Handoff
pub mod Followups
pub mod Cards
pub mod Queries
pub mod Process
pub mod Repeat
