-- ===== src/Queue/Results.antt =====
-- `ExternalCommandResultRepository` (src/app/db/repositories.py): the table
-- `external_command_results` and the statements on it, one transaction each, read as in the queue
-- of commands.
mod Defs
mod Updates
unfoldable pub use Defs.*
unfoldable pub use Updates.*
pub mod Leases
mod Examples
