-- ===== src/Queue/Commands.antt =====
-- `ExternalCommandRepository` (src/app/db/repositories.py): the table `external_commands` and the
-- statements on it, one transaction each. The rows stand in the order of their `id`; where two
-- rows have one `created_at`, `ORDER BY created_at` is read as keeping that order.
mod Defs
mod Updates
mod Patches
pub mod Merged
pub mod Leases
pub mod Attempts
unfoldable pub use Defs.*
unfoldable pub use Updates.*
unfoldable pub use Patches.*
