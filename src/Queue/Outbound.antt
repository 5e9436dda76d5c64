-- ===== src/Queue/Outbound.antt =====
-- `OutboundMessageRepository` (src/app/db/repositories.py): the table `outbound_messages` and the
-- statements on it. A method is a function from the rows to the rows, and runs in one transaction.
-- The rows stand in the order of their `id`, the auto-increment primary key. `SKIP LOCKED` skips
-- nothing here, since no two transactions overlap.
mod Defs
mod Leasing
mod Updates
pub mod Exclusion
pub mod Workers
pub mod Retry
pub mod Recovery
pub mod Dedup
unfoldable pub use Defs.*
unfoldable pub use Leasing.*
unfoldable pub use Updates.*
