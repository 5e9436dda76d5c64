-- ===== src/Queue/Inbound.antt =====
-- `InboundEventRepository` (src/app/db/repositories.py): the table `inbound_events` and the
-- statements on it, one transaction each. The rows stand in the order of their `id`.
mod Defs
unfoldable pub use Defs.*
pub mod Chats
mod Examples
