-- ===== src/Dispute.antt =====
-- Disputes about a backend's conclusion (src/app/workflows/backend_dispute_escalation.py): a customer
-- who contradicts the same conclusion twice is handed to a person.
mod Defs
unfoldable pub use Defs.*
pub mod Escalation
pub mod Rounds
mod Examples
