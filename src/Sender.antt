-- ===== src/Sender.antt =====
-- The sender worker (src/app/workers/sender_worker.py): it sends the leased outbound messages of a
-- conversation, one after the other.
mod Effects
mod Classify
mod Message
mod Delivery
mod Group
unfoldable pub use Effects.*
unfoldable pub use Classify.*
unfoldable pub use Message.*
unfoldable pub use Delivery.*
unfoldable pub use Group.*
pub mod Recording
pub mod Concluding
pub mod Human
pub mod Reference
pub mod Retries
mod Examples
pub mod Settled
