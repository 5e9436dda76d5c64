-- ===== src/Idle.antt =====
-- The LiveChat idle timer (src/app/workers/livechat_idle_timer.py): it asks a silent customer
-- whether they are still there, and later closes the chat.
mod Effects
mod Defs
mod Process
mod Timer
mod Candidates
unfoldable pub use Effects.*
unfoldable pub use Defs.*
unfoldable pub use Process.*
unfoldable pub use Timer.*
unfoldable pub use Candidates.*
pub mod Guarded
pub mod Waiting
pub mod Backoff
mod Examples
