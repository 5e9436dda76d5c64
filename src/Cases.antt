-- ===== src/Cases.antt =====
-- The cases that the bot opens in Telegram for a customer's missing money: their status
-- (src/app/services/telegram_case_status.py), and to which of them a later message belongs
-- (src/app/services/telegram_case_followup.py); and the follow-ups that are sent there
-- (src/app/db/telegram_repositories.py).
mod Status
mod Resolution
mod Tables
mod Updates
unfoldable pub use Status.*
unfoldable pub use Resolution.*
unfoldable pub use Tables.*
unfoldable pub use Updates.*
pub mod Sticky
pub mod Matching
pub mod Order
pub mod Numbers
pub mod Reserving
mod Examples
