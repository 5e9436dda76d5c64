-- ===== src/Database.antt =====
-- The tables of the conversations and the transactions over all tables (src/app/db/repositories.py):
-- `ConversationRepository`, `ConversationMessageRepository`, `ExternalResultTransactionRepository`,
-- `GatewayTransactionRepository`, and the keys of src/app/services/conversations.py.
mod Memory
mod Conversations
mod States
mod Messages
mod Tables
mod Transactions
mod Silence
mod Takeover
mod Quiet
mod Inserted
pub mod Silenced
pub mod Once
mod Examples
pub use Memory.*
unfoldable pub use Conversations.*
unfoldable pub use States.*
unfoldable pub use Messages.*
unfoldable pub use Tables.*
unfoldable pub use Transactions.*
