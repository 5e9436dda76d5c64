-- ===== src/Language.antt =====
-- Language codes, fixed notices and the choice of the reply's language
-- (src/app/services/language_policy.py, src/app/services/ai_failure_policy.py).
mod Codes
pub mod Policy
unfoldable pub use Codes.*
pub mod Supported
pub mod Reply
mod Examples
