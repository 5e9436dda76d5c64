-- ===== src/Sop.antt =====
-- The standard procedures for money cases: which slots a case needs, and what the bot does next
-- (src/app/workflows/sop_definitions.py, src/app/workflows/sop_policy.py, and
-- `compute_missing_slots` of src/app/workflows/llm_sop_dialogue_planner.py).
mod Defs
mod Missing
mod Policy
unfoldable pub use Defs.*
unfoldable pub use Missing.*
unfoldable pub use Policy.*
pub mod Safety
mod Examples
