-- ===== src/Queue.antt =====
-- The work queues in MySQL (src/app/db/repositories.py).
pub mod Lease
pub mod Rows
mod Examples
pub mod Outbound
pub mod Commands
pub mod Results
pub mod Inbound
