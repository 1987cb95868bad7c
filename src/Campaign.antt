-- ===== src/Campaign.antt =====
-- The campaign tables and the transactions on them (app/campaigns, app/workers).
pub mod Rows
pub mod Lifecycle
pub mod Claims
pub mod Dispatch
pub mod Cutoff
pub mod Evaluation
pub mod Completion
pub mod Reservation
pub mod Inflight
pub mod Storage
pub mod Extraction
pub mod Worker
pub mod Transactions
