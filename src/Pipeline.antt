-- ===== src/Pipeline.antt =====
-- The synchronous pipeline: app/orchestrator.py, and `validate_accounting` of app/run_audit.py, which
-- its results have to pass.
pub mod Ledger
pub mod Stages
pub mod Run
pub mod Accounting
pub mod Books
pub mod Filing
pub mod Moves
pub mod Filter
pub mod Extract
pub mod Cut
pub mod Evaluate
pub mod Screening
pub mod Start
pub mod Acceptance
pub mod Total
pub mod Ranking
pub mod Soundness
pub mod Changes
pub mod Sifting
pub mod Leaderboard
