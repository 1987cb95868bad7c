-- ===== src/Scoring.antt =====
-- Stage 3 scores: app/stage3_evaluation/scoring.py, the outcome contract of
-- app/stage3_evaluation/schemas.py, and the replay of app/run_audit.py.
pub mod Weights
pub mod Schemas
pub mod Outcome
pub mod Evidence
pub mod Registry
pub mod Replay
