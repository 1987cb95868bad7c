-- ===== src/Rules.antt =====
-- Stage 1: the hard filters (app/stage1_rules).
pub mod Contracts
pub mod Engine
