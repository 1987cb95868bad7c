-- ===== src/Tests.antt =====
-- Runs of the definitions on small inputs, and the theorems applied to them.
mod Rows
mod Screening
mod Scheduling
mod Intake
mod Runs
mod Pipeline
mod Evidence
mod Provider
