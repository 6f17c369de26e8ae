-- ===== src/Examples.antt =====
-- Concrete runs of the theorems: the records that they share, and a module for each part.
mod Data
mod Runs
mod Records
mod Analyses
mod Erasure
mod Verdicts
mod Failures
mod Steward
mod Codes
mod SignIn
mod Changes
mod Bundles
