-- ===== src/Repair.antt =====
-- The acceptance of a repair: findings before and after, the scope of the change, and the decision
-- (src/repair/proof.ts, src/repair/run.ts).
pub mod Findings
pub mod Proof
pub mod Scope
pub mod GitStatus
