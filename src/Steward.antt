-- ===== src/Steward.antt =====
-- The steward that looks at registered repositories from time to time (src/steward).
pub mod Schedule
