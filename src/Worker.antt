-- ===== src/Worker.antt =====
-- What a worker does to the run that it has claimed, outside of git and the repair itself
-- (src/control-plane/orchestrator.ts).
pub mod Steps
pub mod Checks
