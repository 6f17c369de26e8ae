-- ===== src/Store.antt =====
-- The control-plane store over the document of `Records.Data` (src/control-plane/store.ts).
pub mod Document
pub mod Incidents
pub mod Approval
pub mod Lease
pub mod Control
pub mod Registry
pub mod Sessions
pub mod Knowledge
pub mod Analyses
pub mod Erasure
pub mod Sound
pub mod History
