-- ===== src/Integrations.antt =====
-- What the program keeps and reads of other services (src/integrations).
pub mod Secrets
