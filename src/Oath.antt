-- ===== src/Oath.antt =====
-- The oath of a repository: its types (src/domain/types.ts), its parser and its evaluation
-- (src/domain/oath.ts).
pub mod Text
pub mod Types
pub mod Reading
pub mod Parse
pub mod Evaluate
