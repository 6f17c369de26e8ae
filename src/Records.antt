-- ===== src/Records.antt =====
-- The records of the program's type declarations, one child for each group.
pub mod Values
pub mod Run
pub mod Review
pub mod Repository
pub mod Optimizer
pub mod Data
