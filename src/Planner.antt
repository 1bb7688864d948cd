-- ===== src/Planner.antt =====
-- src/planner: the transaction manager, the planner, the patterns of LIKE and GLOB, and constraints.
pub mod Transaction
pub mod Plan
pub mod Select
pub mod Patterns
pub mod Constraints
