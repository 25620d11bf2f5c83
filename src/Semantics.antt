-- ===== src/Semantics.antt =====
-- The semantic rules beyond the schemas: bindings/go/v4/causalontology/semantics.go, a module for
-- each group of rules.
pub mod Windows
pub mod Conflict
pub mod Refinement
pub mod Paths
pub mod Bridges
pub mod Rules
pub mod Strata
pub mod Tokens
pub mod Hierarchy
pub mod Cycles
