-- ===== src/Store.antt =====
-- The in-memory conformant store: bindings/go/v4/causalontology/store.go.
pub mod State
mod Reasons
pub mod Queries
pub mod Cycles
pub mod Taxonomy
pub mod Gaps
pub mod Words
pub mod Views
pub mod Writes
pub mod Invariant
