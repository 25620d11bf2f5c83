-- ===== src/Tests.antt =====
-- The theorems at concrete inputs, and runs of the definitions.
mod Doubles
mod Canonical
mod Semantics
mod Stores
mod Strata
mod Cycles
mod Tokens
mod Seams
mod Views
