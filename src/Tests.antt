-- ===== src/Tests.antt =====
-- The theorems at concrete inputs, and runs of the definitions.
pub mod Fixtures
mod Reconcile
mod Identifiers
mod CoinOps
mod Target
mod Cycle
