-- ===== src/Reconcile/CancelSubmitted.antt =====
-- greenfloor-engine/src/cycle/reconcile/cancel_submitted_policy/mod.rs: offers whose cancellation
-- was submitted to the chain and is not confirmed yet.
pub mod Context
pub mod Targets
pub mod Resolve
pub mod Exits
pub mod Deferral
