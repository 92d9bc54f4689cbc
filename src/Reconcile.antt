-- ===== src/Reconcile.antt =====
-- greenfloor-engine/src/cycle/reconcile: what an offer under watch becomes.
pub mod State
pub mod Metadata
pub mod Transition
pub mod Signals
pub mod Dispatch
pub mod CancelSubmitted
pub mod Resolve
