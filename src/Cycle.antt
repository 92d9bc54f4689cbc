-- ===== src/Cycle.antt =====
-- greenfloor-engine/src/cycle: what one cycle of a market plans.
pub mod Strategy
pub mod Reseed
pub mod Market
pub mod Cancel
pub mod Notifications
pub mod Orchestration
pub mod Sweep
