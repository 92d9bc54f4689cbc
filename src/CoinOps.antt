-- ===== src/CoinOps.antt =====
-- greenfloor-engine/src/coin_ops: planning and choosing the splits and combines of coins.
pub mod Kind
pub mod FeeBudget
pub mod Units
pub mod Policy
pub mod Coin
pub mod Amounts
pub mod Shape
pub mod Inventory
pub mod CombineInputs
pub mod Target
pub mod Funding
pub mod Planning
pub mod AutoSplit
