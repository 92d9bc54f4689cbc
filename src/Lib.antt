-- ===== src/Lib.antt =====
-- A model of the decisions of greenfloor-engine: how the record of an offer follows what the chain
-- and the venue say of it, and how the coins of a wallet are shaped within a budget of fees.
--
-- The parts and their files (paths under greenfloor-engine/src):
-- * Hex is hex/mod.rs: identifiers of transactions, their canonical form and the spellings under
--   which they are looked up. The comparisons of transaction ids below go through it.
-- * Lifecycle is cycle/lifecycle.rs: the states of an offer and the signals that move it. Dexie is
--   the head of offer/dexie_payload.rs: what the status codes of the venue mean as signals.
-- * Reconcile is cycle/reconcile: State is state.rs, Transition is transition.rs and builders.rs,
--   Metadata is metadata.rs, Signals is coinset_signals.rs, Dispatch is dispatch.rs, CancelSubmitted
--   is cancel_submitted_policy/mod.rs and Resolve is decision.rs with the entry points of mod.rs.
--   An entry point parses the stored state, lets the dispatch or the policy decide, and wraps the
--   decision up for the cycle, which persists it.
-- * CoinOps is coin_ops: Kind has the types of plan.rs, FeeBudget is fee_budget.rs, Units is
--   unit_convert.rs, Policy is policy.rs, Coin has the plain picks of selection.rs, Amounts is
--   scalars.rs and amounts.rs, Shape is shape_protection.rs, Shape/Defer is shape_defer.rs and
--   Inventory is inventory.rs and effective_counts.rs. CombineInputs is
--   input_selection/combine_inputs.rs, on the picks of Coin. Target is the rest of selection.rs, the
--   selection of coins for an amount. Funding is shape/types.rs and shape/deficit.rs, with
--   Funding/Combine for shape/combine.rs, which calls Target, and Funding/Resolve for
--   shape/funding.rs, which takes one coin by Shape or several by Combine. Planning is the planner of
--   plan.rs, on the rounding of Pricing, which is from offer/pricing.rs. AutoSplit is
--   input_selection/auto_split.rs with types.rs, which asks Funding for its source.
-- * Cycle is cycle: Strategy is strategy.rs, Reseed is reseed.rs, which takes its templates from
--   Strategy, Market is market.rs, Cancel is cancel.rs and Notifications is notifications.rs.
--   Orchestration and Sweep are orchestration.rs: which markets run next, and the stale sweep.
-- A child module of one of these states what holds of it. Common has the shared types; Tests
-- applies the theorems to concrete inputs.
--
-- How the model stands to the code. A function has the name of the Rust function, and a helper that
-- stands for an arm, a closure or a loop says so above it. `String` is a list of code points, with
-- `trim` on the Unicode white space and the ASCII functions on the letters of ASCII. An i64 is an
-- integer: `+ - *` wrap at 2^63 as in a release build, the saturating operations clamp, and the
-- theorems name the ranges that they need. A usize or u64 is a natural number. A `HashMap` is an
-- association list in which `insert` replaces the entry of a key, a `HashSet` a list that is asked
-- for membership only, and a loop over a slice is recursion on the list, so that no fuel is needed.
-- A `BTreeMap` with i64 keys is a list of pairs in ascending order. An error is a value of `Result`,
-- and an index or an `expect` that may panic makes a value of `Run`. The chrono crate is a parameter,
-- a record of its two calls over a type of instants; f64 is a parameter too, a record of its
-- operations over a type, of which nothing is assumed.
--
-- Not modelled: the gates and the managed execution of coin_ops; the retries and the dispatch of
-- actions of cycle; the bootstrap of offers; and the code whose substance is calls of others: the
-- daemon, the command line, storage by SQL, the clients of Coinset, Dexie and Splash, the vault and
-- signing with the Chia wallet SDK, the configuration and the key management. Display of amounts,
-- serde and logging are left out.
pub mod Common
pub mod Hex
pub mod Lifecycle
pub mod Dexie
pub mod Reconcile
pub mod CoinOps
pub mod Pricing
pub mod Cycle
mod Tests
