-- ===== src/CoinOps/Inventory.antt =====
-- greenfloor-engine/src/coin_ops/inventory.rs and effective_counts.rs: the counts of coins that the
-- planning starts from. A `BTreeMap` is an association list here: its order is not used.
pub mod Agreement
pub mod Effective
use greenfloor.Common.{
  Bool, true, false, List, [], ◌∷◌, Option, none, some, if◌then◌else◌, unwrap_or, map,
}
use greenfloor.Common.Int.{ℤ, pos, max_ℤ, min_ℤ, leb_ℤ}
use greenfloor.Common.I64.{add_i64, saturating_sub}
use greenfloor.Common.Dict.{Dict, ℤ_key, lookup, insert}
use greenfloor.CoinOps.Shape.{contains, collect}

-- One round of the loop over the amounts, `*counts.entry(*amount).or_insert(0) += 1`.
unfoldable pub count_bucket : List ℤ → Dict ℤ ℤ → ℤ → Dict ℤ ℤ
unfolding contains
count_bucket ladder counts amount =
    if contains ladder amount
    then insert amount (add_i64 (unwrap_or (lookup amount counts) (pos 0)) (pos 1)) counts
    else counts

unfoldable pub count_buckets : List ℤ → Dict ℤ ℤ → List ℤ → Dict ℤ ℤ
unfolding count_bucket
count_buckets ladder counts [] = counts
count_buckets ladder counts (amount ∷ amounts) =
    count_buckets ladder (count_bucket ladder counts amount) amounts

unfoldable pub compute_bucket_counts_from_coins : List ℤ → List ℤ → Dict ℤ ℤ
unfolding count_buckets collect
compute_bucket_counts_from_coins coin_amounts_base_units ladder_sizes =
    count_buckets ladder_sizes (collect [] (map (λ size. (size, pos 0)) ladder_sizes))
      coin_amounts_base_units

-- coin_ops/plan.rs.
pub record LadderTargetRow : Type 0 where
  pub size_base_units : ℤ
  pub target_count : ℤ

-- `get(..).copied().unwrap_or(0).max(0)`.
abbrev pub count_of : Dict ℤ ℤ → ℤ → ℤ
count_of counts size = max_ℤ (unwrap_or (lookup size counts) (pos 0)) (pos 0)

-- The count that is inserted for a row of a positive size.
unfoldable pub effective_count : Dict ℤ ℤ → Dict ℤ ℤ → Dict ℤ ℤ → LadderTargetRow → ℤ
unfolding saturating_sub
effective_count wallet active newly_executed entry =
    let target_count = max_ℤ entry.target_count (pos 0) in
    let newly_executed_sell_count = count_of newly_executed entry.size_base_units in
    let wallet_count =
      saturating_sub (count_of wallet entry.size_base_units) newly_executed_sell_count in
    let effective_active =
      add_i64 (count_of active entry.size_base_units) newly_executed_sell_count in
    add_i64 wallet_count (min_ℤ effective_active target_count)

-- The `continue` for a size that is not positive, and the insertion.
unfoldable pub place : ℤ → ℤ → Dict ℤ ℤ → Dict ℤ ℤ
place size count effective = if leb_ℤ size (pos 0) then effective else insert size count effective

unfoldable pub effective_from :
    Dict ℤ ℤ → Dict ℤ ℤ → Dict ℤ ℤ → List LadderTargetRow → Dict ℤ ℤ → Dict ℤ ℤ
effective_from wallet active newly_executed [] effective = effective
effective_from wallet active newly_executed (entry ∷ entries) effective =
    effective_from wallet active newly_executed entries
      (place entry.size_base_units (effective_count wallet active newly_executed entry) effective)

unfoldable pub effective_sell_bucket_counts_for_coin_ops :
    List LadderTargetRow → Dict ℤ ℤ → Option (Dict ℤ ℤ) → Option (Dict ℤ ℤ) → Dict ℤ ℤ
unfolding effective_from effective_count place
effective_sell_bucket_counts_for_coin_ops sell_ladder wallet_bucket_counts
      active_sell_offer_counts_by_size newly_executed_sell_offer_counts_by_size =
    effective_from wallet_bucket_counts (unwrap_or active_sell_offer_counts_by_size [])
      (unwrap_or newly_executed_sell_offer_counts_by_size []) sell_ladder wallet_bucket_counts
