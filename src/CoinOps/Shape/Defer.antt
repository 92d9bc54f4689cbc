-- ===== src/CoinOps/Shape/Defer.antt =====
-- greenfloor-engine/src/coin_ops/shape_defer.rs: when a split waits for the bootstrap of an offer, and
-- `SplitSourceProtection` of shape_protection.rs, which is built from the same amounts.
use greenfloor.Common.{Bool, true, false, ◌&&◌, List, Option, if◌then◌else◌, keep_map, unwrap_or}
use greenfloor.Common.Int.{ℤ, pos, max_ℤ, ltb_ℤ, leb_ℤ, eqb_ℤ}
use greenfloor.Common.Str.{Str}
use greenfloor.CoinOps.Kind.{
  CoinOpKind, split, combine, CoinOpPlan, CoinOpPlanReason, low_watermark_buffer_deficit,
}
use greenfloor.CoinOps.Units.{exact_whole_units_from_mojos}
use greenfloor.CoinOps.Coin.{SpendableCoin}
use greenfloor.CoinOps.Amounts.{sum_from}
use greenfloor.CoinOps.Shape.{
  LadderEntry, LadderShapeContext, from_required_rows as context_from_required_rows,
  required_rows_from_ladder_entries, primary_ladder_row_size,
  select_smallest_non_cannibalizing_spendable,
}

unfoldable pub spendable_exact_ladder_unit_amounts : List SpendableCoin → ℤ → List ℤ
unfolding exact_whole_units_from_mojos
spendable_exact_ladder_unit_amounts spendable base_unit_mojo_multiplier =
    keep_map
      (λ coin. exact_whole_units_from_mojos coin.amount (max_ℤ base_unit_mojo_multiplier (pos 1)))
      spendable

unfoldable pub aggregate_covers_without_single_coin : ℤ → List ℤ → Bool
unfolding sum_from primary_ladder_row_size
aggregate_covers_without_single_coin required spendable_amounts =
    let required = max_ℤ required (pos 0) in
    if eqb_ℤ required (pos 0)
    then false
    else leb_ℤ required (sum_from (pos 0) spendable_amounts)
      && ltb_ℤ (unwrap_or (primary_ladder_row_size spendable_amounts) (pos 0)) required

is_split : CoinOpKind → Bool
is_split split = true
is_split combine = false

is_low_watermark : CoinOpPlanReason → Bool
is_low_watermark low_watermark_buffer_deficit = true
is_low_watermark _ = false

unfoldable pub defer_low_watermark_split_to_post_bootstrap : CoinOpPlan → List ℤ → Bool
unfolding is_split is_low_watermark aggregate_covers_without_single_coin
defer_low_watermark_split_to_post_bootstrap plan spendable_amounts_whole_units =
    is_split plan.op_type
    && eqb_ℤ plan.op_count (pos 1)
    && is_low_watermark plan.reason
    && aggregate_covers_without_single_coin plan.size_base_units spendable_amounts_whole_units

unfoldable pub defer_low_watermark_split_from_spendable : CoinOpPlan → List SpendableCoin → ℤ → Bool
unfolding defer_low_watermark_split_to_post_bootstrap spendable_exact_ladder_unit_amounts
defer_low_watermark_split_from_spendable plan spendable base_unit_mojo_multiplier =
    defer_low_watermark_split_to_post_bootstrap plan
      (spendable_exact_ladder_unit_amounts spendable base_unit_mojo_multiplier)

pub record SplitSourceProtection : Type 0 where
  pub shape : LadderShapeContext
  pub base_unit_mojo_multiplier : ℤ

unfoldable pub from_required_rows : List (ℤ × ℤ) → List ℤ → ℤ → SplitSourceProtection
unfolding context_from_required_rows
from_required_rows rows spendable_amounts_base_units base_unit_mojo_multiplier = record {
  shape = context_from_required_rows rows spendable_amounts_base_units;
  base_unit_mojo_multiplier = base_unit_mojo_multiplier;
}

unfoldable pub from_sell_ladder_entries :
    {F : Type 0} → List (LadderEntry F) → List SpendableCoin → ℤ → SplitSourceProtection
unfolding from_required_rows required_rows_from_ladder_entries spendable_exact_ladder_unit_amounts
from_sell_ladder_entries entries spendable base_unit_mojo_multiplier =
    from_required_rows (required_rows_from_ladder_entries entries)
      (spendable_exact_ladder_unit_amounts spendable base_unit_mojo_multiplier)
      base_unit_mojo_multiplier

unfoldable pub select_spendable_coin :
    SplitSourceProtection → List SpendableCoin → ℤ → List Str → Option SpendableCoin
unfolding select_smallest_non_cannibalizing_spendable
select_spendable_coin protection spendable required_amount_base_units exclude_coin_ids =
    select_smallest_non_cannibalizing_spendable spendable required_amount_base_units
      protection.base_unit_mojo_multiplier exclude_coin_ids protection.shape
