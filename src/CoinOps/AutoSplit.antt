-- ===== src/CoinOps/AutoSplit.antt =====
-- greenfloor-engine/src/coin_ops/input_selection/auto_split.rs and types.rs: which coin is split.
pub mod Sources
use greenfloor.Common.{
  Bool, true, false, List, [], ◌∷◌, Option, none, some, not, if◌then◌else◌, map,
}
use greenfloor.Common.Int.{ℤ, pos}
use greenfloor.Common.Str.{Str, codes}
use greenfloor.Common.Run.{Run, returned, ◌>>=◌}
use greenfloor.CoinOps.Policy.{coin_op_min_amount_mojos}
use greenfloor.CoinOps.Coin.{
  SpendableCoin, select_largest_spendable_coin, split_would_create_sub_cat_change,
}
use greenfloor.CoinOps.Shape.{LadderShapeContext}
use greenfloor.CoinOps.Shape.Defer.{SplitSourceProtection}
use greenfloor.CoinOps.Funding.{
  ShapeCoin, CombineInputs, single_coin, combine_first, ShapeFundingResolution, funded, cannot_fund,
}
use greenfloor.CoinOps.Funding.Resolve.{
  ShapeFundingPolicy, daemon_unprotected, daemon_protected, resolve_shape_funding,
}

pub record DaemonAutoSplitParams : Type 0 where
  pub candidate_spendable : List SpendableCoin
  pub required_amount_mojos : ℤ
  pub canonical_asset_id : Str
  pub combine_input_cap : ℤ
  pub allow_combine_prereq : Bool

pub record SplitCoinPlan : Type 0 where
  pub coin_id : Str
  pub selected_amount_mojos : ℤ

pub record SubCatChangeSkipData : Type 0 where
  pub selected_coin_id : Str
  pub selected_amount_mojos : ℤ
  pub required_amount_mojos : ℤ
  pub remainder_mojos : ℤ
  pub minimum_allowed_mojos : ℤ

pub data SplitSkipReason : Type 0 where
  no_spendable_meets_required : SplitSkipReason
  sub_cat_change : SubCatChangeSkipData → SplitSkipReason

unfoldable pub skip_reason_as_str : SplitSkipReason → Str
skip_reason_as_str no_spendable_meets_required =
    codes "no_spendable_split_coin_meets_required_amount"
skip_reason_as_str (sub_cat_change _) = codes "split_would_create_sub_cat_change"

pub data CliSplitSelection : Type 0 where
  cli_coin : SplitCoinPlan → CliSplitSelection
  cli_skip : SplitSkipReason → CliSplitSelection

pub data SplitAutoSelectPlan : Type 0 where
  split_coin : SplitCoinPlan → SplitAutoSelectPlan
  combine_prereq : CombineInputs → SplitAutoSelectPlan
  skip_split : SplitSkipReason → SplitAutoSelectPlan

unfoldable pub skip_no_spendable_coin : SplitSkipReason
skip_no_spendable_coin = no_spendable_meets_required

abbrev pub coin_plan : Str → ℤ → SplitCoinPlan
coin_plan coin_id amount_mojos = record { coin_id = coin_id; selected_amount_mojos = amount_mojos }

unfoldable pub sub_cat_change_skip : Str → ℤ → ℤ → Str → Option SplitSkipReason
sub_cat_change_skip selected_coin_id selected_amount_mojos required_amount_mojos
      canonical_asset_id =
    let change =
      split_would_create_sub_cat_change selected_amount_mojos required_amount_mojos
        canonical_asset_id in
    if not change.0
    then none
    else some (
        sub_cat_change (record {
          selected_coin_id = selected_coin_id;
          selected_amount_mojos = selected_amount_mojos;
          required_amount_mojos = required_amount_mojos;
          remainder_mojos = change.1;
          minimum_allowed_mojos = coin_op_min_amount_mojos canonical_asset_id;
        }))

-- `first().cloned().unwrap_or_default()`.
unfoldable pub first_id : List Str → Str
first_id [] = []
first_id (id ∷ ids) = id

unfoldable pub shape_coins : List SpendableCoin → List ShapeCoin
shape_coins coins = map (λ coin. record { id = coin.id; amount = coin.amount }) coins

unfoldable pub policy_for :
    DaemonAutoSplitParams → Option SplitSourceProtection → ShapeFundingPolicy
policy_for params (some protection) =
    daemon_protected params.combine_input_cap params.canonical_asset_id
      protection.base_unit_mojo_multiplier params.allow_combine_prereq
policy_for params none =
    daemon_unprotected params.combine_input_cap params.canonical_asset_id
      params.allow_combine_prereq

abbrev pub shape_of : Option SplitSourceProtection → Option LadderShapeContext
shape_of none = none
shape_of (some protection) = some protection.shape

-- `if let Some(skip) … else …` of a combine that comes first.
unfoldable pub plan_of_combine : CombineInputs → Option SplitSkipReason → SplitAutoSelectPlan
plan_of_combine prereq none = combine_prereq prereq
plan_of_combine prereq (some skip) = skip_split skip

-- The `match` on the resolution.
unfoldable pub plan_of_resolution : Str → ShapeFundingResolution → SplitAutoSelectPlan
plan_of_resolution canonical_asset_id (cannot_fund _) = skip_split skip_no_spendable_coin
plan_of_resolution canonical_asset_id (funded (single_coin coin_id amount)) =
    split_coin (coin_plan coin_id amount)
plan_of_resolution canonical_asset_id (funded (combine_first prereq)) = plan_of_combine prereq (
    sub_cat_change_skip (first_id prereq.input_coin_ids) prereq.selected_total prereq.target_amount
      canonical_asset_id)

unfoldable pub plan_daemon_auto_split_with_optional_protection :
    DaemonAutoSplitParams → Option SplitSourceProtection → Run SplitAutoSelectPlan
plan_daemon_auto_split_with_optional_protection params protection =
    resolve_shape_funding (shape_coins params.candidate_spendable) params.required_amount_mojos
      (shape_of protection) (policy_for params protection)
    >>= λ resolution. returned (plan_of_resolution params.canonical_asset_id resolution)

unfoldable pub plan_cli_auto_split_selection : List SpendableCoin → CliSplitSelection
plan_cli_auto_split_selection candidate_spendable =
    elim (select_largest_spendable_coin candidate_spendable (pos 0) []) [
      | none ↦ cli_skip skip_no_spendable_coin
      | some coin ↦ cli_coin (coin_plan coin.id coin.amount)
    ]

unfoldable pub plan_daemon_auto_split_selection : DaemonAutoSplitParams → Run SplitAutoSelectPlan
plan_daemon_auto_split_selection params =
    plan_daemon_auto_split_with_optional_protection params none

unfoldable pub plan_daemon_low_watermark_split :
    DaemonAutoSplitParams → SplitSourceProtection → Run SplitAutoSelectPlan
plan_daemon_low_watermark_split params protection =
    plan_daemon_auto_split_with_optional_protection params (some protection)
