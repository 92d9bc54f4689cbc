-- ===== src/CoinOps/Funding/Resolve.antt =====
-- greenfloor-engine/src/coin_ops/shape/funding.rs: how the outputs of a split are paid for, by one
-- coin or by a combine.
use greenfloor.Common.{
  Bool, true, false, ◌&&◌, ◌||◌, not, List, [], ◌∷◌, Option, none, some, if◌then◌else◌, map, keep,
  any, is_empty,
}
use greenfloor.Common.Int.{ℤ, pos, max_ℤ, ltb_ℤ, leb_ℤ}
use greenfloor.Common.I64.{sub_i64, add_i64}
use greenfloor.Common.Str.{Str, str_eq}
use greenfloor.Common.Run.{Run, returned, ◌>>=◌, in_range}
use greenfloor.CoinOps.Policy.{overshoot_change_would_be_dust}
use greenfloor.CoinOps.Units.{floored_units_from_mojos}
use greenfloor.CoinOps.Shape.{
  LadderShapeContext, from_mojos, select_smallest_non_cannibalizing_candidate_id,
}
use greenfloor.CoinOps.Funding.{
  AmountUnit, mojos, ladder_conversion_multiplier, dust_change_mojo_multiplier, ShapeCoin,
  is_spendable, CombineInputs, ShapeFunding, single_coin, combine_first, ShapeFundingResolution,
  funded, cannot_fund, ShapeLadderRow, ShapeDeficit, shape_context_for_rows, collect_shape_deficits,
}
use greenfloor.CoinOps.Funding.Combine.{
  plan_combine_inputs_for_target, plan_ladder_preserving_combine,
}

unfoldable pub coin_funds_without_dust_change : ℤ → AmountUnit → Str → ShapeCoin → Bool
coin_funds_without_dust_change required_amount unit canonical_asset_id coin =
    is_spendable coin
    && leb_ℤ required_amount coin.amount
    && not (
        overshoot_change_would_be_dust (sub_i64 coin.amount required_amount)
          (dust_change_mojo_multiplier unit) canonical_asset_id)

-- `sum()` of the amounts, from the left.
unfoldable pub sum_amounts : ℤ → List ShapeCoin → ℤ
sum_amounts sum [] = sum
sum_amounts sum (coin ∷ coins) = sum_amounts (add_i64 sum coin.amount) coins

unfoldable pub aggregate_covers_without_usable_single_coin :
    ℤ → List ShapeCoin → AmountUnit → Str → Bool
aggregate_covers_without_usable_single_coin required_amount coins unit canonical_asset_id =
    if leb_ℤ required_amount (pos 0) || ltb_ℤ (sum_amounts (pos 0) coins) required_amount
    then false
    else not (any (coin_funds_without_dust_change required_amount unit canonical_asset_id) coins)

pub data ShapeFundingPolicy : Type 0 where
  bootstrap : ℤ → Str → AmountUnit → ShapeFundingPolicy
  daemon_unprotected : ℤ → Str → Bool → ShapeFundingPolicy
  daemon_protected : ℤ → Str → ℤ → Bool → ShapeFundingPolicy

pub data CombineStrategy : Type 0 where
  disabled : CombineStrategy
  flat : CombineStrategy
  ladder_preserving : CombineStrategy

pub record ShapeFundingFlags : Type 0 where
  pub unit : AmountUnit
  pub combine_input_cap : ℤ
  pub canonical_asset_id : Str
  pub combine_strategy : CombineStrategy
  pub prefer_smallest_non_cannibalizing : Bool

unfoldable pub flags : ShapeFundingPolicy → ShapeFundingFlags
flags (bootstrap cap asset unit) = record {
  unit = unit;
  combine_input_cap = cap;
  canonical_asset_id = asset;
  combine_strategy = ladder_preserving;
  prefer_smallest_non_cannibalizing = true;
}
flags (daemon_unprotected cap asset allow_combine) = record {
  unit = mojos (pos 1);
  combine_input_cap = cap;
  canonical_asset_id = asset;
  combine_strategy = if allow_combine then flat else disabled;
  prefer_smallest_non_cannibalizing = false;
}
flags (daemon_protected cap asset base_unit_mojo_multiplier allow_combine) = record {
  unit = mojos base_unit_mojo_multiplier;
  combine_input_cap = cap;
  canonical_asset_id = asset;
  combine_strategy = if allow_combine then flat else disabled;
  prefer_smallest_non_cannibalizing = true;
}

-- `max_by_key(|coin| coin.amount)`: the last of the largest.
unfoldable pub last_largest_coin : List ShapeCoin → Option ShapeCoin
last_largest_coin [] = none
last_largest_coin (coin ∷ coins) = elim (last_largest_coin coins) [
  | none ↦ some coin
  | some best ↦ if leb_ℤ coin.amount best.amount then some best else some coin
]

unfoldable pub select_largest_shape_coin : List ShapeCoin → ℤ → AmountUnit → Str → Option ShapeCoin
select_largest_shape_coin coins required_amount unit canonical_asset_id =
    last_largest_coin
      (keep (coin_funds_without_dust_change required_amount unit canonical_asset_id) coins)

unfoldable pub find_shape_coin : Str → List ShapeCoin → Option ShapeCoin
find_shape_coin id [] = none
find_shape_coin id (coin ∷ coins) =
    if str_eq coin.id id then some coin else find_shape_coin id coins

unfoldable pub select_smallest_non_cannibalizing_shape_coin :
    List ShapeCoin → ℤ → AmountUnit → Str → LadderShapeContext → Option ShapeCoin
select_smallest_non_cannibalizing_shape_coin coins required_amount unit canonical_asset_id ctx =
    let multiplier = max_ℤ (ladder_conversion_multiplier unit) (pos 1) in
    let candidates =
      map (λ coin. from_mojos coin.id coin.amount multiplier)
        (keep (coin_funds_without_dust_change required_amount unit canonical_asset_id) coins) in
    elim (select_smallest_non_cannibalizing_candidate_id candidates
      (floored_units_from_mojos required_amount multiplier) ctx) [
        | none ↦ none
        | some selected_id ↦ find_shape_coin selected_id coins
      ]

-- The single coin of a policy. The context is needed for the smallest one, or the code panics.
unfoldable pub select_single :
    List ShapeCoin → ℤ → Option LadderShapeContext → ShapeFundingFlags → Run (Option ShapeCoin)
select_single coins required_amount ladder_shape flags =
    if flags.prefer_smallest_non_cannibalizing
    then (in_range ladder_shape >>= λ ctx. returned (
        select_smallest_non_cannibalizing_shape_coin coins required_amount flags.unit
          flags.canonical_asset_id ctx))
    else returned (
        select_largest_shape_coin coins (max_ℤ required_amount (pos 0)) flags.unit
          flags.canonical_asset_id)

-- The end of `resolve_shape_funding`.
unfoldable pub resolution_of : ℤ → Option CombineInputs → ShapeFundingResolution
resolution_of required_amount none = cannot_fund required_amount
resolution_of required_amount (some inputs) = funded (combine_first inputs)

-- What follows when no single coin pays.
unfoldable pub resolve_by_combine :
    List ShapeCoin
    → ℤ
    → Option LadderShapeContext
    → ShapeFundingFlags
    → CombineStrategy
    → Run ShapeFundingResolution
resolve_by_combine coins required_amount ladder_shape flags disabled =
    returned (cannot_fund required_amount)
resolve_by_combine coins required_amount ladder_shape flags ladder_preserving =
    if not (
      aggregate_covers_without_usable_single_coin required_amount coins flags.unit
        flags.canonical_asset_id)
    then returned (cannot_fund required_amount)
    else (in_range ladder_shape >>= λ ctx.
        plan_ladder_preserving_combine coins ctx.protected_slots required_amount
          flags.combine_input_cap (dust_change_mojo_multiplier flags.unit) flags.canonical_asset_id
        >>= λ combine. returned (resolution_of required_amount combine))
resolve_by_combine coins required_amount ladder_shape flags flat =
    if not (ltb_ℤ (pos 0) required_amount && leb_ℤ required_amount (sum_amounts (pos 0) coins))
    then returned (cannot_fund required_amount)
    else (plan_combine_inputs_for_target coins required_amount flags.combine_input_cap
        >>= λ combine. returned (resolution_of required_amount combine))

unfoldable pub resolve_with :
    List ShapeCoin
    → ℤ
    → Option LadderShapeContext
    → ShapeFundingFlags
    → Option ShapeCoin
    → Run ShapeFundingResolution
resolve_with coins required_amount ladder_shape flags (some coin) =
    returned (funded (single_coin coin.id coin.amount))
resolve_with coins required_amount ladder_shape flags none =
    resolve_by_combine coins required_amount ladder_shape flags flags.combine_strategy

unfoldable pub resolve_shape_funding :
    List ShapeCoin → ℤ → Option LadderShapeContext → ShapeFundingPolicy → Run ShapeFundingResolution
resolve_shape_funding coins required_amount ladder_shape policy =
    select_single coins required_amount ladder_shape (flags policy)
    >>= resolve_with coins required_amount ladder_shape (flags policy)

pub record ShapePlan : Type 0 where
  pub funding : ShapeFunding
  pub output_amounts : List ℤ
  pub total_output_amount : ℤ
  pub deficits : List ShapeDeficit

pub data ShapePlanOutcome : Type 0 where
  already_ready : ShapePlanOutcome
  needs_shape : ShapePlan → ShapePlanOutcome
  unfunded : ℤ → ShapePlanOutcome

unfoldable pub sum_outputs : ℤ → List ℤ → ℤ
sum_outputs sum [] = sum
sum_outputs sum (amount ∷ amounts) = sum_outputs (add_i64 sum amount) amounts

unfoldable pub outcome_of :
    List ShapeDeficit → List ℤ → ℤ → ShapeFundingResolution → ShapePlanOutcome
outcome_of deficits output_amounts total_output_amount (funded funding) = needs_shape (record {
  funding = funding;
  output_amounts = output_amounts;
  total_output_amount = total_output_amount;
  deficits = deficits;
})
outcome_of deficits output_amounts total_output_amount (cannot_fund required_amount) =
    unfunded required_amount

unfoldable pub plan_shape_from_deficits :
    List ShapeLadderRow → List ShapeCoin → ShapeFundingPolicy → Run ShapePlanOutcome
plan_shape_from_deficits sorted_rows coins policy =
    let shape_ctx = shape_context_for_rows sorted_rows (map (λ coin. coin.amount) coins) in
    let (deficits, output_amounts) = collect_shape_deficits sorted_rows shape_ctx in
    let total_output_amount = sum_outputs (pos 0) output_amounts in
    if is_empty deficits
    then returned already_ready
    else (resolve_shape_funding coins total_output_amount (some shape_ctx) policy >>= λ resolution.
        returned (outcome_of deficits output_amounts total_output_amount resolution))
