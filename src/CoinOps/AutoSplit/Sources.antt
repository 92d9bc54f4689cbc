-- ===== src/CoinOps/AutoSplit/Sources.antt =====
-- greenfloor-engine/src/coin_ops/input_selection/auto_split.rs: what a split is paid from.
use greenfloor.Common.{
  ◌<◌, ◌≡◌, refl, Bool, true, false, List, [], Option, none, some, not, if◌then◌else◌,
}
use greenfloor.Common.Int.{ℤ, pos, max_ℤ, ◌≤ℤ◌}
use greenfloor.Common.I64.{two_63, sub_i64}
use greenfloor.Common.Str.{Str}
use greenfloor.Common.Run.{Returns, Returns-bind}
use greenfloor.CoinOps.Policy.{overshoot_change_would_be_dust}
use greenfloor.CoinOps.Coin.{split_would_create_sub_cat_change}
use greenfloor.CoinOps.Shape.{LadderShapeContext}
use greenfloor.CoinOps.Shape.Defer.{SplitSourceProtection}
use greenfloor.CoinOps.Funding.{
  mojos, dust_change_mojo_multiplier, single_coin, combine_first, CombineInputs, ShapeCoin,
  ShapeFundingResolution, funded, cannot_fund,
}
use greenfloor.CoinOps.Funding.Resolve.{
  resolve_shape_funding, select_single, select_largest_shape_coin, resolve_with, daemon_unprotected,
  resolve_by_combine, flags, CombineStrategy, disabled, flat, ShapeFundingFlags,
}
use greenfloor.CoinOps.Funding.Preserving.{inventory, Drawn}
use greenfloor.CoinOps.Funding.Usable.{Distinct, holds_coin}
use greenfloor.CoinOps.Funding.Funded.{Pays, resolution-Pays}
use greenfloor.CoinOps.AutoSplit.{
  DaemonAutoSplitParams, SplitAutoSelectPlan, split_coin, combine_prereq, skip_split, shape_coins,
  policy_for, shape_of, first_id, plan_of_combine, SplitSkipReason, sub_cat_change_skip,
  plan_of_resolution, plan_daemon_auto_split_with_optional_protection,
}

-- The source is a coin of the wallet with its amount, or coins of the wallet with their total; it is
-- worth the amount, and what it leaves over is no dust.
abbrev pub Suffices : List ShapeCoin → ℤ → Str → SplitAutoSelectPlan → Type 0
Suffices coins required asset (split_coin plan) =
    (holds_coin coins plan.coin_id plan.selected_amount_mojos ≡ true)
    × (required ≤ℤ plan.selected_amount_mojos)
    × (overshoot_change_would_be_dust (sub_i64 plan.selected_amount_mojos required) (pos 1) asset
        ≡ false)
Suffices coins required asset (combine_prereq inputs) =
    Drawn coins inputs
    × (required ≤ℤ inputs.selected_total)
    × (overshoot_change_would_be_dust (sub_i64 inputs.selected_total required) (pos 1) asset
        ≡ false)
Suffices coins required asset (skip_split reason) = Unit

-- A daemon combines coins flatly, or not at all.
abbrev combining : Bool → CombineStrategy
combining allow = if allow then flat else disabled

kept_only_if_not :
    {A : Type 0} (b : Bool) (a : A) → (if not b then none else some a) ≡ none → b ≡ false
kept_only_if_not true a e = cc
kept_only_if_not false a e = refl

not-skipped :
    (id : Str) (selected required : ℤ) (asset : Str)
    → sub_cat_change_skip id selected required asset ≡ none
    → overshoot_change_would_be_dust (sub_i64 selected required) (pos 1) asset ≡ false
unfolding sub_cat_change_skip split_would_create_sub_cat_change
not-skipped id selected required asset e = kept_only_if_not _ _ e

combine-Suffices :
    (coins : List ShapeCoin) (required : ℤ) (asset : Str) (inputs : CombineInputs)
    (skip : Option SplitSkipReason)
    → Drawn coins inputs
    → (required ≤ℤ inputs.selected_total)
    → (skip ≡ none
        → overshoot_change_would_be_dust (sub_i64 inputs.selected_total required) (pos 1) asset
          ≡ false)
    → Suffices coins required asset (plan_of_combine inputs skip)
unfolding plan_of_combine
combine-Suffices coins required asset inputs none drawn enough clean = (drawn, enough, clean refl)
combine-Suffices coins required asset inputs (some skip) drawn enough clean = tt

prereq-Suffices :
    (coins : List ShapeCoin) (required : ℤ) (asset : Str) (given : ShapeFundingFlags) (allow : Bool)
    (resolution : ShapeFundingResolution)
    → dust_change_mojo_multiplier given.unit ≡ pos 1
    → given.canonical_asset_id ≡ asset
    → Pays coins required given (combining allow) resolution
    → Suffices coins required asset (plan_of_resolution asset resolution)
unfolding plan_of_resolution
prereq-Suffices coins required asset given allow (cannot_fund amount) unit same p = tt
prereq-Suffices coins required asset given allow (funded (single_coin coin_id amount)) unit same
      (held, enough, clean) =
    (held, enough, rw (unit, same) at clean)
prereq-Suffices coins required asset given false (funded (combine_first inputs)) unit same p =
    absurd p
prereq-Suffices coins required asset given true (funded (combine_first inputs)) unit same
      (target, enough, _, drawn) =
    combine-Suffices coins required asset inputs
      (sub_cat_change_skip (first_id inputs.input_coin_ids) inputs.selected_total
        inputs.target_amount asset)
      drawn enough
      λ e. rw target at (
        not-skipped (first_id inputs.input_coin_ids) inputs.selected_total inputs.target_amount
          asset e)

-- The shape of the ladder is not asked for without protection.
shape_unasked :
    (coins : List ShapeCoin) (required : ℤ) (ctx : LadderShapeContext) (cap : ℤ) (asset : Str)
    (allow : Bool)
    → resolve_shape_funding coins required none (daemon_unprotected cap asset allow)
      ≡ resolve_shape_funding coins required (some ctx) (daemon_unprotected cap asset allow)
unfolding resolve_shape_funding select_single flags resolve_with resolve_by_combine
shape_unasked coins required ctx cap asset allow =
    by_coin (select_largest_shape_coin coins (max_ℤ required (pos 0)) (mojos (pos 1)) asset) allow
  where
    given : Bool → ShapeFundingFlags
    given b = flags (daemon_unprotected cap asset b)

    by_coin :
        (selected : Option ShapeCoin) (b : Bool)
        → resolve_with coins required none (given b) selected
          ≡ resolve_with coins required (some ctx) (given b) selected
    by_coin (some coin) b = refl
    by_coin none true = refl
    by_coin none false = refl

empty_shape : LadderShapeContext
empty_shape = record { ladder_sizes = []; protected_slots = []; exact_ladder_counts = [] }

resolved :
    (params : DaemonAutoSplitParams) (protection : Option SplitSourceProtection)
    → inventory (shape_coins params.candidate_spendable) < two_63
    → Distinct (shape_coins params.candidate_spendable)
    → pos 0 ≤ℤ params.required_amount_mojos
    → Returns
        (Pays
          (shape_coins params.candidate_spendable)
          params.required_amount_mojos
          (flags (policy_for params protection))
          (combining params.allow_combine_prereq))
        (resolve_shape_funding
          (shape_coins params.candidate_spendable)
          params.required_amount_mojos
          (shape_of protection)
          (policy_for params protection))
unfolding policy_for flags
resolved params (some protection) fits distinct above =
    resolution-Pays _ params.required_amount_mojos protection.shape
      (policy_for params (some protection)) fits distinct above
resolved params none fits distinct above =
    let coins = shape_coins params.candidate_spendable in
    rw
      (shape_unasked coins params.required_amount_mojos empty_shape params.combine_input_cap
        params.canonical_asset_id params.allow_combine_prereq)
      (resolution-Pays coins params.required_amount_mojos empty_shape (policy_for params none) fits
        distinct above)

unit_is :
    (params : DaemonAutoSplitParams) (protection : Option SplitSourceProtection)
    → dust_change_mojo_multiplier (flags (policy_for params protection)).unit ≡ pos 1
unfolding policy_for flags dust_change_mojo_multiplier
unit_is params none = refl
unit_is params (some protection) = refl

asset_is :
    (params : DaemonAutoSplitParams) (protection : Option SplitSourceProtection)
    → (flags (policy_for params protection)).canonical_asset_id ≡ params.canonical_asset_id
unfolding policy_for flags
asset_is params none = refl
asset_is params (some protection) = refl

-- For an amount that is not negative, and coins with different ids that are together worth less than
-- 2^63, the automatic split of the daemon returns, with protection of the ladder or without; the coin
-- that it splits, or the coins that it combines first, are coins of the wallet with the amount or total
-- that is named, which is worth the amount required and leaves no dust.
pub auto_split-Suffices :
    (params : DaemonAutoSplitParams) (protection : Option SplitSourceProtection)
    → inventory (shape_coins params.candidate_spendable) < two_63
    → Distinct (shape_coins params.candidate_spendable)
    → pos 0 ≤ℤ params.required_amount_mojos
    → Returns
        (Suffices
          (shape_coins params.candidate_spendable)
          params.required_amount_mojos
          params.canonical_asset_id)
        (plan_daemon_auto_split_with_optional_protection params protection)
unfolding plan_daemon_auto_split_with_optional_protection
auto_split-Suffices params protection fits distinct above =
    let given = flags (policy_for params protection) in
    Returns-bind
      (Pays (shape_coins params.candidate_spendable) params.required_amount_mojos given
        (combining params.allow_combine_prereq))
      (Suffices (shape_coins params.candidate_spendable) params.required_amount_mojos
        params.canonical_asset_id)
      (resolved params protection fits distinct above)
      λ resolution p. record {
        value = plan_of_resolution params.canonical_asset_id resolution;
        returns = refl;
        holds =
            prereq-Suffices (shape_coins params.candidate_spendable) params.required_amount_mojos
              params.canonical_asset_id given params.allow_combine_prereq resolution
              (unit_is params protection) (asset_is params protection) p;
      }
