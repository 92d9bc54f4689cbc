-- ===== src/Cycle/Reseed.antt =====
-- greenfloor-engine/src/cycle/reseed.rs: offers for the sizes that have too few.
pub mod Complete
pub mod Filled
use greenfloor.Common.{
  not, Bool, List, [], ◌∷◌, Option, none, some, if◌then◌else◌, keep, unwrap_or, is_empty,
}
use greenfloor.Common.Int.{ℤ, pos, max_ℤ, ltb_ℤ, leb_ℤ}
use greenfloor.Common.I64.{sub_i64, add_i64}
use greenfloor.Common.Str.{Str, codes}
use greenfloor.Common.Float.{Float}
use greenfloor.Common.Run.{Sorted, get, put}
use greenfloor.Cycle.Strategy.{MarketState, StrategyConfig, PlannedAction, evaluate_market}

pub data ReseedSkipReason : Type 0 where
  strategy_actions_present : ReseedSkipReason
  active_offer_targets_satisfied : ReseedSkipReason
  no_seed_candidates : ReseedSkipReason
  missing_sizes_no_seed_template : ReseedSkipReason
  reseed_zero_repeat_filtered : ReseedSkipReason

unfoldable pub reason_label : ReseedSkipReason → Str
reason_label strategy_actions_present = codes "strategy_actions_present"
reason_label active_offer_targets_satisfied = codes "active_offer_targets_satisfied"
reason_label no_seed_candidates = codes "no_seed_candidates"
reason_label missing_sizes_no_seed_template = codes "missing_sizes_no_seed_template"
reason_label reseed_zero_repeat_filtered = codes "reseed_zero_repeat_filtered"

unfoldable pub reseed_skip_reason_labels : List Str
reseed_skip_reason_labels =
    reason_label strategy_actions_present
    ∷ reason_label active_offer_targets_satisfied
    ∷ reason_label no_seed_candidates
    ∷ reason_label missing_sizes_no_seed_template
    ∷ reason_label reseed_zero_repeat_filtered
    ∷ []

pub record ReseedGapPlan : Type 0 where
  pub actions : List PlannedAction
  pub skip_reason : Option ReseedSkipReason
  pub missing_by_size : Sorted ℤ

-- Collecting pairs into a `BTreeMap`.
unfoldable pub missing_counts_by_size : Sorted ℤ → Sorted ℤ → Sorted ℤ
missing_counts_by_size active_counts_by_size [] = []
missing_counts_by_size active_counts_by_size ((size, target) ∷ targets) =
    let active = unwrap_or (get size active_counts_by_size) (pos 0) in
    (size, max_ℤ (sub_i64 target active) (pos 0))
    ∷ missing_counts_by_size active_counts_by_size targets

unfoldable pub sum_counts : ℤ → Sorted ℤ → ℤ
sum_counts sum [] = sum
sum_counts sum ((_, count) ∷ counts) = sum_counts (add_i64 sum count) counts

-- `entry(candidate.size).or_insert(candidate)`.
unfoldable pub first_of_size : PlannedAction → Sorted PlannedAction → Sorted PlannedAction
first_of_size candidate templates = elim (get candidate.size templates) [
  | none ↦ put candidate.size candidate templates
  | some _ ↦ templates
]

unfoldable pub templates_of : Sorted PlannedAction → List PlannedAction → Sorted PlannedAction
templates_of templates [] = templates
templates_of templates (candidate ∷ candidates) =
    templates_of (first_of_size candidate templates) candidates

unfoldable pub reseed_action : PlannedAction → ℤ → PlannedAction
reseed_action template missing = record {
  size = template.size;
  repeat = missing;
  pair = template.pair;
  expiry_unit = template.expiry_unit;
  expiry_value = template.expiry_value;
  cancel_after_create = template.cancel_after_create;
  reason = codes "offer_size_gap_reseed";
  target_spread_bps = template.target_spread_bps;
  side = template.side;
}

-- The loop over the sizes of the templates.
unfoldable pub reseed_actions : Sorted ℤ → Sorted PlannedAction → List PlannedAction
reseed_actions missing_by_size [] = []
reseed_actions missing_by_size ((size, template) ∷ templates) =
    let missing = unwrap_or (get size missing_by_size) (pos 0) in
    let rest = reseed_actions missing_by_size templates in
    if leb_ℤ missing (pos 0) then rest else reseed_action template missing ∷ rest

unfoldable pub is_repeated : PlannedAction → Bool
is_repeated action = ltb_ℤ (pos 0) action.repeat

unfoldable pub skipped : ReseedSkipReason → Sorted ℤ → ReseedGapPlan
skipped reason missing_by_size = record {
  actions = [];
  skip_reason = some reason;
  missing_by_size = missing_by_size;
}

-- From the templates on.
unfoldable pub plan_from_actions : List PlannedAction → Sorted ℤ → ReseedGapPlan
plan_from_actions actions missing_by_size =
    let retained = keep is_repeated actions in
    if is_empty actions
    then skipped missing_sizes_no_seed_template missing_by_size
    else if is_empty retained
    then skipped reseed_zero_repeat_filtered missing_by_size
    else record { actions = retained; skip_reason = none; missing_by_size = missing_by_size }

module _ {F : Type 0} (float : Float F) where
  unfoldable pub empty_market_state : Option F → MarketState F
  empty_market_state xch_price_usd = record {
    ones = pos 0;
    tens = pos 0;
    hundreds = pos 0;
    xch_price_usd = xch_price_usd;
    bucket_counts_by_size = none;
  }

  unfoldable pub plan_reseed_actions_from_gap :
      List PlannedAction → Sorted ℤ → Sorted ℤ → StrategyConfig F → Option F → ReseedGapPlan
  plan_reseed_actions_from_gap strategy_actions active_counts_by_size target_counts_by_size config
        xch_price_usd =
      let missing_by_size = missing_counts_by_size active_counts_by_size target_counts_by_size in
      let seed_candidates = evaluate_market float (empty_market_state xch_price_usd) config in
      if not (is_empty strategy_actions)
      then record {
        actions = strategy_actions;
        skip_reason = some strategy_actions_present;
        missing_by_size = missing_by_size;
      }
      else if leb_ℤ (sum_counts (pos 0) missing_by_size) (pos 0)
      then skipped active_offer_targets_satisfied missing_by_size
      else if is_empty seed_candidates
      then skipped no_seed_candidates missing_by_size
      else plan_from_actions (reseed_actions missing_by_size (templates_of [] seed_candidates))
          missing_by_size
