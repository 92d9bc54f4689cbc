-- ===== src/Tests/CoinOps.antt =====
-- Splits and combines of coins at concrete inputs.
use greenfloor.Common.{
  map, keep, All, min, ◌++◌, ℕ, ◌+◌, ◌≤◌, ◌≡◌, ◌↔◌, refl, Bool, true, false, List, [], ◌∷◌, Option,
  none, some, arith, max, get_elem?, if◌then◌else◌, length,
}
use greenfloor.Common.Int.{ℤ, pos, negsuc, sub_ℕ, ◌*ℤ◌, ◌≤ℤ◌, ◌<ℤ◌, max_ℤ}
use greenfloor.Common.I64.{saturating_mul}
use greenfloor.Common.Str.{Str, codes}
use greenfloor.Common.Dict.{ℤ_key, lookup}
use greenfloor.Common.Result.{ok}
use greenfloor.CoinOps.Coin.{SpendableCoin, select_exact_amount_coin_ids}
use greenfloor.CoinOps.Coin.Picks.{exact_ids, capped, exact_amount_picks}
use greenfloor.CoinOps.Inventory.{
  LadderTargetRow, compute_bucket_counts_from_coins, effective_sell_bucket_counts_for_coin_ops,
}
use greenfloor.CoinOps.Inventory.Agreement.{bucket_counts_agree}
use greenfloor.CoinOps.Inventory.Effective.{count_for, last_row_decides}
use greenfloor.CoinOps.CombineInputs.{
  normalized_exclude_ids, capped_count, is_combinable, plan_largest_combine_inputs,
}
use greenfloor.CoinOps.CombineInputs.Largest.{tally, AtMost, largest_chosen}
use greenfloor.CoinOps.Kind.{CoinOpKind, split, CoinOpPlan, low_watermark_buffer_deficit}
use greenfloor.CoinOps.FeeBudget.{
  partition_plans_by_budget, fee_budget_allows_execution, projected_coin_ops_fee_mojos,
}
use greenfloor.CoinOps.FeeBudget.Conservation.{ops, cost_of, fee_of}
use greenfloor.CoinOps.FeeBudget.Allowance.{partition-conserves, allowed_plans_pass}
use greenfloor.CoinOps.Units.{
  mojos_from_whole_units, exact_whole_units_from_mojos, floored_units_from_mojos,
}
use greenfloor.CoinOps.Units.Exact.{whole_units-mojos}
use greenfloor.CoinOps.Amounts.{combine_output_amounts}
use greenfloor.CoinOps.Amounts.Total.{sum, combine_output_amounts-total}
use greenfloor.CoinOps.Shape.{
  LadderShapeContext, SplittableCandidate, from_plan_units, from_required_rows, contains,
  exact_ladder_coin_counts, is_eligible, select_smallest_non_cannibalizing_index,
}
use greenfloor.CoinOps.Shape.Counts.{occurrences, exact_ladder_coin_counts_lem}
use greenfloor.CoinOps.Shape.Selection.{smallest_eligible}

-- Four splits of size 10.
abbrev four_splits : List CoinOpPlan
four_splits =
    record {
      op_type = split;
      size_base_units = pos 10;
      op_count = pos 4;
      reason = low_watermark_buffer_deficit;
    }
    ∷ []

abbrev every : CoinOpKind → ℤ → Bool
every kind size = true

conserves_example :
    ops every (partition_plans_by_budget four_splits (pos 5) (pos 0) (pos 0) (pos 11)).0
      + ops every (partition_plans_by_budget four_splits (pos 5) (pos 0) (pos 0) (pos 11)).1
    ≡ ops every four_splits
conserves_example =
    partition-conserves every four_splits (pos 5) (pos 0) (pos 0) (pos 11)
      ((omega arith, omega arith), tt)

-- Two of the four are paid from 11.
two_allowed :
    ops every (partition_plans_by_budget four_splits (pos 5) (pos 0) (pos 0) (pos 11)).0 ≡ 2
unfolding ops partition_plans_by_budget greenfloor.CoinOps.FeeBudget.partition_round
    greenfloor.Common.I64.div_i64 greenfloor.Common.I64.sub_i64 greenfloor.Common.I64.wrap_i64
    greenfloor.Common.Int.◌-ℤ◌
two_allowed = refl

pass_example :
    (1
        + cost_of
            (fee_of (pos 5) (pos 0))
            (partition_plans_by_budget four_splits (pos 5) (pos 0) (pos 1) (pos 11)).0
      ≤ 11)
    × (fee_budget_allows_execution (pos 11) (pos 1) (
          projected_coin_ops_fee_mojos
            (partition_plans_by_budget four_splits (pos 5) (pos 0) (pos 1) (pos 11)).0
            (pos 5)
            (pos 0))
        ≡ true)
pass_example =
    allowed_plans_pass four_splits (pos 5) (pos 0) 1 11 ((omega arith, omega arith), tt)
      (omega arith) (omega arith) (omega arith)

units_example :
    (exact_whole_units_from_mojos (mojos_from_whole_units (pos 10) (pos 1000)) (pos 1000)
      ≡ some (pos 10))
    × (floored_units_from_mojos (mojos_from_whole_units (pos 10) (pos 1000)) (pos 1000) ≡ pos 10)
units_example = whole_units-mojos 10 (pos 1000) (omega arith) (omega arith)

ten_units : exact_whole_units_from_mojos (pos 10000) (pos 1000) ≡ some (pos 10)
unfolding exact_whole_units_from_mojos
ten_units = refl

total_example :
    (amounts : List ℕ) × (combine_output_amounts (pos 10) 3 ≡ ok amounts)
    × (length amounts ≡ max 3 1)
    × (sum amounts ≡ 10)
total_example = combine_output_amounts-total 10 3 (omega arith) (omega arith)

three_outputs : combine_output_amounts (pos 10) 3 ≡ ok (3 ∷ 3 ∷ 4 ∷ [])
unfolding combine_output_amounts
three_outputs = refl

counts_example :
    lookup (pos 10) (exact_ladder_coin_counts (pos 10 ∷ pos 7 ∷ pos 10 ∷ []) (pos 1 ∷ pos 10 ∷ []))
    ≡ (if contains (pos 1 ∷ pos 10 ∷ []) (pos 10)
        then some (pos (occurrences (pos 10) (pos 10 ∷ pos 7 ∷ pos 10 ∷ [])))
        else none)
counts_example =
    exact_ladder_coin_counts_lem (pos 10 ∷ pos 7 ∷ pos 10 ∷ []) (pos 1 ∷ pos 10 ∷ []) (pos 10)
      (omega arith)

-- Two coins for a ladder whose row of 10 has one of the two coins that it needs.
coins : List SplittableCandidate
coins = from_plan_units (codes "row") (pos 10) ∷ from_plan_units (codes "free") (pos 12) ∷ []

ladder : LadderShapeContext
ladder = from_required_rows ((pos 1, pos 5) ∷ (pos 10, pos 2) ∷ []) (pos 10 ∷ pos 12 ∷ [])

free_chosen :
    select_smallest_non_cannibalizing_index coins (pos 5) ladder
    ≡ some (1, from_plan_units (codes "free") (pos 12))
unfolding select_smallest_non_cannibalizing_index coins ladder is_eligible from_plan_units
    greenfloor.CoinOps.Shape.split_would_cannibalize_protected_row from_required_rows
    greenfloor.Common.I64.add_i64 greenfloor.Common.I64.wrap_i64 greenfloor.Common.Int.◌+ℤ◌
free_chosen = refl

free_stands : get_elem? coins 1 ≡ some (from_plan_units (codes "free") (pos 12))
unfolding coins
free_stands = refl

free_eligible : is_eligible (pos 5) ladder (from_plan_units (codes "free") (pos 12)) ≡ true
unfolding is_eligible ladder from_plan_units
    greenfloor.CoinOps.Shape.split_would_cannibalize_protected_row from_required_rows
free_eligible = refl

smallest_example :
    (get_elem? coins 1 ≡ some (from_plan_units (codes "free") (pos 12)))
    × (is_eligible (pos 5) ladder (from_plan_units (codes "free") (pos 12)) ≡ true)
    × ((from_plan_units (codes "free") (pos 12)).funding_units
        ≤ℤ (from_plan_units (codes "free") (pos 12)).funding_units)
smallest_example =
    smallest_eligible coins (pos 5) ladder 1 1 (from_plan_units (codes "free") (pos 12))
      (from_plan_units (codes "free") (pos 12)) free_chosen free_stands free_eligible

none_chosen : select_smallest_non_cannibalizing_index coins (pos 20) ladder ≡ none
unfolding select_smallest_non_cannibalizing_index coins ladder is_eligible from_plan_units
none_chosen = refl

agree_example :
    lookup (pos 10) (compute_bucket_counts_from_coins (pos 10 ∷ pos 7 ∷ []) (pos 1 ∷ pos 10 ∷ []))
    ≡ lookup (pos 10) (exact_ladder_coin_counts (pos 10 ∷ pos 7 ∷ []) (pos 1 ∷ pos 10 ∷ []))
agree_example =
    bucket_counts_agree (pos 10 ∷ pos 7 ∷ []) (pos 1 ∷ pos 10 ∷ []) (pos 10) (omega arith)

-- A target of 3 for the size 10.
abbrev target_row : LadderTargetRow
target_row = record { size_base_units = pos 10; target_count = pos 3 }

-- Three offers are live, and no coin is left in the wallet.
three_live :
    lookup (pos 10) (
      effective_sell_bucket_counts_for_coin_ops
        (target_row ∷ [])
        ((pos 10, pos 0) ∷ [])
        (some ((pos 10, pos 3) ∷ []))
        none)
    ≡ some (pos 3)
unfolding effective_sell_bucket_counts_for_coin_ops greenfloor.Common.I64.add_i64
    greenfloor.Common.I64.wrap_i64 greenfloor.Common.Int.◌+ℤ◌ greenfloor.Common.Int.◌-ℤ◌
three_live = refl

-- Two offers were just posted with no coin of the size in the wallet.
posted_without_coins :
    lookup (pos 10) (
      effective_sell_bucket_counts_for_coin_ops
        (target_row ∷ [])
        ((pos 10, pos 0) ∷ [])
        (some ((pos 10, pos 3) ∷ []))
        (some ((pos 10, pos 4) ∷ [])))
    ≡ some (negsuc 0)
unfolding effective_sell_bucket_counts_for_coin_ops greenfloor.Common.I64.add_i64
    greenfloor.Common.I64.wrap_i64 greenfloor.Common.Int.◌+ℤ◌ greenfloor.Common.Int.◌-ℤ◌
posted_without_coins = refl

last_row_example :
    lookup (pos 10) (
      effective_sell_bucket_counts_for_coin_ops
        ([] ++ target_row ∷ [])
        ((pos 10, pos 2) ∷ [])
        (some [])
        (some ((pos 10, pos 2) ∷ [])))
    ≡ some (
        sub_ℕ
          (count_for (pos 10) ((pos 10, pos 2) ∷ [])
            + min (count_for (pos 10) [] + count_for (pos 10) ((pos 10, pos 2) ∷ [])) 3)
          (count_for (pos 10) ((pos 10, pos 2) ∷ [])))
unfolding count_for
last_row_example =
    last_row_decides [] [] target_row ((pos 10, pos 2) ∷ []) [] ((pos 10, pos 2) ∷ []) (omega arith)
      refl (omega arith) (omega arith)

coin_of : Str → SpendableCoin
coin_of id = record { id = id; amount = pos 10; puzzle_hash = [] }

abbrev two_coins : List SpendableCoin
two_coins = coin_of (codes "a") ∷ coin_of (codes "b") ∷ []

picks_example :
    select_exact_amount_coin_ids two_coins (pos 10) [] (some 1)
    ≡ capped (some 1) (exact_ids (pos 10) [] two_coins)
picks_example = exact_amount_picks two_coins (pos 10) [] (some 1)

one_pick : select_exact_amount_coin_ids two_coins (pos 10) [] (some 0) ≡ codes "a" ∷ []
unfolding select_exact_amount_coin_ids coin_of
one_pick = refl

abbrev small_and_large : List SpendableCoin
small_and_large =
    record { id = codes "s"; amount = pos 1; puzzle_hash = [] }
    ∷ record { id = codes "l"; amount = pos 9; puzzle_hash = [] }
    ∷ []

largest_example :
    (chosen : List SpendableCoin) × (others : List SpendableCoin) × (plan_largest_combine_inputs
        small_and_large 1 none
        (some 5)
      ≡ map (λ coin. coin.id) chosen)
    × (length chosen
        ≡ min (capped_count 1 (some 5)) (
            tally (λ _. true) (keep (is_combinable (normalized_exclude_ids none)) small_and_large)))
    × ((q : SpendableCoin → Bool)
        → tally q chosen + tally q others
          ≡ tally q (keep (is_combinable (normalized_exclude_ids none)) small_and_large))
    × All (λ coin. AtMost coin others) chosen
largest_example = largest_chosen small_and_large 1 none (some 5)

large_combined : plan_largest_combine_inputs small_and_large 1 none (some 5) ≡ codes "l" ∷ []
unfolding plan_largest_combine_inputs
large_combined = refl
