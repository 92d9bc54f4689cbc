-- ===== src/Tests/Target.antt =====
-- Selections of coins for an amount, and the plans for a ladder, at concrete inputs.
use greenfloor.Common.{
  ℕ, suc, ◌+◌, ◌≤◌, ◌<◌, ◌≡◌, sym, subst, refl, ◌⊎◌, Bool, true, false, List, [], ◌∷◌, Option, none,
  some, arith, map, length,
}
use greenfloor.Common.Int.{ℤ, pos, ◌≤ℤ◌}
use greenfloor.Common.I64.{two_63}
use greenfloor.Common.Str.{Str, codes}
use greenfloor.Common.Run.{returned, Returns}
use greenfloor.CoinOps.Coin.{SpendableCoin}
use greenfloor.CoinOps.Target.{
  Selection, combine_cap, nothing_selected, positive_spendable_entries,
  select_spendable_coins_for_target_amount, select_spendable_coins_for_target_amount_with_options,
}
use greenfloor.CoinOps.Target.Subsets.{Reaches, begin, leave, pick}
use greenfloor.CoinOps.Target.Pointed.{Covers}
use greenfloor.CoinOps.Target.Sound.{selection-Covers}
use greenfloor.CoinOps.Target.Least.{least_cover}
use greenfloor.CoinOps.Funding.{
  ShapeCoin, plan_units, ShapeLadderRow, shape_context_for_rows, collect_shape_deficits,
}
use greenfloor.CoinOps.Funding.Resolve.{
  bootstrap, flags, ShapeFundingPolicy, resolve_shape_funding, plan_shape_from_deficits,
}
use greenfloor.CoinOps.Funding.Lacking.{expand, lacking, sum_of}
use greenfloor.CoinOps.Funding.Preserving.{inventory}
use greenfloor.CoinOps.Funding.Usable.{Distinct}
use greenfloor.CoinOps.Funding.Funded.{Pays, resolution-Pays}
use greenfloor.CoinOps.AutoSplit.{
  DaemonAutoSplitParams, shape_coins, plan_daemon_auto_split_with_optional_protection,
}
use greenfloor.CoinOps.AutoSplit.Sources.{Suffices, auto_split-Suffices}
use greenfloor.CoinOps.Funding.Plan.{Planned, plan_shape-Planned}

abbrev wallet_coin : Str → ℕ → SpendableCoin
wallet_coin id amount = record { id = id; amount = pos amount; puzzle_hash = [] }

-- 4, 7 and 9.
abbrev three_coins : List SpendableCoin
three_coins =
    wallet_coin (codes "four") 4 ∷ wallet_coin (codes "seven") 7 ∷ wallet_coin (codes "nine") 9 ∷ []

-- 4 + 7 leaves less than 4 + 9 and is no single coin.
eleven_for_ten :
    select_spendable_coins_for_target_amount three_coins (pos 10)
    ≡ returned (record { ids = codes "four" ∷ codes "seven" ∷ []; total = pos 11; exact = false })
unfolding select_spendable_coins_for_target_amount greenfloor.Common.I64.add_i64
    greenfloor.Common.I64.wrap_i64 greenfloor.Common.Int.◌+ℤ◌ greenfloor.Common.I64.sub_i64
    greenfloor.Common.Int.◌-ℤ◌
eleven_for_ten = refl

least_example :
    (selection : Selection) × (select_spendable_coins_for_target_amount three_coins (pos 10)
      ≡ returned selection)
    × (pos 10 ≤ℤ selection.total)
    × (selection.total ≤ℤ pos 13)
unfolding greenfloor.CoinOps.Target.Subsets.worth positive_spendable_entries
    greenfloor.CoinOps.Target.is_too_large greenfloor.CoinOps.Target.target_amount_sum_cap
    greenfloor.Common.I64.add_i64 greenfloor.Common.I64.wrap_i64 greenfloor.Common.Int.◌+ℤ◌
least_example =
    least_cover three_coins 10 (0 ∷ 2 ∷ []) 13 (omega arith) (omega arith) refl
      (pick (codes "nine") 8 refl (leave (pick (codes "four") 3 refl begin))) (omega arith)

selection_example :
    (selection : Selection) × (select_spendable_coins_for_target_amount_with_options three_coins
        (pos 18)
        (combine_cap 2)
      ≡ returned selection)
    × ((selection ≡ nothing_selected)
        ⊎ Covers (positive_spendable_entries three_coins) (pos 18) 2 (some 2) selection)
unfolding greenfloor.CoinOps.Target.Subsets.worth positive_spendable_entries
selection_example = selection-Covers three_coins (pos 18) (combine_cap 2) (omega arith)

abbrev shape_coin : Str → ℕ → ShapeCoin
shape_coin id amount = record { id = id; amount = pos amount }

abbrev two_coins : List ShapeCoin
two_coins = shape_coin (codes "six") 6 ∷ shape_coin (codes "eight") 8 ∷ []

-- Two coins of 5, and one of 10.
abbrev rows : List ShapeLadderRow
rows =
    record { size = pos 5; target_count = pos 1; split_buffer_count = pos 1 }
    ∷ record { size = pos 8; target_count = pos 1; split_buffer_count = pos 0 }
    ∷ []

abbrev policy : ShapeFundingPolicy
policy = bootstrap (pos 5) (codes "xch") (plan_units (pos 1))

inventory_fits : inventory two_coins < two_63
unfolding inventory
inventory_fits = omega arith

-- Two coins of 5 are missing.
five_and_five : expand (lacking rows (pos 6 ∷ pos 8 ∷ []) rows) ≡ pos 5 ∷ pos 5 ∷ []
unfolding expand lacking greenfloor.CoinOps.Funding.deficit_count greenfloor.Common.I64.sub_i64
    greenfloor.Common.I64.wrap_i64 greenfloor.Common.Int.◌-ℤ◌
    greenfloor.CoinOps.Funding.Lacking.wanted greenfloor.Common.I64.add_i64
    greenfloor.Common.Int.◌+ℤ◌ greenfloor.CoinOps.Shape.Counts.occurrences
five_and_five = refl

outputs_fit : sum_of (expand (lacking rows (pos 6 ∷ pos 8 ∷ []) rows)) < two_63
unfolding sum_of
outputs_fit = rw five_and_five (omega arith)

funding_example :
    Returns
      (Pays two_coins (pos 10) (flags policy) (flags policy).combine_strategy)
      (resolve_shape_funding two_coins (pos 10) (some (shape_context_for_rows rows [])) policy)
funding_example =
    resolution-Pays two_coins (pos 10) (shape_context_for_rows rows []) policy inventory_fits
      (refl, (refl, tt)) (omega arith)

ladder_example :
    Returns
      (Planned two_coins (flags policy) (lacking rows (pos 6 ∷ pos 8 ∷ []) rows))
      (plan_shape_from_deficits rows two_coins policy)
ladder_example =
    plan_shape-Planned rows two_coins policy inventory_fits (refl, (refl, tt)) (omega arith)
      (omega arith, (omega arith, tt)) outputs_fit

-- 10 of 4, 7 and 9, which no single coin has.
abbrev split_params : DaemonAutoSplitParams
split_params = record {
  candidate_spendable = three_coins;
  required_amount_mojos = pos 10;
  canonical_asset_id = codes "xch";
  combine_input_cap = pos 5;
  allow_combine_prereq = true;
}

wallet_fits : inventory (shape_coins three_coins) < two_63
unfolding inventory shape_coins
wallet_fits = omega arith

wallet-Distinct : Distinct (shape_coins three_coins)
unfolding shape_coins
wallet-Distinct = (refl, (refl, (refl, tt)))

split_example :
    Returns
      (Suffices (shape_coins three_coins) (pos 10) (codes "xch"))
      (plan_daemon_auto_split_with_optional_protection split_params none)
split_example = auto_split-Suffices split_params none wallet_fits wallet-Distinct (omega arith)
