-- ===== src/CoinOps/Funding/Combine.antt =====
-- greenfloor-engine/src/coin_ops/shape/combine.rs: the coins that are combined for an amount.
use greenfloor.Common.{
  ℕ, Bool, true, false, ◌&&◌, ◌||◌, not, List, [], ◌∷◌, Option, none, some, ltb, ◌==◌,
  if◌then◌else◌, map, keep, is_empty, length,
}
use greenfloor.Common.Int.{ℤ, pos, pos_part, max_ℤ, ltb_ℤ, leb_ℤ, eqb_ℤ}
use greenfloor.Common.I64.{sub_i64, saturating_sub}
use greenfloor.Common.Str.{Str, trim}
use greenfloor.Common.Run.{Run, returned, ◌>>=◌}
use greenfloor.Common.Dict.{Dict}
use greenfloor.CoinOps.Policy.{overshoot_change_would_be_dust}
use greenfloor.CoinOps.Coin.{SpendableCoin, contains_id}
use greenfloor.CoinOps.Target.{
  Selection, default_options, combine_multi_coin, combine_cap,
  select_spendable_coins_for_target_amount_with_options,
}
use greenfloor.CoinOps.Funding.{ShapeCoin, CombineInputs}

pub record CombineDustContext : Type 0 where
  pub mojo_multiplier : ℤ
  pub canonical_asset_id : Str

-- metrics/mod.rs.
unfoldable pub metric_non_negative_usize : ℤ → ℕ
metric_non_negative_usize value = pos_part (max_ℤ value (pos 0))

-- `allowed_coin_ids.is_none_or(|allowed| allowed.contains(&coin.id))`.
unfoldable pub is_allowed : Option (List Str) → Str → Bool
is_allowed none id = true
is_allowed (some allowed) id = contains_id allowed id

unfoldable pub is_combine_input : Option (List Str) → ShapeCoin → Bool
is_combine_input allowed_coin_ids coin =
    is_allowed allowed_coin_ids coin.id
    && not (is_empty (trim coin.id))
    && ltb_ℤ (pos 0) coin.amount

-- `SpendableCoin::new`.
unfoldable pub spendable_coin : ShapeCoin → SpendableCoin
spendable_coin coin = record { id = coin.id; amount = coin.amount; puzzle_hash = [] }

unfoldable pub combine_candidates : Option (List Str) → List ShapeCoin → List SpendableCoin
combine_candidates allowed_coin_ids coins =
    map spendable_coin (keep (is_combine_input allowed_coin_ids) coins)

-- `dust.is_some_and(..)` on the overshoot of a single coin.
unfoldable pub leaves_dust : Option CombineDustContext → ℤ → ℤ → Bool
leaves_dust none total target_amount = false
leaves_dust (some ctx) total target_amount =
    overshoot_change_would_be_dust (saturating_sub total target_amount) ctx.mojo_multiplier
      ctx.canonical_asset_id

-- A selection of at least two coins.
unfoldable pub at_least_two : Selection → Option Selection
at_least_two selection = if ltb (length selection.ids) 2 then none else some selection

unfoldable pub multi_coin : List SpendableCoin → ℤ → Run (Option Selection)
multi_coin spendable target_amount = do
  second ←
      select_spendable_coins_for_target_amount_with_options spendable target_amount
        combine_multi_coin
  returned (at_least_two second)

-- The first selection, or when it is a single coin that leaves dust, one of several coins.
unfoldable pub unconstrained :
    List SpendableCoin → ℤ → Option CombineDustContext → Run (Option Selection)
unconstrained spendable target_amount dust =
    select_spendable_coins_for_target_amount_with_options spendable target_amount default_options
    >>= λ first.
        if not (ltb (length first.ids) 2)
        then returned (some first)
        else if not (length first.ids == 1 && leaves_dust dust first.total target_amount)
        then returned none
        else multi_coin spendable target_amount

abbrev pub inputs_of : ℤ → ℤ → ℕ → Bool → Selection → CombineInputs
inputs_of target_amount combine_input_cap selected_count_before_cap cap_applied selection = record {
  input_coin_ids = selection.ids;
  selected_total = selection.total;
  target_amount = target_amount;
  exact_match = selection.exact;
  cap_applied = cap_applied;
  selected_count_before_cap = selected_count_before_cap;
  combine_input_cap = combine_input_cap;
}

-- The selection within the cap.
unfoldable pub within_cap : List SpendableCoin → ℤ → ℤ → Selection → Run (Option CombineInputs)
within_cap spendable target_amount combine_input_cap selection =
    let cap = metric_non_negative_usize combine_input_cap in
    let count = length selection.ids in
    if ltb cap count
    then (select_spendable_coins_for_target_amount_with_options spendable target_amount
          (combine_cap cap)
        >>= λ capped. returned (
            if is_empty capped.ids
            then none
            else some (inputs_of target_amount combine_input_cap count true capped)))
    else returned (some (inputs_of target_amount combine_input_cap count false selection))

unfoldable pub capped_inputs :
    List SpendableCoin → ℤ → ℤ → Option Selection → Run (Option CombineInputs)
capped_inputs spendable target_amount combine_input_cap none = returned none
capped_inputs spendable target_amount combine_input_cap (some selection) =
    within_cap spendable target_amount combine_input_cap selection

unfoldable pub plan_combine_inputs_for_target_in_with_dust :
    List ShapeCoin
    → ℤ
    → ℤ
    → Option (List Str)
    → Option CombineDustContext
    → Run (Option CombineInputs)
plan_combine_inputs_for_target_in_with_dust coins target_amount combine_input_cap allowed_coin_ids
      dust =
    let spendable = combine_candidates allowed_coin_ids coins in
    if leb_ℤ target_amount (pos 0)
    then returned none
    else if ltb (metric_non_negative_usize combine_input_cap) 2
    then returned none
    else (unconstrained spendable target_amount dust
        >>= capped_inputs spendable target_amount combine_input_cap)

unfoldable pub plan_combine_inputs_for_target_in :
    List ShapeCoin → ℤ → ℤ → Option (List Str) → Run (Option CombineInputs)
plan_combine_inputs_for_target_in coins target_amount combine_input_cap allowed_coin_ids =
    plan_combine_inputs_for_target_in_with_dust coins target_amount combine_input_cap
      allowed_coin_ids none

unfoldable pub plan_combine_inputs_for_target : List ShapeCoin → ℤ → ℤ → Run (Option CombineInputs)
plan_combine_inputs_for_target coins target_amount combine_input_cap =
    plan_combine_inputs_for_target_in coins target_amount combine_input_cap none

-- `String::cmp`: the order of the code points is that of the bytes.
unfoldable pub str_less : Str → Str → Bool
str_less [] [] = false
str_less [] (_ ∷ _) = true
str_less (_ ∷ _) [] = false
str_less (x ∷ xs) (y ∷ ys) = ltb x y || ((x == y) && str_less xs ys)

unfoldable pub place_by :
    (ShapeCoin → ShapeCoin → Bool) → ShapeCoin → List ShapeCoin → List ShapeCoin
place_by is_less coin [] = coin ∷ []
place_by is_less coin (next ∷ coins) =
    let later = place_by is_less coin coins in
    if is_less next coin then next ∷ later else coin ∷ next ∷ coins

-- `sort_by`, which is stable, over the strict order of its comparison.
unfoldable pub sort_by : (ShapeCoin → ShapeCoin → Bool) → List ShapeCoin → List ShapeCoin
sort_by is_less [] = []
sort_by is_less (coin ∷ coins) = place_by is_less coin (sort_by is_less coins)

unfoldable pub by_id : ShapeCoin → ShapeCoin → Bool
by_id left right = str_less left.id right.id

unfoldable pub by_amount_then_id : ShapeCoin → ShapeCoin → Bool
by_amount_then_id left right =
    ltb_ℤ left.amount right.amount || (eqb_ℤ left.amount right.amount && str_less left.id right.id)

-- `get_mut`, a count above 0, and the count less one.
unfoldable pub take_slot : ℤ → Dict ℤ ℤ → Option (Dict ℤ ℤ)
take_slot amount [] = none
take_slot amount ((size, remaining) ∷ slots) =
    let later = take_slot amount slots in
    if eqb_ℤ size amount
    then if ltb_ℤ (pos 0) remaining then some ((size, sub_i64 remaining (pos 1)) ∷ slots) else none
    else elim later [ none ↦ none | some rest ↦ some ((size, remaining) ∷ rest) ]

-- The loop: the eligible coins, and the excluded ones.
unfoldable pub partition_from : Dict ℤ ℤ → List ShapeCoin → List ShapeCoin × List ShapeCoin
partition_from protected_remaining [] = ([], [])
partition_from protected_remaining (coin ∷ coins) =
    elim (take_slot coin.amount protected_remaining) [
      | none ↦
          let (eligible, excluded) = partition_from protected_remaining coins in
          (coin ∷ eligible, excluded)
      | some rest ↦
          let (eligible, excluded) = partition_from rest coins in (eligible, coin ∷ excluded)
    ]

unfoldable pub partition_protected_coins :
    List ShapeCoin → Dict ℤ ℤ → List ShapeCoin × List ShapeCoin
partition_protected_coins coins protected_slots =
    let (eligible, excluded) = partition_from protected_slots (sort_by by_id coins) in
    (eligible, sort_by by_amount_then_id excluded)

-- The selection, unless its change is dust.
unfoldable pub without_dust : ℤ → Str → Option CombineInputs → Option CombineInputs
without_dust mojo_multiplier canonical_asset_id none = none
without_dust mojo_multiplier canonical_asset_id (some selection) =
    let change = saturating_sub selection.selected_total selection.target_amount in
    if overshoot_change_would_be_dust change mojo_multiplier canonical_asset_id
    then none
    else some selection

unfoldable pub combine_with_dust_guard :
    List ShapeCoin → ℤ → ℤ → ℤ → Str → Option (List Str) → Run (Option CombineInputs)
combine_with_dust_guard coins target_amount combine_input_cap mojo_multiplier canonical_asset_id
      allowed_coin_ids =
    do
      found ←
          plan_combine_inputs_for_target_in_with_dust coins target_amount combine_input_cap
            allowed_coin_ids
            (some (record {
              mojo_multiplier = mojo_multiplier;
              canonical_asset_id = canonical_asset_id;
            }))
      returned (without_dust mojo_multiplier canonical_asset_id found)

-- The excluded coins are allowed one after the other; at last all coins are.
unfoldable pub release_from :
    (Option (List Str) → Run (Option CombineInputs))
    → List Str
    → List ShapeCoin
    → Run (Option CombineInputs)
release_from attempt allowed_ids [] = attempt none
release_from attempt allowed_ids (coin ∷ excluded) =
    let allowed = coin.id ∷ allowed_ids in
    let rest = release_from attempt allowed excluded in
    attempt (some allowed) >>= λ found. elim found [
      | none ↦ rest
      | some plan ↦ returned (some plan)
    ]

unfoldable pub plan_ladder_preserving_combine :
    List ShapeCoin → Dict ℤ ℤ → ℤ → ℤ → ℤ → Str → Run (Option CombineInputs)
plan_ladder_preserving_combine coins protected_slots target_amount combine_input_cap mojo_multiplier
      canonical_asset_id =
    let (eligible, excluded) = partition_protected_coins coins protected_slots in
    let allowed_ids = map (λ coin. coin.id) eligible in
    let attempt =
      combine_with_dust_guard coins target_amount combine_input_cap mojo_multiplier
        canonical_asset_id in
    attempt (some allowed_ids) >>= λ found. elim found [
      | none ↦ release_from attempt allowed_ids excluded
      | some plan ↦ returned (some plan)
    ]
