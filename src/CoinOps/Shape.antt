-- ===== src/CoinOps/Shape.antt =====
-- greenfloor-engine/src/coin_ops/shape_protection.rs: which coin may be split without breaking up a
-- row of the ladder that is being built. `HashMap`s are association lists with one entry for a key
-- and `HashSet`s are lists that are only asked for membership.
pub mod Defer
pub mod Counts
pub mod Selection
use greenfloor.Common.{
  ℕ, zero, suc, ◌+◌, Bool, true, false, ◌&&◌, ◌||◌, not, List, [], ◌∷◌, Option, none, some,
  if◌then◌else◌, keep, any, is_empty, unwrap_or, map,
}
use greenfloor.Common.Int.{ℤ, pos, max_ℤ, ltb_ℤ, leb_ℤ, eqb_ℤ}
use greenfloor.Common.I64.{add_i64, saturating_mul}
use greenfloor.Common.Str.{Str, str_eq}
use greenfloor.Common.Dict.{Dict, ℤ_key, lookup, insert}
use greenfloor.CoinOps.Units.{floored_units_from_mojos, exact_whole_units_from_mojos}
use greenfloor.CoinOps.Coin.{SpendableCoin, is_selectable}

-- config/markets/mod.rs, over the type of the factor, an f64 that is not read here.
pub record LadderEntry (Float : Type 0) : Type 0 where
  pub size_base_units : ℤ
  pub target_count : ℤ
  pub split_buffer_count : ℤ
  pub combine_when_excess_factor : Float

unfoldable pub required_ladder_row_slot : ℤ → ℤ → ℤ → ℤ × ℤ
required_ladder_row_slot size_base_units target_count split_buffer_count =
    (size_base_units, add_i64 target_count split_buffer_count)

unfoldable pub required_rows_from_ladder_entries :
    {F : Type 0} → List (LadderEntry F) → List (ℤ × ℤ)
unfolding required_ladder_row_slot
required_rows_from_ladder_entries =
    map λ row. required_ladder_row_slot row.size_base_units row.target_count row.split_buffer_count

unfoldable pub contains : List ℤ → ℤ → Bool
contains sizes size = any (λ s. eqb_ℤ s size) sizes

-- `if let Some(entry) = counts.get_mut(amount) { *entry += 1 }`.
unfoldable pub count_one : ℤ → Dict ℤ ℤ → Dict ℤ ℤ
count_one amount [] = []
count_one amount ((size, count) ∷ counts) =
    let rest = count_one amount counts in
    if eqb_ℤ size amount then (size, add_i64 count (pos 1)) ∷ counts else (size, count) ∷ rest

unfoldable pub count_all : List ℤ → Dict ℤ ℤ → Dict ℤ ℤ
unfolding count_one
count_all [] counts = counts
count_all (amount ∷ amounts) counts = count_all amounts (count_one amount counts)

-- Collecting pairs into a `HashMap`: a later entry of a key replaces an earlier one.
unfoldable pub collect : Dict ℤ ℤ → List (ℤ × ℤ) → Dict ℤ ℤ
collect m [] = m
collect m ((size, count) ∷ rows) = collect (insert size count m) rows

unfoldable pub exact_ladder_coin_counts : List ℤ → List ℤ → Dict ℤ ℤ
unfolding count_all collect
exact_ladder_coin_counts spendable_amounts_base_units ladder_sizes =
    count_all spendable_amounts_base_units (collect [] (map (λ size. (size, pos 0)) ladder_sizes))

pub record LadderShapeContext : Type 0 where
  pub ladder_sizes : List ℤ
  pub protected_slots : Dict ℤ ℤ
  pub exact_ladder_counts : Dict ℤ ℤ

unfoldable pub from_required_rows : List (ℤ × ℤ) → List ℤ → LadderShapeContext
unfolding exact_ladder_coin_counts collect
from_required_rows rows spendable_amounts_base_units =
    let sizes = map (λ row. row.0) rows in
    record {
      ladder_sizes = sizes;
      protected_slots = collect [] rows;
      exact_ladder_counts = exact_ladder_coin_counts spendable_amounts_base_units sizes;
    }

unfoldable pub from_sell_ladder_entries : {F : Type 0} → List (LadderEntry F) → LadderShapeContext
unfolding from_required_rows required_rows_from_ladder_entries
from_sell_ladder_entries entries = from_required_rows (required_rows_from_ladder_entries entries) []

unfoldable pub split_would_cannibalize_protected_row : ℤ → ℤ → List ℤ → Dict ℤ ℤ → Dict ℤ ℤ → Bool
unfolding contains
split_would_cannibalize_protected_row coin_amount total_output_amount ladder_sizes protected_slots
      counts =
    let required = unwrap_or (lookup coin_amount protected_slots) (pos 0) in
    let current = unwrap_or (lookup coin_amount counts) (pos 0) in
    if not (contains ladder_sizes coin_amount)
    then false
    else if leb_ℤ required (pos 0)
    then false
    else if ltb_ℤ (pos 0) current && ltb_ℤ current required
    then true
    else ltb_ℤ total_output_amount coin_amount && leb_ℤ required current

unfoldable pub primary_ladder_row_size : List ℤ → Option ℤ
primary_ladder_row_size [] = none
primary_ladder_row_size (size ∷ sizes) = elim (primary_ladder_row_size sizes) [
  | none ↦ some size
  | some largest ↦ some (max_ℤ size largest)
]

unfoldable pub primary_row_satisfied : ℤ → Dict ℤ ℤ → Dict ℤ ℤ → Bool
primary_row_satisfied primary_size protected_slots counts =
    let required = unwrap_or (lookup primary_size protected_slots) (pos 0) in
    if leb_ℤ required (pos 0)
    then false
    else leb_ℤ required (unwrap_or (lookup primary_size counts) (pos 0))

unfoldable pub context_primary_row_satisfied : LadderShapeContext → Bool
unfolding primary_ladder_row_size primary_row_satisfied
context_primary_row_satisfied ctx = elim (primary_ladder_row_size ctx.ladder_sizes) [
  | none ↦ false
  | some primary_size ↦
      primary_row_satisfied primary_size ctx.protected_slots ctx.exact_ladder_counts
]

unfoldable pub remaining_shape_below_primary_row : ℤ → ℤ → Bool
remaining_shape_below_primary_row remaining_total primary_size =
    ltb_ℤ (pos 0) remaining_total && ltb_ℤ remaining_total primary_size

unfoldable pub defer_sub_primary_shape_to_coin_ops : ℤ → ℤ → Bool → Bool
unfolding remaining_shape_below_primary_row
defer_sub_primary_shape_to_coin_ops remaining_total primary_size primary_satisfied =
    primary_satisfied && remaining_shape_below_primary_row remaining_total primary_size

pub record SplittableCandidate : Type 0 where
  pub id : Str
  pub funding_units : ℤ
  pub exact_ladder_units : Option ℤ

unfoldable pub from_mojos : Str → ℤ → ℤ → SplittableCandidate
unfolding floored_units_from_mojos exact_whole_units_from_mojos
from_mojos id amount_mojos mojo_multiplier = record {
  id = id;
  funding_units = floored_units_from_mojos amount_mojos mojo_multiplier;
  exact_ladder_units = exact_whole_units_from_mojos amount_mojos mojo_multiplier;
}

unfoldable pub from_plan_units : Str → ℤ → SplittableCandidate
from_plan_units id funding_units = record {
  id = id;
  funding_units = funding_units;
  exact_ladder_units = if ltb_ℤ (pos 0) funding_units then some funding_units else none;
}

-- The two filters of `select_smallest_non_cannibalizing_index`.
unfoldable pub is_eligible : ℤ → LadderShapeContext → SplittableCandidate → Bool
is_eligible required_output_base_units ctx candidate =
    leb_ℤ required_output_base_units candidate.funding_units && elim candidate.exact_ladder_units [
      | none ↦ true
      | some clip_units ↦ not (
          split_would_cannibalize_protected_row clip_units required_output_base_units
            ctx.ladder_sizes ctx.protected_slots ctx.exact_ladder_counts)
    ]

-- `enumerate`, from an index on.
unfoldable pub enumerate_from : ℕ → List SplittableCandidate → List (ℕ × SplittableCandidate)
enumerate_from i [] = []
enumerate_from i (candidate ∷ candidates) = (i, candidate) ∷ enumerate_from (suc i) candidates

-- `min_by_key`: the first of the smallest.
unfoldable pub first_smallest : List (ℕ × SplittableCandidate) → Option (ℕ × SplittableCandidate)
first_smallest [] = none
first_smallest (entry ∷ entries) = elim (first_smallest entries) [
  | none ↦ some entry
  | some best ↦ if leb_ℤ entry.1.funding_units best.1.funding_units then some entry else some best
]

-- The chosen index with the candidate at it.
unfoldable pub select_smallest_non_cannibalizing_index :
    List SplittableCandidate → ℤ → LadderShapeContext → Option (ℕ × SplittableCandidate)
unfolding first_smallest enumerate_from
select_smallest_non_cannibalizing_index candidates required_output_base_units ctx = first_smallest (
    keep (λ entry. is_eligible required_output_base_units ctx entry.1)
      (enumerate_from 0 candidates))

-- `candidates[index].id` of the chosen index.
unfoldable pub select_smallest_non_cannibalizing_candidate_id :
    List SplittableCandidate → ℤ → LadderShapeContext → Option Str
unfolding select_smallest_non_cannibalizing_index
select_smallest_non_cannibalizing_candidate_id candidates required_output_base_units ctx =
    elim (select_smallest_non_cannibalizing_index candidates required_output_base_units ctx) [
      | none ↦ none
      | some entry ↦ some entry.1.id
    ]

unfoldable pub find_coin : Str → List SpendableCoin → Option SpendableCoin
find_coin id [] = none
find_coin id (coin ∷ coins) = if str_eq coin.id id then some coin else find_coin id coins

unfoldable pub split_candidates : List SpendableCoin → ℤ → ℤ → List Str → List SplittableCandidate
unfolding is_selectable from_mojos saturating_mul
split_candidates spendable required_amount_base_units multiplier exclude_coin_ids =
    map (λ coin. from_mojos coin.id coin.amount multiplier)
      (keep (is_selectable (saturating_mul required_amount_base_units multiplier) exclude_coin_ids)
        spendable)

unfoldable pub select_smallest_non_cannibalizing_spendable :
    List SpendableCoin → ℤ → ℤ → List Str → LadderShapeContext → Option SpendableCoin
unfolding split_candidates select_smallest_non_cannibalizing_candidate_id find_coin
select_smallest_non_cannibalizing_spendable spendable required_amount_base_units
      base_unit_mojo_multiplier exclude_coin_ids ctx =
    let multiplier = max_ℤ base_unit_mojo_multiplier (pos 1) in
    elim (select_smallest_non_cannibalizing_candidate_id
      (split_candidates spendable required_amount_base_units multiplier exclude_coin_ids)
      required_amount_base_units ctx) [
        | none ↦ none
        | some selected_id ↦ find_coin selected_id spendable
      ]
