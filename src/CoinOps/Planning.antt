-- ===== src/CoinOps/Planning.antt =====
-- greenfloor-engine/src/coin_ops/plan.rs: how many coins of each size are split off or combined.
pub mod Budget
use greenfloor.Common.{
  Bool, true, false, ◌&&◌, ◌||◌, not, List, [], ◌∷◌, Option, none, some, if◌then◌else◌, map,
  is_empty, keep_map,
}
use greenfloor.Common.Int.{ℤ, pos, min_ℤ, ltb_ℤ, leb_ℤ, eqb_ℤ}
use greenfloor.Common.I64.{add_i64, sub_i64}
use greenfloor.Common.Float.{Float, Compared, lesser, equal, greater}
use greenfloor.Common.Result.{Result, ok, err}
use greenfloor.Pricing.{LadderError, i64_to_f64, combine_threshold_count}
use greenfloor.CoinOps.Kind.{
  CoinOpKind, split, combine, CoinOpPlan, CoinOpPlanReason, low_watermark_buffer_deficit,
  excess_only_policy,
}

pub record BucketSpec (F : Type 0) : Type 0 where
  pub size_base_units : ℤ
  pub target_count : ℤ
  pub split_buffer_count : ℤ
  pub combine_when_excess_factor : F
  pub current_count : ℤ

pub record CoinOpPlanningResult : Type 0 where
  pub plans : List CoinOpPlan
  pub invalid_ladder_math_sizes : List ℤ

-- A size, with the number of operations that it asks for.
abbrev pub Wanted : Type 0
Wanted = ℤ × ℤ

-- The loops over the deficits and over the excesses.
unfoldable pub plan_ops : CoinOpKind → CoinOpPlanReason → ℤ → ℤ → ℤ → List Wanted → List CoinOpPlan
plan_ops kind reason fee remaining_ops remaining_fee [] = []
plan_ops kind reason fee remaining_ops remaining_fee ((size, wanted) ∷ rest) =
    let op_count = min_ℤ wanted remaining_ops in
    let skip = plan_ops kind reason fee remaining_ops remaining_fee rest in
    let next =
      plan_ops kind reason fee (sub_i64 remaining_ops op_count) (sub_i64 remaining_fee fee) rest in
    let plan : CoinOpPlan = record {
      op_type = kind;
      size_base_units = size;
      op_count = op_count;
      reason = reason;
    } in
    if leb_ℤ remaining_ops (pos 0)
    then []
    else if ltb_ℤ remaining_fee fee
    then []
    else if leb_ℤ op_count (pos 0)
    then skip
    else plan ∷ next

-- A non-positive budget stands for none: half of the largest i64.
unfoldable pub fee_budget : ℤ → ℤ
fee_budget max_fee_budget_mojos =
    if ltb_ℤ (pos 0) max_fee_budget_mojos then max_fee_budget_mojos else pos 4611686018427387903

-- `sort_by_key(|(bucket, _)| bucket.size_base_units)`, which is stable.
unfoldable pub place_excess : Wanted → List Wanted → List Wanted
place_excess entry [] = entry ∷ []
place_excess entry (next ∷ entries) =
    let later = place_excess entry entries in
    if ltb_ℤ next.0 entry.0 then next ∷ later else entry ∷ next ∷ entries

unfoldable pub sort_excess : List Wanted → List Wanted
sort_excess [] = []
sort_excess (entry ∷ entries) = place_excess entry (sort_excess entries)

-- `then_with(..)` after `unwrap_or(Equal)`: whether the comparison gives `Less`.
unfoldable pub is_before_deficit : Option Compared → ℤ → ℤ → Bool
is_before_deficit (some lesser) left right = true
is_before_deficit (some greater) left right = false
is_before_deficit (some equal) left right = ltb_ℤ left right
is_before_deficit none left right = ltb_ℤ left right

module _ {F : Type 0} (float : Float F) where
  -- The sizes with an invalid threshold, and the excesses.
  unfoldable pub excesses : List (BucketSpec F) → List ℤ × List Wanted
  excesses [] = ([], [])
  excesses (bucket ∷ buckets) =
      let (invalid, found) = excesses buckets in
      elim (combine_threshold_count float bucket.target_count bucket.combine_when_excess_factor) [
        | err _ ↦ (bucket.size_base_units ∷ invalid, found)
        | ok threshold ↦
            let excess = sub_i64 bucket.current_count threshold in
            if ltb_ℤ (pos 0) excess
            then (invalid, (bucket.size_base_units, excess) ∷ found)
            else (invalid, found)
      ]

  unfoldable pub collect_combine_candidates : List (BucketSpec F) → List ℤ × List Wanted
  collect_combine_candidates buckets =
      let (invalid, found) = excesses buckets in (invalid, sort_excess found)

  -- The deficit of a bucket, with its ratio to the target.
  unfoldable pub deficit_of : BucketSpec F → Option (F × Wanted)
  deficit_of bucket =
      let deficit =
        sub_i64 (add_i64 bucket.target_count bucket.split_buffer_count) bucket.current_count in
      if ltb_ℤ (pos 0) deficit && ltb_ℤ (pos 0) bucket.target_count
      then some (
        float.divide (i64_to_f64 float deficit) (i64_to_f64 float bucket.target_count),
        (bucket.size_base_units, deficit),
      )
      else none

  -- `sort_by`: the largest ratio first, then the smallest size.
  unfoldable pub place_deficit : F × Wanted → List (F × Wanted) → List (F × Wanted)
  place_deficit entry [] = entry ∷ []
  place_deficit (ratio, wanted) ((other, next) ∷ entries) =
      let later = place_deficit (ratio, wanted) entries in
      if is_before_deficit (float.ordering ratio other) next.0 wanted.0
      then (other, next) ∷ later
      else (ratio, wanted) ∷ (other, next) ∷ entries

  unfoldable pub sort_deficits : List (F × Wanted) → List (F × Wanted)
  sort_deficits [] = []
  sort_deficits (entry ∷ entries) = place_deficit entry (sort_deficits entries)

  unfoldable pub deficits_of : List (BucketSpec F) → List (F × Wanted)
  deficits_of buckets = sort_deficits (keep_map deficit_of buckets)

  unfoldable pub plan_coin_ops : List (BucketSpec F) → ℤ → ℤ → ℤ → ℤ → CoinOpPlanningResult
  plan_coin_ops buckets max_operations_per_run max_fee_budget_mojos split_fee_mojos
        combine_fee_mojos =
      let (invalid, excess_candidates) = collect_combine_candidates buckets in
      let budget = fee_budget max_fee_budget_mojos in
      let deficits = deficits_of buckets in
      if not (is_empty deficits)
      then record {
        plans =
            plan_ops split low_watermark_buffer_deficit split_fee_mojos max_operations_per_run
              budget (map (λ entry. entry.1) deficits);
        invalid_ladder_math_sizes = invalid;
      }
      else record {
        plans =
            plan_ops combine excess_only_policy combine_fee_mojos max_operations_per_run budget
              excess_candidates;
        invalid_ladder_math_sizes = invalid;
      }
