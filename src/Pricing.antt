-- ===== src/Pricing.antt =====
-- greenfloor-engine/src/offer/pricing.rs: the rounding of f64 in the mathematics of ladders.
use greenfloor.Common.{◌||◌, not, Option, none, some, if◌then◌else◌}
use greenfloor.Common.Int.{ℤ, pos}
use greenfloor.Common.I64.{max_i64, min_i64}
use greenfloor.Common.Float.{Float}
use greenfloor.Common.Result.{Result, ok, err}

-- The error of error.rs that the ladder functions return.
pub data LadderError : Type 0 where
  invalid_ladder_math : LadderError

module _ {F : Type 0} (float : Float F) where
  unfoldable pub i64_to_f64 : ℤ → F
  i64_to_f64 value = float.of_i64 value

  unfoldable pub f64_to_i64_round_internal : F → Option ℤ
  f64_to_i64_round_internal value =
      let rounded = float.round value in
      if not (float.is_finite rounded)
      then none
      else if float.less rounded (i64_to_f64 min_i64) || float.less (i64_to_f64 max_i64) rounded
      then none
      else some (float.to_i64 rounded)

  unfoldable pub f64_to_i64_round_ladder : F → Result ℤ LadderError
  f64_to_i64_round_ladder value = elim (f64_to_i64_round_internal value) [
    | none ↦ err invalid_ladder_math
    | some rounded ↦ ok rounded
  ]

  unfoldable pub combine_threshold_count : ℤ → F → Result ℤ LadderError
  combine_threshold_count target_count combine_when_excess_factor =
      let scaled = float.times (i64_to_f64 target_count) combine_when_excess_factor in
      if not (float.is_finite scaled)
      then err invalid_ladder_math
      else f64_to_i64_round_ladder (float.larger (float.ceiling scaled) (float.of_i64 (pos 2)))
