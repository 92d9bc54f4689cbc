-- ===== src/CoinOps/Amounts.antt =====
-- greenfloor-engine/src/coin_ops/scalars.rs and amounts.rs: conversions, and the outputs of a
-- combine.
pub mod Total
use greenfloor.Common.{
  ℕ, zero, suc, ◌+◌, ◌-◌, ◌/◌, ◌%◌, Bool, true, false, List, [], ◌∷◌, ltb, leb, if◌then◌else◌,
  replicate, max, map, unwrap_or,
}
use greenfloor.Common.Int.{ℤ, pos, negsuc, pos_part, max_ℤ, sub_ℕ}
use greenfloor.Common.I64.{two_63, two_64, add_i64}
use greenfloor.Common.Str.{Str, codes, to_ascii_lowercase}
use greenfloor.Common.Dict.{Dict, str_key, lookup, insert}
use greenfloor.Common.Result.{Result, ok, err, map_ok}
use greenfloor.CoinOps.Coin.{SpendableCoin}

-- The errors of error.rs that the conversions return; the text of the second names the field.
pub data SignerError : Type 0 where
  invalid_plan_values : SignerError
  other : Str → SignerError

unfoldable pub coin_op_non_negative_u64 : ℤ → Result ℕ SignerError
coin_op_non_negative_u64 (pos n) = ok n
coin_op_non_negative_u64 (negsuc n) = err invalid_plan_values

unfoldable pub usize_to_i64 : ℕ → Str → Result ℤ SignerError
usize_to_i64 value field = if ltb value two_63 then ok (pos value) else err (other field)

unfoldable pub coin_op_non_negative_u64_saturating : ℤ → ℕ
coin_op_non_negative_u64_saturating value = pos_part (max_ℤ value (pos 0))

-- `u64::saturating_add`.
unfoldable pub saturating_add_u64 : ℕ → ℕ → ℕ
saturating_add_u64 a b = if ltb (a + b) two_64 then a + b else two_64 - 1

-- `div_euclid` and `rem_euclid` by a positive number.
unfoldable pub div_euclid : ℤ → ℕ → ℤ
div_euclid (pos n) d = pos (n / d)
div_euclid (negsuc n) d = negsuc (n / d)

unfoldable pub rem_euclid : ℤ → ℕ → ℕ
rem_euclid (pos n) d = n % d
rem_euclid (negsuc n) d = d - 1 - n % d

-- The change through `last_mut`.
unfoldable pub add_to_last : ℕ → List ℕ → List ℕ
unfolding saturating_add_u64
add_to_last extra [] = []
add_to_last extra (amount ∷ []) = saturating_add_u64 amount extra ∷ []
add_to_last extra (amount ∷ next ∷ amounts) = amount ∷ add_to_last extra (next ∷ amounts)

-- The body after `output_count.max(1)`.
unfoldable pub output_amounts : ℤ → ℕ → Result (List ℕ) SignerError
unfolding usize_to_i64 div_euclid rem_euclid coin_op_non_negative_u64_saturating add_to_last
output_amounts total output_count =
    map_ok
      (λ _.
        add_to_last (coin_op_non_negative_u64_saturating (pos (rem_euclid total output_count))) (
          replicate output_count
            (coin_op_non_negative_u64_saturating (div_euclid total output_count))))
      (usize_to_i64 output_count (codes "combine.output_count"))

unfoldable pub combine_output_amounts : ℤ → ℕ → Result (List ℕ) SignerError
unfolding output_amounts
combine_output_amounts total output_count = output_amounts total (max output_count 1)

-- The map from ids to amounts, where the last coin with an id counts.
unfoldable pub amounts_by_id : Dict Str ℤ → List SpendableCoin → Dict Str ℤ
unfolding to_ascii_lowercase
amounts_by_id m [] = m
amounts_by_id m (coin ∷ coins) =
    amounts_by_id (insert (to_ascii_lowercase coin.id) coin.amount m) coins

-- The sum, from the first id to the last.
unfoldable pub sum_from : ℤ → List ℤ → ℤ
sum_from total [] = total
sum_from total (amount ∷ amounts) = sum_from (add_i64 total amount) amounts

unfoldable pub total_for_coin_ids : List SpendableCoin → List Str → ℤ
unfolding amounts_by_id sum_from to_ascii_lowercase
total_for_coin_ids spendable coin_ids = sum_from (pos 0) (
    map
      (λ coin_id.
        unwrap_or (lookup (to_ascii_lowercase coin_id) (amounts_by_id [] spendable)) (pos 0))
      coin_ids)
