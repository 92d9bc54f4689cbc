-- ===== src/CoinOps/CombineInputs.antt =====
-- greenfloor-engine/src/coin_ops/input_selection/combine_inputs.rs: which coins are combined.
pub mod Largest
use greenfloor.Common.{
  ℕ, Bool, true, false, ◌&&◌, not, List, [], ◌∷◌, Option, none, some, if◌then◌else◌, keep, map, min,
  take, is_empty, unwrap_or,
}
use greenfloor.Common.Int.{ℤ, leb_ℤ}
use greenfloor.Common.Str.{Str, to_ascii_lowercase}
use greenfloor.CoinOps.Coin.{SpendableCoin, contains_id, select_exact_amount_coin_ids}

unfoldable pub normalized_exclude_ids : Option (List Str) → List Str
unfolding to_ascii_lowercase
normalized_exclude_ids none = []
normalized_exclude_ids (some ids) = map to_ascii_lowercase ids

unfoldable pub capped_count : ℕ → Option ℕ → ℕ
capped_count number_of_coins none = number_of_coins
capped_count number_of_coins (some cap) = min number_of_coins cap

unfoldable pub plan_exact_amount_combine_inputs :
    List SpendableCoin → ℕ → ℤ → Option (List Str) → Option ℕ → List Str
unfolding select_exact_amount_coin_ids normalized_exclude_ids capped_count
plan_exact_amount_combine_inputs spendable_coins number_of_coins amount_mojos exclude_coin_ids
      max_count =
    select_exact_amount_coin_ids spendable_coins amount_mojos
      (normalized_exclude_ids exclude_coin_ids) (some (capped_count number_of_coins max_count))

-- The filter of `plan_largest_combine_inputs`.
unfoldable pub is_combinable : List Str → SpendableCoin → Bool
unfolding contains_id to_ascii_lowercase
is_combinable excluded coin =
    not (is_empty coin.id) && not (contains_id excluded (to_ascii_lowercase coin.id))

-- `sort_by_key(|coin| Reverse(coin.amount))`, which is stable.
unfoldable pub place_coin : SpendableCoin → List SpendableCoin → List SpendableCoin
place_coin coin [] = coin ∷ []
place_coin coin (next ∷ coins) =
    let later = place_coin coin coins in
    if leb_ℤ next.amount coin.amount then coin ∷ next ∷ coins else next ∷ later

unfoldable pub by_amount : List SpendableCoin → List SpendableCoin
unfolding place_coin
by_amount [] = []
by_amount (coin ∷ coins) = place_coin coin (by_amount coins)

unfoldable pub plan_largest_combine_inputs :
    List SpendableCoin → ℕ → Option (List Str) → Option ℕ → List Str
unfolding normalized_exclude_ids capped_count is_combinable by_amount
plan_largest_combine_inputs spendable_coins number_of_coins exclude_coin_ids max_count =
    map (λ coin. coin.id)
      (take (capped_count number_of_coins max_count) (
        by_amount (keep (is_combinable (normalized_exclude_ids exclude_coin_ids)) spendable_coins)))
