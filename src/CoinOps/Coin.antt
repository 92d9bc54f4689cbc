-- ===== src/CoinOps/Coin.antt =====
-- greenfloor-engine/src/coin_ops/selection.rs: wallet coins and the plain ways of picking them.
pub mod Picks
use greenfloor.Common.{
  ℕ, suc, Bool, false, ◌&&◌, not, List, [], ◌∷◌, Option, none, some, leb, if◌then◌else◌, keep, any,
  is_empty,
}
use greenfloor.Common.Int.{ℤ, pos, leb_ℤ, eqb_ℤ}
use greenfloor.Common.I64.{sub_i64}
use greenfloor.Common.Str.{Str, str_eq, to_ascii_lowercase}
use greenfloor.CoinOps.Policy.{overshoot_change_would_be_dust}

pub record SpendableCoin : Type 0 where
  pub id : Str
  pub amount : ℤ
  pub puzzle_hash : Str

-- `contains` on a set of ids.
unfoldable pub contains_id : List Str → Str → Bool
contains_id ids id = any (str_eq id) ids

-- `max_by_key(|coin| coin.amount)`: the last of the largest.
unfoldable pub last_largest : List SpendableCoin → Option SpendableCoin
last_largest [] = none
last_largest (coin ∷ coins) = elim (last_largest coins) [
  | none ↦ some coin
  | some best ↦ if leb_ℤ coin.amount best.amount then some best else some coin
]

-- The filter of `select_largest_spendable_coin`.
unfoldable pub is_selectable : ℤ → List Str → SpendableCoin → Bool
unfolding contains_id
is_selectable min_amount_mojos exclude_coin_ids coin =
    not (is_empty coin.id)
    && not (contains_id exclude_coin_ids coin.id)
    && leb_ℤ min_amount_mojos coin.amount

unfoldable pub select_largest_spendable_coin :
    List SpendableCoin → ℤ → List Str → Option SpendableCoin
unfolding last_largest is_selectable
select_largest_spendable_coin coins min_amount_mojos exclude_coin_ids =
    last_largest (keep (is_selectable min_amount_mojos exclude_coin_ids) coins)

-- The tests of the loop of `select_exact_amount_coin_ids`.
unfoldable pub is_exact : ℤ → List Str → SpendableCoin → Bool
unfolding contains_id to_ascii_lowercase
is_exact amount_mojos exclude_coin_ids coin =
    not (is_empty coin.id)
    && not (contains_id exclude_coin_ids (to_ascii_lowercase coin.id))
    && eqb_ℤ coin.amount amount_mojos

-- `selected.len() >= cap` after a push.
unfoldable pub reached : Option ℕ → ℕ → Bool
reached none count = false
reached (some cap) count = leb cap count

-- The loop, with the number of ids selected so far.
unfoldable pub exact_from : ℤ → List Str → Option ℕ → ℕ → List SpendableCoin → List Str
unfolding is_exact reached
exact_from amount_mojos exclude_coin_ids max_count count [] = []
exact_from amount_mojos exclude_coin_ids max_count count (coin ∷ coins) =
    let skip = exact_from amount_mojos exclude_coin_ids max_count count coins in
    let rest = exact_from amount_mojos exclude_coin_ids max_count (suc count) coins in
    if is_exact amount_mojos exclude_coin_ids coin
    then coin.id ∷ (if reached max_count (suc count) then [] else rest)
    else skip

unfoldable pub select_exact_amount_coin_ids :
    List SpendableCoin → ℤ → List Str → Option ℕ → List Str
unfolding exact_from
select_exact_amount_coin_ids coins amount_mojos exclude_coin_ids max_count =
    exact_from amount_mojos exclude_coin_ids max_count 0 coins

unfoldable pub split_would_create_sub_cat_change : ℤ → ℤ → Str → Bool × ℤ
unfolding overshoot_change_would_be_dust
split_would_create_sub_cat_change selected_amount_mojos required_amount_mojos canonical_asset_id =
    let remainder = sub_i64 selected_amount_mojos required_amount_mojos in
    (overshoot_change_would_be_dust remainder (pos 1) canonical_asset_id, remainder)
