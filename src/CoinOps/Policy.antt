-- ===== src/CoinOps/Policy.antt =====
-- greenfloor-engine/src/coin_ops/policy.rs: amounts that are too small for a CAT coin.
pub mod Dust
use greenfloor.Common.{Bool, true, false, ◌&&◌, ◌||◌, if◌then◌else◌}
use greenfloor.Common.Int.{ℤ, pos, max_ℤ, ltb_ℤ, leb_ℤ}
use greenfloor.Common.I64.{saturating_mul}
use greenfloor.Common.Str.{Str, codes, str_eq, trim, to_ascii_lowercase}

-- coinset/asset.rs.
unfoldable pub is_canonical_xch_asset : Str → Bool
unfolding trim to_ascii_lowercase
is_canonical_xch_asset asset_id =
    let symbol = to_ascii_lowercase (trim asset_id) in
    str_eq symbol (codes "xch") || str_eq symbol (codes "txch") || str_eq symbol (codes "1")

unfoldable pub coin_op_min_amount_mojos : Str → ℤ
coin_op_min_amount_mojos canonical_asset_id =
    if is_canonical_xch_asset canonical_asset_id then pos 0 else pos 1000

unfoldable pub amount_meets_coin_op_min_mojos : ℤ → Str → Bool
unfolding coin_op_min_amount_mojos
amount_meets_coin_op_min_mojos amount_mojos canonical_asset_id =
    leb_ℤ (coin_op_min_amount_mojos canonical_asset_id) amount_mojos

unfoldable pub coin_op_target_amount_allowed : ℤ → Str → Bool
unfolding amount_meets_coin_op_min_mojos
coin_op_target_amount_allowed amount_mojos canonical_asset_id =
    amount_meets_coin_op_min_mojos amount_mojos canonical_asset_id

unfoldable pub cat_overshoot_change_would_be_dust : ℤ → Str → Bool
unfolding coin_op_min_amount_mojos
cat_overshoot_change_would_be_dust remainder_mojos canonical_asset_id =
    let min_cat_mojos = coin_op_min_amount_mojos canonical_asset_id in
    ltb_ℤ (pos 0) min_cat_mojos
    && ltb_ℤ (pos 0) remainder_mojos
    && ltb_ℤ remainder_mojos min_cat_mojos

unfoldable pub overshoot_change_would_be_dust : ℤ → ℤ → Str → Bool
unfolding cat_overshoot_change_would_be_dust saturating_mul
overshoot_change_would_be_dust overshoot_amount amount_to_mojo_multiplier canonical_asset_id =
    if leb_ℤ overshoot_amount (pos 0)
    then false
    else cat_overshoot_change_would_be_dust
        (saturating_mul overshoot_amount (max_ℤ amount_to_mojo_multiplier (pos 1)))
        canonical_asset_id
