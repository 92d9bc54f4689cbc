-- ===== src/CoinOps/Units.antt =====
-- greenfloor-engine/src/coin_ops/unit_convert.rs: ladder units and on-chain mojos.
pub mod Exact
use greenfloor.Common.{Bool, true, false, ◌||◌, not, Option, none, some, if◌then◌else◌}
use greenfloor.Common.Int.{ℤ, pos, max_ℤ, leb_ℤ, eqb_ℤ}
use greenfloor.Common.I64.{saturating_mul, div_i64, rem_i64}

unfoldable pub mojos_from_whole_units : ℤ → ℤ → ℤ
unfolding saturating_mul
mojos_from_whole_units whole_units mojo_multiplier =
    saturating_mul whole_units (max_ℤ mojo_multiplier (pos 1))

unfoldable pub floored_units_from_mojos : ℤ → ℤ → ℤ
unfolding div_i64
floored_units_from_mojos amount_mojos mojo_multiplier =
    if leb_ℤ amount_mojos (pos 0)
    then pos 0
    else div_i64 amount_mojos (max_ℤ mojo_multiplier (pos 1))

unfoldable pub exact_whole_units_from_mojos : ℤ → ℤ → Option ℤ
unfolding div_i64 rem_i64
exact_whole_units_from_mojos amount_mojos mojo_multiplier =
    let multiplier = max_ℤ mojo_multiplier (pos 1) in
    if leb_ℤ amount_mojos (pos 0) || not (eqb_ℤ (rem_i64 amount_mojos multiplier) (pos 0))
    then none
    else some (div_i64 amount_mojos multiplier)
