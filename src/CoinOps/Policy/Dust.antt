-- ===== src/CoinOps/Policy/Dust.antt =====
-- greenfloor-engine/src/coin_ops/policy.rs and selection.rs: the change of a split.
use greenfloor.Common.{ℕ, ◌*◌, ◌<◌, ◌≡◌, max, true, false, ◌↔◌, arith}
use greenfloor.Common.Int.{ℤ, pos, negsuc, pos_part, ◌*ℤ◌, ◌<ℤ◌, max_ℤ}
use greenfloor.Common.I64.{saturating_mul, clamp_i64}
use native.Mathlib.Nat.{mul-pos}
use greenfloor.Common.Str.{Str}
use greenfloor.CoinOps.Policy.{
  coin_op_min_amount_mojos, amount_meets_coin_op_min_mojos, cat_overshoot_change_would_be_dust,
  overshoot_change_would_be_dust,
}

saturated-pos : (a b : ℕ) → 0 < a * b → pos 0 <ℤ saturating_mul (pos a) (pos b)
unfolding saturating_mul clamp_i64 ◌*ℤ◌
saturated-pos a b h = ground arith

multiplier-pos : (z : ℤ) → (d : ℕ) × (max_ℤ z (pos 1) ≡ pos d) × (0 < d)
multiplier-pos z = (max (pos_part z) 1, ground arith, ground arith)

-- The change of an overshoot is positive with it.
change-pos :
    (overshoot multiplier : ℤ)
    → pos 0 <ℤ overshoot
    → pos 0 <ℤ saturating_mul overshoot (max_ℤ multiplier (pos 1))
change-pos (pos n) multiplier h =
    let (d, e, positive) = multiplier-pos multiplier in
    let some_mojos : 0 < n = omega (arith, h) in
    rw e (saturated-pos n d (mul-pos some_mojos positive))
change-pos (negsuc n) multiplier h = ground (arith, h)

-- An overshoot is dust exactly when it is positive and the change that it makes, in mojos and
-- saturated to i64, is too small for a coin of the asset; so a positive change that is not dust may
-- be a coin of its own.
pub dust_iff :
    (overshoot multiplier : ℤ) (asset : Str)
    → let change = saturating_mul overshoot (max_ℤ multiplier (pos 1)) in
      (overshoot_change_would_be_dust overshoot multiplier asset ≡ true)
      ↔ ((pos 0 <ℤ overshoot) × (amount_meets_coin_op_min_mojos change asset ≡ false))
unfolding overshoot_change_would_be_dust cat_overshoot_change_would_be_dust
    amount_meets_coin_op_min_mojos coin_op_min_amount_mojos
dust_iff overshoot multiplier asset = ground (arith, change-pos overshoot multiplier)
