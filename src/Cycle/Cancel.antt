-- ===== src/Cycle/Cancel.antt =====
-- greenfloor-engine/src/cycle/cancel.rs: when a move of the price cancels the offers.
pub mod Triggered
use greenfloor.Common.{
  ◌≡◌, refl, ap, Bool, true, false, ◌||◌, not, Option, none, some, arith, if◌then◌else◌, is_none,
  Bool-cases, inl, inr,
}
use greenfloor.Common.Int.{ℤ, pos, max_ℤ, ltb_ℤ, ◌≤ℤ◌}
use greenfloor.Common.Str.{Str, codes, str_eq, trim, to_ascii_lowercase}
use greenfloor.Common.Float.{Float}

unfoldable pub cancel_move_threshold_bps : Option ℤ → Option ℤ → ℤ
cancel_move_threshold_bps market_threshold env_threshold =
    let from_env : ℤ = elim env_threshold [
      | none ↦ pos 500
      | some threshold ↦ max_ℤ threshold (pos 1)
    ] in
    elim market_threshold [
      | none ↦ from_env
      | some threshold ↦ if ltb_ℤ (pos 0) threshold then threshold else from_env
    ]

pub record CancelPolicyDecision (F : Type 0) : Type 0 where
  pub eligible : Bool
  pub triggered : Bool
  pub reason : Str
  pub move_bps : Option F
  pub threshold_bps : ℤ

module _ {F : Type 0} (float : Float F) where
  unfoldable pub abs_move_bps : Option F → Option F → Option F
  abs_move_bps none previous = none
  abs_move_bps (some current) none = none
  abs_move_bps (some current) (some previous) =
      if float.less_equal current (float.of_i64 (pos 0))
        || float.less_equal previous (float.of_i64 (pos 0))
      then none
      else some (
          float.times (float.absolute (float.divide (float.minus current previous) previous))
            (float.of_i64 (pos 10000)))

  unfoldable pub decide_by_move : Option F → ℤ → CancelPolicyDecision F
  decide_by_move none threshold_bps = record {
    eligible = true;
    triggered = false;
    reason = codes "missing_price_baseline";
    move_bps = none;
    threshold_bps = threshold_bps;
  }
  decide_by_move (some move_bps) threshold_bps =
      if float.less move_bps (float.of_i64 threshold_bps)
      then record {
        eligible = true;
        triggered = false;
        reason = codes "price_move_below_threshold";
        move_bps = some move_bps;
        threshold_bps = threshold_bps;
      }
      else record {
        eligible = true;
        triggered = true;
        reason = codes "strong_unstable_price_move";
        move_bps = some move_bps;
        threshold_bps = threshold_bps;
      }

  unfoldable pub not_eligible : Str → Option F → ℤ → CancelPolicyDecision F
  not_eligible reason move_bps threshold_bps = record {
    eligible = false;
    triggered = false;
    reason = reason;
    move_bps = move_bps;
    threshold_bps = threshold_bps;
  }

  unfoldable pub evaluate_cancel_policy_decision :
      Str → Bool → Option F → Option F → Option ℤ → Option ℤ → CancelPolicyDecision F
  evaluate_cancel_policy_decision quote_asset_type cancel_policy_stable_vs_unstable
        current_xch_price_usd previous_xch_price_usd market_threshold env_threshold =
      let move_bps = abs_move_bps current_xch_price_usd previous_xch_price_usd in
      let threshold_bps = cancel_move_threshold_bps market_threshold env_threshold in
      if not (str_eq (to_ascii_lowercase (trim quote_asset_type)) (codes "unstable"))
      then not_eligible (codes "not_unstable_leg_market") move_bps threshold_bps
      else if not cancel_policy_stable_vs_unstable
      then not_eligible (codes "not_stable_vs_unstable_market") move_bps threshold_bps
      else decide_by_move move_bps threshold_bps
