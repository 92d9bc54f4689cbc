-- ===== src/Cycle/Cancel/Triggered.antt =====
-- greenfloor-engine/src/cycle/cancel.rs: what a cancellation that is triggered goes back to.
use greenfloor.Common.{
  ◌≡◌, refl, Bool, true, false, ◌↔◌, Option, none, some, arith, Bool-cases, inl, inr,
}
use greenfloor.Common.Int.{ℤ, pos, ◌<ℤ◌}
use greenfloor.Common.Str.{Str, codes, str_eq, trim, to_ascii_lowercase}
use greenfloor.Common.Float.{Float}
use greenfloor.Cycle.Cancel.{
  cancel_move_threshold_bps, abs_move_bps, decide_by_move, not_eligible,
  evaluate_cancel_policy_decision,
}

threshold_positive : (market env : Option ℤ) → pos 0 <ℤ cancel_move_threshold_bps market env
unfolding cancel_move_threshold_bps
threshold_positive none none = omega arith
threshold_positive none (some t) = ground arith
threshold_positive (some m) none = ground arith
threshold_positive (some m) (some t) = ground arith

module _ {F : Type 0} (float : Float F) where
  -- Both prices are known, neither is 0 or below, and the move from the previous one to the current
  -- one, in basis points, is not below the threshold.
  abbrev pub Moves : Option F → Option F → ℤ → Type 0
  Moves none previous threshold = ⊥
  Moves (some current) none threshold = ⊥
  Moves (some current) (some previous) threshold =
      (float.less_equal current (float.of_i64 (pos 0)) ≡ false)
      × (float.less_equal previous (float.of_i64 (pos 0)) ≡ false)
      × (float.less
            (float.times (float.absolute (float.divide (float.minus current previous) previous))
              (float.of_i64 (pos 10000)))
            (float.of_i64 threshold)
          ≡ false)

  decided_iff :
      (current previous : Option F) (threshold : ℤ)
      → ((decide_by_move float (abs_move_bps float current previous) threshold).triggered ≡ true)
        ↔ Moves current previous threshold
  unfolding decide_by_move abs_move_bps
  decided_iff none previous threshold = ground arith
  decided_iff (some current) none threshold = ground arith
  decided_iff (some current) (some previous) threshold = ground arith

  decided_threshold :
      (move : Option F) (threshold : ℤ)
      → (decide_by_move float move threshold).threshold_bps ≡ threshold
  unfolding decide_by_move
  decided_threshold none threshold = refl
  decided_threshold (some move) threshold = ground arith

  -- A cancellation is triggered exactly when the quote is unstable, the policy asks for it, both prices
  -- are known and not 0 or below, and the move between them is not below the threshold of the
  -- decision, which is always above 0.
  pub triggered_iff :
      (quote_type : Str) (policy : Bool) (current previous : Option F) (market env : Option ℤ)
      → let decision =
          evaluate_cancel_policy_decision float quote_type policy current previous market env in
        (pos 0 <ℤ decision.threshold_bps)
        × ((decision.triggered ≡ true) ↔ (
            (str_eq (to_ascii_lowercase (trim quote_type)) (codes "unstable") ≡ true)
            × (policy ≡ true)
            × Moves current previous decision.threshold_bps))
  unfolding evaluate_cancel_policy_decision not_eligible
  triggered_iff quote_type policy current previous market env =
      let threshold = cancel_move_threshold_bps market env in
      let above = threshold_positive market env in
      elim (Bool-cases (str_eq (to_ascii_lowercase (trim quote_type)) (codes "unstable"))) [
        | inr stable ↦ rw stable (above, ground arith)
        | inl unstable ↦ elim (Bool-cases policy) [
          | inr unasked ↦ rw (unstable, unasked) (above, ground arith)
          | inl asked ↦
              rw
                (unstable, asked, decided_threshold (abs_move_bps float current previous) threshold)
                (above, ground (arith, decided_iff current previous threshold))
        ]
      ]
