-- ===== src/CoinOps/Planning/Budget.antt =====
-- greenfloor-engine/src/coin_ops/plan.rs: the plans keep within the operations and the fees of a run.
use greenfloor.Common.{
  ℕ, ◌+◌, ◌-◌, ◌≤◌, ◌<◌, ◌≡◌, refl, false, List, [], ◌∷◌, arith, if◌then◌else◌, if-both, map,
  is_empty, All, Bool-cases, inl, inr,
}
use greenfloor.Common.Int.{ℤ, pos, negsuc, pos_part, min_ℤ, ltb_ℤ, leb_ℤ, ◌<ℤ◌}
use greenfloor.Common.I64.{two_63, sub_i64-pos}
use greenfloor.Common.Float.{Float}
use greenfloor.CoinOps.Kind.{
  CoinOpKind, split, combine, CoinOpPlan, CoinOpPlanReason, fee_mojos, low_watermark_buffer_deficit,
  excess_only_policy,
}
use greenfloor.CoinOps.Planning.{
  Wanted, BucketSpec, plan_ops, fee_budget, deficits_of, collect_combine_candidates, plan_coin_ops,
}

-- The operations of the plans.
unfoldable pub operations : List CoinOpPlan → ℕ
operations [] = 0
operations (plan ∷ plans) = pos_part plan.op_count + operations plans

-- The fees as the planner counts them: one for each plan, whatever its operations.
unfoldable pub plan_fees : ℕ → ℕ → List CoinOpPlan → ℕ
plan_fees split_fee combine_fee [] = 0
plan_fees split_fee combine_fee (plan ∷ plans) =
    pos_part (fee_mojos plan.op_type (pos split_fee) (pos combine_fee))
    + plan_fees split_fee combine_fee plans

-- At most `ops` operations, each plan with one at least, and no more than `budget` in fees, one for
-- each plan.
pub record Keeps (split_fee combine_fee ops budget : ℕ) (kind : CoinOpKind)
    (plans : List CoinOpPlan) : Type 0 where
  pub few : operations plans ≤ ops
  pub cheap : plan_fees split_fee combine_fee plans ≤ budget
  pub same_kind : All (λ plan. (plan.op_type ≡ kind) × (pos 0 <ℤ plan.op_count)) plans

nothing_kept :
    (split_fee combine_fee ops budget : ℕ) (kind : CoinOpKind)
    → Keeps split_fee combine_fee ops budget kind []
unfolding operations plan_fees
nothing_kept split_fee combine_fee ops budget kind = record {
  few = omega arith;
  cheap = omega arith;
  same_kind = tt;
}

taken :
    (wanted : ℤ) (ops : ℕ)
    → leb_ℤ (min_ℤ wanted (pos ops)) (pos 0) ≡ false
    → (k : ℕ) × (min_ℤ wanted (pos ops) ≡ pos k) × (0 < k) × (k ≤ ops)
taken (negsuc n) ops h = absurd (ground (arith, h))
taken (pos n) ops h = elim (Bool-cases (leb_ℤ (pos n) (pos ops))) [
  | inl less ↦ (n, ground (arith, less), ground (arith, less, h), ground (arith, less))
  | inr more ↦ (ops, ground (arith, more), ground (arith, more, h), omega arith)
]

module _ (split_fee combine_fee : ℕ) (kind : CoinOpKind) (reason : CoinOpPlanReason) where
  plan_ops-Keeps :
      (fee ops budget : ℕ) (wanted : List Wanted)
      → fee_mojos kind (pos split_fee) (pos combine_fee) ≡ pos fee
      → ops < two_63
      → budget < two_63
      → Keeps split_fee combine_fee ops budget kind
          (plan_ops kind reason (pos fee) (pos ops) (pos budget) wanted)
  unfolding plan_ops operations plan_fees
  plan_ops-Keeps fee ops budget [] same small rich =
      nothing_kept split_fee combine_fee ops budget kind
  plan_ops-Keeps fee ops budget ((size, wanted) ∷ rest) same small rich =
      let P : List CoinOpPlan → Type 0 = Keeps split_fee combine_fee ops budget kind in
      let nothing : P [] = nothing_kept split_fee combine_fee ops budget kind in
      if-both P (leb_ℤ (pos ops) (pos 0)) nothing
        (elim (Bool-cases (ltb_ℤ (pos budget) (pos fee))) [
          | inl poor ↦ rw poor nothing
          | inr affordable ↦ elim (Bool-cases (leb_ℤ (min_ℤ wanted (pos ops)) (pos 0))) [
            | inl idle ↦ rw (affordable, idle) (plan_ops-Keeps fee ops budget rest same small rich)
            | inr busy ↦
                let (k, e, above, below) = taken wanted ops busy in
                let enough : fee ≤ budget = ground (arith, affordable) in
                let left =
                  plan_ops-Keeps fee (ops - k) (budget - fee) rest same (omega (arith, small))
                    (omega (arith, rich)) in
                rw
                  (
                    affordable,
                    busy,
                    e,
                    sub_i64-pos ops k below small,
                    sub_i64-pos budget fee enough rich,
                  )
                  (record {
                    few = omega (arith, left.few, below);
                    cheap = rw same (omega (arith, left.cheap, enough));
                    same_kind = ((refl, omega (arith, above)), left.same_kind);
                  })
          ]
        ])

budget_given : (budget : ℕ) → 0 < budget → fee_budget (pos budget) ≡ pos budget
unfolding fee_budget
budget_given budget above = ground (arith, above)

-- Whatever the rounding of the ratios, a run with at most `ops` operations and a budget above 0 plans
-- no more operations, at least one in each plan, and with one fee for each plan, as the planner counts
-- them, it spends no more than the budget; it only splits coins when a size
-- lacks some, and only combines coins otherwise.
pub plan_coin_ops-Keeps :
    {F : Type 0} (float : Float F) (buckets : List (BucketSpec F))
    (ops budget split_fee combine_fee : ℕ)
    → ops < two_63
    → budget < two_63
    → 0 < budget
    → Keeps split_fee combine_fee ops budget
        (if is_empty (deficits_of float buckets) then combine else split)
        (plan_coin_ops float buckets (pos ops) (pos budget) (pos split_fee) (pos combine_fee)).plans
unfolding plan_coin_ops
plan_coin_ops-Keeps float buckets ops budget split_fee combine_fee small rich above =
    let given : fee_budget (pos budget) ≡ pos budget = budget_given budget above in
    elim (Bool-cases (is_empty (deficits_of float buckets))) [
      | inl met ↦
          rw (met, given)
            (plan_ops-Keeps split_fee combine_fee combine excess_only_policy combine_fee ops budget
              (collect_combine_candidates float buckets).1 refl small rich)
      | inr lacking ↦
          rw (lacking, given)
            (plan_ops-Keeps split_fee combine_fee split low_watermark_buffer_deficit split_fee ops
              budget (map (λ entry. entry.1) (deficits_of float buckets)) refl small rich)
    ]
