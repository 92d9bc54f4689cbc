-- ===== src/CoinOps/FeeBudget/Allowance.antt =====
-- greenfloor-engine/src/coin_ops/fee_budget.rs: what the partition promises to its caller.
use greenfloor.Common.{
  ℕ, ◌+◌, ◌-◌, ◌*◌, ◌≤◌, ◌<◌, ◌≡◌, refl, ap, ◌∙◌, Bool, true, false, List, [], ◌∷◌, arith,
  Bool-cases, leb, inl, inr,
}
use greenfloor.Common.Int.{ℤ, ◌-ℤ◌, pos, pos_part, max_ℤ, leb_ℤ}
use greenfloor.Common.I64.{two_63, sub_i64, sub_i64-pos, mul_i64-pos, add_i64-pos, wrap_i64-IsI64}
use greenfloor.CoinOps.Kind.{CoinOpKind, CoinOpPlan, fee_mojos}
use greenfloor.CoinOps.FeeBudget.{
  partition_from, partition_plans_by_budget, budget_left, projected_from,
  projected_coin_ops_fee_mojos, fee_budget_allows_execution,
}
use greenfloor.CoinOps.FeeBudget.Conservation.{
  ops, CountsFit, cost_of, fee_of, partition_from-IsSplit,
}

budget_left-pos :
    (max_daily spent_today : ℤ)
    → (r : ℕ) × (budget_left max_daily spent_today ≡ pos r) × (r < two_63)
unfolding budget_left sub_i64
budget_left-pos max_daily spent_today =
    let fits = wrap_i64-IsI64 (max_daily -ℤ max_ℤ spent_today (pos 0)) in
    elim (Bool-cases (leb_ℤ (sub_i64 max_daily (max_ℤ spent_today (pos 0))) (pos 0))) [
      | inl low ↦ (0, rw low refl, omega arith)
      | inr high ↦ (pos_part (sub_i64 max_daily (max_ℤ spent_today (pos 0))), ground arith, fits.0)
    ]

-- The partition neither loses nor invents operations: for every test on kind and size, and whatever
-- the fees and the budget are, the operations that it picks among the allowed and the skipped plans
-- are together those that it picks among the plans. The counts of the plans are i64 values.
pub partition-conserves :
    (q : CoinOpKind → ℤ → Bool) (plans : List CoinOpPlan)
    (split_fee combine_fee spent_today max_daily : ℤ)
    → CountsFit plans
    → let parts = partition_plans_by_budget plans split_fee combine_fee spent_today max_daily in
      ops q parts.0 + ops q parts.1 ≡ ops q plans
unfolding partition_plans_by_budget ops
partition-conserves q plans split_fee combine_fee spent_today max_daily fits =
    elim (Bool-cases (leb_ℤ max_daily (pos 0))) [
      | inl off ↦ rw off (omega arith)
      | inr on ↦
          let (r, left, hr) = budget_left-pos max_daily spent_today in
          rw (on, left) ((partition_from-IsSplit split_fee combine_fee plans r fits hr).0 q)
    ]

max_zero : (z : ℤ) → max_ℤ z (pos 0) ≡ pos (pos_part z)
max_zero z = ground arith

-- The sum of the loop is the exact cost, when it fits.
projected_from_cost :
    (total : ℕ) (plans : List CoinOpPlan) (split_fee combine_fee : ℤ)
    → total + cost_of (fee_of split_fee combine_fee) plans < two_63
    → projected_from (pos total) plans split_fee combine_fee
      ≡ pos (total + cost_of (fee_of split_fee combine_fee) plans)
unfolding projected_from cost_of
projected_from_cost total [] split_fee combine_fee h = ap pos (omega arith)
projected_from_cost total (plan ∷ plans) split_fee combine_fee h =
    rw
      (
        max_zero plan.op_count,
        max_zero (fee_mojos plan.op_type split_fee combine_fee),
        mul_i64-pos (pos_part plan.op_count)
            (pos_part (fee_mojos plan.op_type split_fee combine_fee)) (omega (arith, h)),
        add_i64-pos total
            (pos_part plan.op_count * pos_part (fee_mojos plan.op_type split_fee combine_fee))
            (omega (arith, h)),
      )
      (projected_from_cost
          (total + pos_part plan.op_count * pos_part (fee_mojos plan.op_type split_fee combine_fee))
          plans split_fee combine_fee (omega (arith, h))
        ∙ (ap pos (omega arith)))

budget_left-eq :
    (max_daily spent : ℕ)
    → spent ≤ max_daily
    → max_daily < two_63
    → budget_left (pos max_daily) (pos spent) ≡ pos (max_daily - spent)
unfolding budget_left
budget_left-eq max_daily spent h k =
    rw (max_zero (pos spent), sub_i64-pos max_daily spent h k, max_zero (pos (max_daily - spent)))
      refl

-- While the day's spending is within a positive budget, the allowed plans cost no more than is left
-- of it, in exact arithmetic, and the executor's own test passes them: their projected fees, summed
-- in i64, keep the day within the budget. The counts are i64 values.
pub allowed_plans_pass :
    (plans : List CoinOpPlan) (split_fee combine_fee : ℤ) (spent max_daily : ℕ)
    → CountsFit plans
    → 0 < max_daily
    → spent ≤ max_daily
    → max_daily < two_63
    → let allowed =
        (partition_plans_by_budget plans split_fee combine_fee (pos spent) (pos max_daily)).0 in
      (spent + cost_of (fee_of split_fee combine_fee) allowed ≤ max_daily)
      × (fee_budget_allows_execution
            (pos max_daily)
            (pos spent)
            (projected_coin_ops_fee_mojos allowed split_fee combine_fee)
          ≡ true)
unfolding partition_plans_by_budget fee_budget_allows_execution projected_coin_ops_fee_mojos
allowed_plans_pass plans split_fee combine_fee spent max_daily fits some_budget h k =
    let allowed = (partition_from split_fee combine_fee (pos (max_daily - spent)) plans).0 in
    let total = cost_of (fee_of split_fee combine_fee) allowed in
    let within : total ≤ max_daily - spent =
      (partition_from-IsSplit split_fee combine_fee plans (max_daily - spent) fits
        (omega arith)).1 in
    let on : leb (max_daily + 0) 0 ≡ false = ground arith in
    rw (on, budget_left-eq max_daily spent h k)
      (
        omega (arith, within),
        rw
            (
              projected_from_cost 0 allowed split_fee combine_fee (omega (arith, within)),
              add_i64-pos spent (0 + total) (omega (arith, within)),
            )
            (ground (arith, within)),
      )
