-- ===== src/CoinOps/FeeBudget.antt =====
-- greenfloor-engine/src/coin_ops/fee_budget.rs: what the daily budget of fees lets through.
pub mod Conservation
pub mod Allowance
use greenfloor.Common.{Bool, true, false, List, [], ◌∷◌, ◌++◌, if◌then◌else◌, ◌==◌}
use greenfloor.Common.Int.{ℤ, pos, max_ℤ, leb_ℤ, eqb_ℤ}
use greenfloor.Common.I64.{add_i64, sub_i64, mul_i64, div_i64}
use greenfloor.CoinOps.Kind.{CoinOpKind, CoinOpPlan, fee_mojos, fee_budget_partial_overflow}

-- The loop of `projected_coin_ops_fee_mojos`.
unfoldable pub projected_from : ℤ → List CoinOpPlan → ℤ → ℤ → ℤ
projected_from total [] split_fee combine_fee = total
projected_from total (plan ∷ plans) split_fee combine_fee =
    projected_from
      (add_i64 total (
        mul_i64 (max_ℤ plan.op_count (pos 0))
          (max_ℤ (fee_mojos plan.op_type split_fee combine_fee) (pos 0))))
      plans split_fee combine_fee

unfoldable pub projected_coin_ops_fee_mojos : List CoinOpPlan → ℤ → ℤ → ℤ
unfolding projected_from
projected_coin_ops_fee_mojos plans split_fee combine_fee =
    projected_from (pos 0) plans split_fee combine_fee

unfoldable pub fee_budget_allows_execution : ℤ → ℤ → ℤ → Bool
fee_budget_allows_execution max_daily_fee_budget_mojos spent_today_mojos projected_mojos =
    if leb_ℤ max_daily_fee_budget_mojos (pos 0)
    then true
    else leb_ℤ (add_i64 spent_today_mojos projected_mojos) max_daily_fee_budget_mojos

-- What one round of the loop leaves of the budget, and pushes to `allowed` and to `skipped`.
pub record Round : Type 0 where
  pub remaining : ℤ
  pub allowed : List CoinOpPlan
  pub skipped : List CoinOpPlan

-- The round of a plan with operations that cost something each.
unfoldable pub paid_round : ℤ → CoinOpPlan → ℤ → Round
paid_round per_op plan remaining =
    let affordable_ops = div_i64 remaining per_op in
    if leb_ℤ affordable_ops (pos 0)
    then record { remaining = remaining; allowed = []; skipped = plan ∷ [] }
    else if leb_ℤ plan.op_count affordable_ops
    then record {
      remaining = sub_i64 remaining (mul_i64 plan.op_count per_op);
      allowed = plan ∷ [];
      skipped = [];
    }
    else record {
      remaining = pos 0;
      allowed = record plan { op_count = affordable_ops } ∷ [];
      skipped =
          record plan {
            op_count = sub_i64 plan.op_count affordable_ops;
            reason = fee_budget_partial_overflow;
          }
          ∷ [];
    }

-- One round of the loop, with the early `continue`s.
unfoldable pub partition_round : ℤ → ℤ → ℤ → CoinOpPlan → Round
unfolding paid_round
partition_round split_fee combine_fee remaining plan =
    let per_op = max_ℤ (fee_mojos plan.op_type split_fee combine_fee) (pos 0) in
    if leb_ℤ plan.op_count (pos 0)
    then record { remaining = remaining; allowed = []; skipped = [] }
    else if eqb_ℤ per_op (pos 0)
    then record { remaining = remaining; allowed = plan ∷ []; skipped = [] }
    else paid_round per_op plan remaining

-- The loop of `partition_plans_by_budget`: the two lists, in the order of the pushes.
unfoldable pub partition_from : ℤ → ℤ → ℤ → List CoinOpPlan → List CoinOpPlan × List CoinOpPlan
partition_from split_fee combine_fee remaining [] = ([], [])
partition_from split_fee combine_fee remaining (plan ∷ plans) =
    let round = partition_round split_fee combine_fee remaining plan in
    let rest = partition_from split_fee combine_fee round.remaining plans in
    (round.allowed ++ rest.0, round.skipped ++ rest.1)

-- The budget that is left before the first plan.
unfoldable pub budget_left : ℤ → ℤ → ℤ
budget_left max_daily spent_today = max_ℤ (sub_i64 max_daily (max_ℤ spent_today (pos 0))) (pos 0)

unfoldable pub partition_plans_by_budget :
    List CoinOpPlan → ℤ → ℤ → ℤ → ℤ → List CoinOpPlan × List CoinOpPlan
unfolding partition_from budget_left
partition_plans_by_budget plans split_fee combine_fee spent_today max_daily =
    if leb_ℤ max_daily (pos 0)
    then (plans, [])
    else partition_from split_fee combine_fee (budget_left max_daily spent_today) plans
