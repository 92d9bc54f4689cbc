-- ===== src/CoinOps/Kind.antt =====
-- greenfloor-engine/src/coin_ops/plan.rs: the planned operations.
use greenfloor.Common.Int.{ℤ}
use greenfloor.Common.Str.{Str, codes}

pub data CoinOpKind : Type 0 where
  split combine : CoinOpKind

unfoldable pub kind_as_str : CoinOpKind → Str
kind_as_str split = codes "split"
kind_as_str combine = codes "combine"

abbrev pub fee_mojos : CoinOpKind → ℤ → ℤ → ℤ
fee_mojos split split_fee_mojos combine_fee_mojos = split_fee_mojos
fee_mojos combine split_fee_mojos combine_fee_mojos = combine_fee_mojos

pub data CoinOpPlanReason : Type 0 where
  low_watermark_buffer_deficit excess_only_policy fee_budget_partial_overflow : CoinOpPlanReason

unfoldable pub reason_as_str : CoinOpPlanReason → Str
reason_as_str low_watermark_buffer_deficit = codes "low_watermark_buffer_deficit"
reason_as_str excess_only_policy = codes "excess_only_policy"
reason_as_str fee_budget_partial_overflow = codes "fee_budget_partial_overflow"

pub record CoinOpPlan : Type 0 where
  pub op_type : CoinOpKind
  pub size_base_units : ℤ
  pub op_count : ℤ
  pub reason : CoinOpPlanReason
