-- ===== src/CoinOps/FeeBudget/Conservation.antt =====
-- greenfloor-engine/src/coin_ops/fee_budget.rs: the partition neither loses nor invents operations.
use greenfloor.Common.{
  ℕ, suc, ◌+◌, ◌-◌, ◌*◌, ◌/◌, ◌≤◌, ◌<◌, ◌≡◌, refl, inl, inr, Bool, true, false, List, [], ◌∷◌, ◌++◌,
  arith, if◌then◌else◌, All, Bool-cases, leb,
}
use greenfloor.Common.Int.{ℤ, pos, negsuc, pos_part, max_ℤ, eqb_ℤ}
use greenfloor.Common.I64.{IsI64, two_63, div_i64, sub_i64-pos, mul_i64-pos}
use native.Mathlib.Nat.{le_trans, mul-le-mul_right, div-mul-le_self}
use greenfloor.CoinOps.Kind.{
  CoinOpKind, CoinOpPlanReason, CoinOpPlan, fee_mojos, fee_budget_partial_overflow,
}
use greenfloor.CoinOps.FeeBudget.{Round, paid_round, partition_round, partition_from}

-- The operations of the plans that a test on kind and size picks; a plan with no positive count has
-- none.
unfoldable pub ops : (CoinOpKind → ℤ → Bool) → List CoinOpPlan → ℕ
ops q [] = 0
ops q (plan ∷ plans) =
    (if q plan.op_type plan.size_base_units then pos_part plan.op_count else 0) + ops q plans

abbrev pub CountsFit : List CoinOpPlan → Type 0
CountsFit = All λ plan. IsI64 plan.op_count

ops-append :
    (q : CoinOpKind → ℤ → Bool) (xs ys : List CoinOpPlan) → ops q (xs ++ ys) ≡ ops q xs + ops q ys
unfolding ops
ops-append q [] ys = omega arith
ops-append q (x ∷ xs) ys = omega (arith, ops-append q xs ys)

-- The three outcomes of a round that pays, over natural numbers: `n` operations at `p` each, with
-- `r` left.
pub data PaidRound (plan : CoinOpPlan) (n p r : ℕ) : Round → Type 0 where
  none_fits :
      r / p ≡ 0
      → PaidRound plan n p r (record { remaining = pos r; allowed = []; skipped = plan ∷ [] })
  all_fit :
      n ≤ r / p
      → PaidRound plan n p r
          (record { remaining = pos (r - n * p); allowed = plan ∷ []; skipped = [] })
  some_fit :
      0 < r / p
      → r / p < n
      → PaidRound plan n p r (record {
        remaining = pos 0;
        allowed = record plan { op_count = pos (r / p) } ∷ [];
        skipped =
            record plan { op_count = pos (n - r / p); reason = fee_budget_partial_overflow } ∷ [];
      })

quotient_fits : (n p r : ℕ) → n ≤ r / p → n * p ≤ r
quotient_fits n p r h = le_trans (mul-le-mul_right p h) (div-mul-le_self r p)

-- A plan by its fields.
abbrev plan_of : CoinOpKind → ℤ → ℤ → CoinOpPlanReason → CoinOpPlan
plan_of kind size count reason = record {
  op_type = kind;
  size_base_units = size;
  op_count = count;
  reason = reason;
}

pub paid_round-PaidRound :
    (kind : CoinOpKind) (size : ℤ) (reason : CoinOpPlanReason) (n p r : ℕ)
    → n < two_63
    → r < two_63
    → let plan = plan_of kind size (pos n) reason in
      PaidRound plan n p r (paid_round (pos p) plan (pos r))
unfolding paid_round div_i64
paid_round-PaidRound kind size reason n p r hn hr = elim (Bool-cases (leb (r / p + 0) 0)) [
  | inl low ↦ rw low (none_fits (ground arith))
  | inr high ↦ rw high (elim (Bool-cases (leb (n + 0) (r / p + 0))) [
    | inl fits ↦
        let enough : n ≤ r / p = ground arith in
        let cost : n * p ≤ r = quotient_fits n p r enough in
        rw (fits, mul_i64-pos n p (ground arith), sub_i64-pos r (n * p) cost hr) (all_fit enough)
    | inr over ↦
        let few : r / p < n = ground arith in
        rw (over, sub_i64-pos n (r / p) (ground arith) hn) (some_fit (ground arith) few)
  ])
]

-- What a round does to the operations and to the budget, in natural numbers.
unfoldable pub cost_of : (CoinOpKind → ℤ) → List CoinOpPlan → ℕ
cost_of fee [] = 0
cost_of fee (plan ∷ plans) =
    pos_part plan.op_count * pos_part (fee plan.op_type) + cost_of fee plans

pub cost_of-append :
    (fee : CoinOpKind → ℤ) (xs ys : List CoinOpPlan)
    → cost_of fee (xs ++ ys) ≡ cost_of fee xs + cost_of fee ys
unfolding cost_of
cost_of-append fee [] ys = omega arith
cost_of-append fee (x ∷ xs) ys = omega (arith, cost_of-append fee xs ys)

-- A round is sound for a plan when its operations are those of the plan, and what it allows is paid
-- from the budget.
pub data SoundRound (fee : CoinOpKind → ℤ) (plan : CoinOpPlan) (r : ℕ) : Round → Type 0 where
  sound :
      (left : ℕ) (allowed skipped : List CoinOpPlan)
      → ((q : CoinOpKind → ℤ → Bool) → ops q allowed + ops q skipped ≡ ops q (plan ∷ []))
      → left + cost_of fee allowed ≤ r
      → SoundRound fee plan r
          (record { remaining = pos left; allowed = allowed; skipped = skipped })

PaidRound-SoundRound :
    (fee : CoinOpKind → ℤ) (kind : CoinOpKind) (size : ℤ) (reason : CoinOpPlanReason) (n p r : ℕ)
    → fee kind ≡ pos p
    → (round : Round) → PaidRound (plan_of kind size (pos n) reason) n p r round
    → SoundRound fee (plan_of kind size (pos n) reason) r round
unfolding ops cost_of
PaidRound-SoundRound fee kind size reason n p r price round (none_fits low) =
    sound r [] _ (λ q. omega arith) (omega arith)
PaidRound-SoundRound fee kind size reason n p r price round (all_fit enough) =
    sound (r - n * p) _ [] (λ q. omega arith) rw price (omega (arith, quotient_fits n p r enough))
PaidRound-SoundRound fee kind size reason n p r price round (some_fit low few) =
    sound 0 _ _ (λ q. ground arith) (rw price (omega (arith, div-mul-le_self r p)))

abbrev pub fee_of : ℤ → ℤ → CoinOpKind → ℤ
fee_of split_fee combine_fee kind = fee_mojos kind split_fee combine_fee

-- A fee that counts, as a number.
fee-pos :
    (fee : ℤ)
    → eqb_ℤ (max_ℤ fee (pos 0)) (pos 0) ≡ false
    → (p : ℕ) × (fee ≡ pos p) × (max_ℤ fee (pos 0) ≡ pos p)
fee-pos (pos p) h = (p, refl, ground arith)
fee-pos (negsuc p) h = ground arith

no_fee : (fee : ℤ) → eqb_ℤ (max_ℤ fee (pos 0)) (pos 0) ≡ true → pos_part fee ≡ 0
no_fee fee h = ground arith

partition_round-SoundRound :
    (split_fee combine_fee : ℤ) (kind : CoinOpKind) (size count : ℤ) (reason : CoinOpPlanReason)
    (r : ℕ)
    → IsI64 count
    → r < two_63
    → let plan = plan_of kind size count reason in
      SoundRound
        (fee_of split_fee combine_fee)
        plan
        r
        (partition_round split_fee combine_fee (pos r) plan)
unfolding partition_round ops cost_of
partition_round-SoundRound split_fee combine_fee kind size (negsuc n) reason r hn hr =
    let no_count : leb 0 (0 + suc n) ≡ true = ground arith in
    rw no_count (sound r [] [] (λ q. ground arith) (omega arith))
partition_round-SoundRound split_fee combine_fee kind size (pos n) reason r hn hr =
    elim (Bool-cases (leb (n + 0) 0)) [
      | inl zero_count ↦ rw zero_count (sound r [] [] (λ q. ground arith) (omega arith))
      | inr some_count ↦
          elim (Bool-cases (eqb_ℤ (max_ℤ (fee_mojos kind split_fee combine_fee) (pos 0)) (pos 0))) [
            | inl free ↦
                rw (some_count, free)
                  (sound r _ [] (λ q. omega arith)
                    (rw (no_fee (fee_mojos kind split_fee combine_fee) free) (omega arith)))
            | inr paid ↦
                let (p, price, price2) = fee-pos (fee_mojos kind split_fee combine_fee) paid in
                rw (some_count, paid, price2)
                  (PaidRound-SoundRound (fee_of split_fee combine_fee) kind size reason n p r price
                    _ (paid_round-PaidRound kind size reason n p r hn.0 hr))
          ]
    ]

-- A split of plans: no operation is lost, and the allowed part costs at most `r`.
abbrev pub IsSplit :
    (CoinOpKind → ℤ) → List CoinOpPlan → ℕ → List CoinOpPlan × List CoinOpPlan → Type 0
IsSplit fee plans r (allowed, skipped) =
    ((q : CoinOpKind → ℤ → Bool) → ops q allowed + ops q skipped ≡ ops q plans)
    × (cost_of fee allowed ≤ r)

after_round :
    (split_fee combine_fee : ℤ) (plan : CoinOpPlan) (plans : List CoinOpPlan) (r : ℕ)
    (round : Round)
    → SoundRound (fee_of split_fee combine_fee) plan r round
    → ((left : ℕ)
        → left ≤ r
        → IsSplit
            (fee_of split_fee combine_fee)
            plans
            left
            (partition_from split_fee combine_fee (pos left) plans))
    → let rest = partition_from split_fee combine_fee round.remaining plans in
      IsSplit
        (fee_of split_fee combine_fee)
        (plan ∷ plans)
        r
        (round.allowed ++ rest.0, round.skipped ++ rest.1)
unfolding ops
after_round split_fee combine_fee plan plans r round (sound left allowed skipped same cost) rest =
    let h = rest left (omega (arith, cost)) in
    let (allowed_rest, skipped_rest) = partition_from split_fee combine_fee (pos left) plans in
    (
      (λ q. omega (
        arith,
        same q,
        h.0 q,
        ops-append q allowed allowed_rest,
        ops-append q skipped skipped_rest,
      )),
      omega (arith, cost, h.1, cost_of-append (fee_of split_fee combine_fee) allowed allowed_rest),
    )

pub partition_from-IsSplit :
    (split_fee combine_fee : ℤ) (plans : List CoinOpPlan) (r : ℕ)
    → CountsFit plans
    → r < two_63
    → IsSplit
        (fee_of split_fee combine_fee)
        plans
        r
        (partition_from split_fee combine_fee (pos r) plans)
unfolding partition_from ops cost_of
partition_from-IsSplit split_fee combine_fee [] r fits hr = ((λ q. refl), omega arith)
partition_from-IsSplit split_fee combine_fee (plan ∷ plans) r (fit, fits) hr =
    after_round split_fee combine_fee plan plans r _
      (partition_round-SoundRound split_fee combine_fee plan.op_type plan.size_base_units
        plan.op_count plan.reason r fit hr)
      (λ left h. partition_from-IsSplit split_fee combine_fee plans left fits (omega (arith, h)))
