-- ===== src/CoinOps/Funding/Plan.antt =====
-- greenfloor-engine/src/coin_ops/shape/funding.rs and deficit.rs: the plan for the rows that lack
-- coins.
use greenfloor.Common.{
  ◌<◌, ◌≡◌, refl, true, List, [], ◌∷◌, arith, map, is_empty, All, length, length-map, Bool-cases,
  inl, inr,
}
use greenfloor.Common.Int.{pos}
use greenfloor.Common.I64.{two_63}
use greenfloor.Common.Dict.{ℤ_key}
use greenfloor.Common.Run.{Returns, Returns-bind}
use greenfloor.CoinOps.Funding.{
  ShapeCoin, ShapeFundingResolution, funded, cannot_fund, ShapeLadderRow, ShapeDeficit,
  shape_context_for_rows,
}
use greenfloor.CoinOps.Funding.Lacking.{
  expand, lacking, sum_of, NotNegative, sum_lacking, collected,
}
use greenfloor.CoinOps.Funding.Preserving.{inventory}
use greenfloor.CoinOps.Funding.Usable.{Distinct}
use greenfloor.CoinOps.Funding.Funded.{Pays, resolution-Pays}
use greenfloor.CoinOps.Funding.Resolve.{
  ShapeFundingPolicy, ShapeFundingFlags, flags, ShapePlanOutcome, already_ready, needs_shape,
  unfunded, outcome_of, plan_shape_from_deficits,
}

-- What an outcome says, for the rows that lack coins.
abbrev pub Planned :
    List ShapeCoin → ShapeFundingFlags → List ShapeDeficit → ShapePlanOutcome → Type 0
Planned coins given deficits already_ready = deficits ≡ []
Planned coins given deficits (needs_shape plan) =
    (plan.deficits ≡ deficits)
    × (plan.output_amounts ≡ expand deficits)
    × (plan.total_output_amount ≡ pos (sum_of (expand deficits)))
    × Pays coins (pos (sum_of (expand deficits))) given given.combine_strategy (funded plan.funding)
Planned coins given deficits (unfunded amount) =
    Pays coins (pos (sum_of (expand deficits))) given given.combine_strategy (cannot_fund amount)

none_found : (deficits : List ShapeDeficit) → is_empty deficits ≡ true → deficits ≡ []
none_found [] e = refl
none_found (deficit ∷ deficits) e = absurd (ground (arith, e))

outcome-Planned :
    (coins : List ShapeCoin) (given : ShapeFundingFlags) (deficits : List ShapeDeficit)
    (resolution : ShapeFundingResolution)
    → Pays coins (pos (sum_of (expand deficits))) given given.combine_strategy resolution
    → Planned coins given deficits
        (outcome_of deficits (expand deficits) (pos (sum_of (expand deficits))) resolution)
unfolding outcome_of
outcome-Planned coins given deficits (funded funding) p = (refl, refl, refl, p)
outcome-Planned coins given deficits (cannot_fund amount) p = p

-- For rows whose sizes are not negative, and coins with different ids that are together worth less
-- than 2^63 and fewer than 2^63, when the coins that the rows lack are worth less than 2^63 the plan
-- for a ladder returns: it is ready only when no row lacks a coin, counted by the coins of exactly its
-- size; a plan has the rows that lack coins, its outputs are the coins that they lack, and it is
-- funded with coins of the wallet for what the outputs are worth; or this amount cannot be funded.
pub plan_shape-Planned :
    (rows : List ShapeLadderRow) (coins : List ShapeCoin) (policy : ShapeFundingPolicy)
    → inventory coins < two_63
    → Distinct coins
    → length coins < two_63
    → All (λ row. NotNegative row.size) rows
    → sum_of (expand (lacking rows (map (λ coin. coin.amount) coins) rows)) < two_63
    → Returns
        (Planned coins (flags policy) (lacking rows (map (λ coin. coin.amount) coins) rows))
        (plan_shape_from_deficits rows coins policy)
unfolding plan_shape_from_deficits
plan_shape-Planned rows coins policy fits distinct short above small =
    let amounts = map (λ coin. coin.amount) coins in
    let deficits = lacking rows amounts rows in
    let total = pos (sum_of (expand deficits)) in
    let given = flags policy in
    let counted : length amounts < two_63 =
      omega (arith, short, length-map coins (λ coin. coin.amount)) in
    let (same, outputs) = collected rows amounts counted in
    rw (same, outputs, sum_lacking rows amounts above small)
      (elim (Bool-cases (is_empty deficits)) [
        | inl empty ↦
            rw empty
              (record { value = already_ready; returns = refl; holds = none_found deficits empty })
        | inr full ↦ rw full (
            Returns-bind (Pays coins total given given.combine_strategy)
              (Planned coins given deficits)
              (resolution-Pays coins total (shape_context_for_rows rows amounts) policy fits
                distinct (omega arith))
              λ resolution p. record {
                value = outcome_of deficits (expand deficits) total resolution;
                returns = refl;
                holds = outcome-Planned coins given deficits resolution p;
              })
      ])
