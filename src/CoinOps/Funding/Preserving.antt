-- ===== src/CoinOps/Funding/Preserving.antt =====
-- greenfloor-engine/src/coin_ops/shape/combine.rs: combines that spare the rows of the ladder.
use greenfloor.Common.{
  ℕ, ◌+◌, ◌≤◌, ◌<◌, ◌≡◌, refl, Bool, false, List, [], ◌∷◌, Option, none, some, arith, length, map,
  Bool-cases, inl, inr,
}
use greenfloor.Common.Int.{ℤ, pos, pos_part, ◌≤ℤ◌}
use greenfloor.Common.I64.{two_63, saturating_sub}
use greenfloor.Common.Str.{Str}
use greenfloor.Common.Run.{Run, returned, Returns, Returns-bind, Returns-map}
use greenfloor.Common.Dict.{Dict}
use greenfloor.CoinOps.Policy.{overshoot_change_would_be_dust}
use greenfloor.CoinOps.Target.{Entry, entry_id, positive_spendable_entries, is_positive}
use greenfloor.CoinOps.Target.Subsets.{worth}
use greenfloor.CoinOps.Target.Pointed.{picked_by, ArePicked}
use greenfloor.CoinOps.Funding.{ShapeCoin, CombineInputs}
use greenfloor.CoinOps.Funding.Combine.{
  combine_candidates, is_combine_input, spendable_coin, without_dust, partition_protected_coins,
  combine_with_dust_guard, release_from, plan_ladder_preserving_combine,
  plan_combine_inputs_for_target_in, plan_combine_inputs_for_target,
}
use greenfloor.CoinOps.Funding.Inputs.{Combines, count_ids, plan_combine-Combines}

-- What the coins of a wallet are worth together.
unfoldable pub inventory : List ShapeCoin → ℕ
inventory [] = 0
inventory (coin ∷ coins) = pos_part coin.amount + inventory coins

candidates_worth :
    (allowed : Option (List Str)) (coins : List ShapeCoin)
    → worth (positive_spendable_entries (combine_candidates allowed coins)) ≤ inventory coins
unfolding inventory worth positive_spendable_entries combine_candidates spendable_coin
candidates_worth allowed [] = omega arith
candidates_worth allowed (coin ∷ coins) = elim (Bool-cases (is_combine_input allowed coin)) [
  | inr dropped ↦ rw dropped (omega (arith, candidates_worth allowed coins))
  | inl kept ↦ elim (Bool-cases (is_positive (spendable_coin coin))) [
    | inl positive ↦ rw (kept, positive) (omega (arith, candidates_worth allowed coins))
    | inr other ↦ rw (kept, other) (omega (arith, candidates_worth allowed coins))
  ]
]

-- The coins of a wallet with their amounts.
unfoldable pub wallet : List ShapeCoin → List Entry
wallet [] = []
wallet (coin ∷ coins) = (coin.id, coin.amount) ∷ wallet coins

candidates_picked :
    (q : Entry → Bool) (allowed : Option (List Str)) (coins : List ShapeCoin)
    → picked_by q (positive_spendable_entries (combine_candidates allowed coins))
      ≤ picked_by q (wallet coins)
unfolding wallet picked_by positive_spendable_entries combine_candidates spendable_coin
candidates_picked q allowed [] = omega arith
candidates_picked q allowed (coin ∷ coins) = elim (Bool-cases (is_combine_input allowed coin)) [
  | inr dropped ↦ rw dropped (omega (arith, candidates_picked q allowed coins))
  | inl kept ↦ elim (Bool-cases (is_positive (spendable_coin coin))) [
    | inl positive ↦ rw (kept, positive) (omega (arith, candidates_picked q allowed coins))
    | inr other ↦ rw (kept, other) (omega (arith, candidates_picked q allowed coins))
  ]
]

-- The inputs are coins of the wallet, none more often than it is there, and their total is what
-- these coins are worth.
pub record Drawn (coins : List ShapeCoin) (inputs : CombineInputs) : Type 0 where
  pub picked : List Entry
  pub from_wallet : ArePicked (wallet coins) picked
  pub same_ids : inputs.input_coin_ids ≡ map entry_id picked
  pub same_total : inputs.selected_total ≡ pos (worth picked)

-- At least two coins of the wallet that cover the target.
abbrev pub Covering : List ShapeCoin → ℤ → Option CombineInputs → Type 0
Covering coins target none = Unit
Covering coins target (some inputs) =
    (inputs.target_amount ≡ target)
    × (target ≤ℤ inputs.selected_total)
    × (2 ≤ length inputs.input_coin_ids)
    × Drawn coins inputs

-- The change is no dust either.
abbrev pub Clean : List ShapeCoin → ℤ → ℤ → Str → Option CombineInputs → Type 0
Clean coins target multiplier asset none = Unit
Clean coins target multiplier asset (some inputs) =
    (inputs.target_amount ≡ target)
    × (target ≤ℤ inputs.selected_total)
    × (2 ≤ length inputs.input_coin_ids)
    × (overshoot_change_would_be_dust (saturating_sub inputs.selected_total target) multiplier asset
        ≡ false)
    × Drawn coins inputs

module _ (coins : List ShapeCoin) (target : ℤ) (fits : inventory coins < two_63) where
  Combines-Covering :
      (allowed : Option (List Str)) (cap : ℤ)
      (small : worth (positive_spendable_entries (combine_candidates allowed coins)) < two_63)
      (found : Option CombineInputs)
      → Combines (combine_candidates allowed coins) target small cap found
      → (Covering coins target) found
  Combines-Covering allowed cap small none c = tt
  Combines-Covering allowed cap small (some inputs) (same, c) = (
    same,
    c.covered,
    count_ids c,
    record {
      picked = c.picked;
      from_wallet = λ q. omega (arith, c.from_entries q, candidates_picked q allowed coins);
      same_ids = c.same_ids;
      same_total = c.same_total;
    },
  )

  -- A flat combine returns, with nothing or with coins that cover the target.
  pub flat-Covering :
      (cap : ℤ) → Returns (Covering coins target) (plan_combine_inputs_for_target coins target cap)
  unfolding plan_combine_inputs_for_target plan_combine_inputs_for_target_in
  flat-Covering cap =
      let small : worth (positive_spendable_entries (combine_candidates none coins)) < two_63 =
        omega (arith, candidates_worth none coins, fits) in
      Returns-map (Combines (combine_candidates none coins) target small cap)
        (Covering coins target)
        (plan_combine-Combines (combine_candidates none coins) target small coins cap none none
          refl)
        (Combines-Covering none cap small)

  module _ (cap multiplier : ℤ) (asset : Str) where
    without_dust-Clean :
        (found : Option CombineInputs)
        → (Covering coins target) found
        → (Clean coins target multiplier asset) (without_dust multiplier asset found)
    unfolding without_dust
    without_dust-Clean none c = tt
    without_dust-Clean (some inputs) (same, c, n, drawn) =
        elim (Bool-cases (
          overshoot_change_would_be_dust (saturating_sub inputs.selected_total inputs.target_amount)
            multiplier asset)) [
              | inl dust ↦ rw dust tt
              | inr clean ↦ rw clean (same, c, n, rw same at clean, drawn)
            ]

    guarded-Clean :
        (allowed : Option (List Str))
        → Returns
            (Clean coins target multiplier asset)
            (combine_with_dust_guard coins target cap multiplier asset allowed)
    unfolding combine_with_dust_guard
    guarded-Clean allowed =
        let small : worth (positive_spendable_entries (combine_candidates allowed coins)) < two_63 =
          omega (arith, candidates_worth allowed coins, fits) in
        Returns-bind (Combines (combine_candidates allowed coins) target small cap)
          (Clean coins target multiplier asset)
          (plan_combine-Combines (combine_candidates allowed coins) target small coins cap allowed _
            refl)
          λ found c. record {
            value = without_dust multiplier asset found;
            returns = refl;
            holds = without_dust-Clean found (Combines-Covering allowed cap small found c);
          }

    keep_first :
        (found : Option CombineInputs) (rest : Run (Option CombineInputs))
        → (Clean coins target multiplier asset) found
        → Returns (Clean coins target multiplier asset) rest
        → Returns
            (Clean coins target multiplier asset)
            (elim found [ none ↦ rest | some plan ↦ returned (some plan) ])
    keep_first none rest c r = r
    keep_first (some plan) rest c r = record { value = some plan; returns = refl; holds = c }

    release-Clean :
        (allowed : List Str) (excluded : List ShapeCoin)
        → Returns (Clean coins target multiplier asset) (
            release_from
              (combine_with_dust_guard coins target cap multiplier asset)
              allowed
              excluded)
    unfolding release_from
    release-Clean allowed [] = guarded-Clean none
    release-Clean allowed (coin ∷ excluded) =
        Returns-bind (Clean coins target multiplier asset) (Clean coins target multiplier asset)
          (guarded-Clean (some (coin.id ∷ allowed)))
          λ found c. keep_first found _ c (release-Clean (coin.id ∷ allowed) excluded)

    -- A combine that spares the ladder returns, with nothing or with coins that cover the target and
    -- leave no dust.
    pub preserving-Clean :
        (slots : Dict ℤ ℤ)
        → Returns
            (Clean coins target multiplier asset)
            (plan_ladder_preserving_combine coins slots target cap multiplier asset)
    unfolding plan_ladder_preserving_combine
    preserving-Clean slots =
        let parts = partition_protected_coins coins slots in
        Returns-bind (Clean coins target multiplier asset) (Clean coins target multiplier asset)
          (guarded-Clean (some (map (λ coin. coin.id) parts.0)))
          λ found c. keep_first found _ c (release-Clean (map (λ coin. coin.id) parts.0) parts.1)
