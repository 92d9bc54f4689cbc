-- ===== src/CoinOps/Funding/Funded.antt =====
-- greenfloor-engine/src/coin_ops/shape/funding.rs: what a resolved funding pays for.
use greenfloor.Common.{
  ◌<◌, ◌⊎◌, if◌then◌else◌, ◌≡◌, refl, subst, Bool, true, false, ◌&&◌, not, List, Option, none, some,
  arith, any, if-both, inl, inr,
}
use greenfloor.Common.Int.{ℤ, pos, max_ℤ, ltb_ℤ, leb_ℤ, ◌≤ℤ◌}
use greenfloor.Common.I64.{two_63, sub_i64}
use greenfloor.Common.Str.{Str}
use greenfloor.Common.Run.{◌>>=◌, Returns, Returns-bind}
use greenfloor.CoinOps.Policy.{overshoot_change_would_be_dust}
use greenfloor.CoinOps.Shape.{LadderShapeContext}
use greenfloor.CoinOps.Funding.{
  AmountUnit, dust_change_mojo_multiplier, ShapeCoin, CombineInputs, single_coin, combine_first,
  ShapeFundingResolution, funded, cannot_fund,
}
use greenfloor.CoinOps.Funding.Usable.{
  Distinct, holds_coin, Usable, largest-Usable, largest-none, smallest-Usable,
}
use greenfloor.CoinOps.Funding.Preserving.{
  inventory, Covering, Clean, flat-Covering, preserving-Clean,
}
use greenfloor.CoinOps.Funding.Resolve.{
  coin_funds_without_dust_change, aggregate_covers_without_usable_single_coin, sum_amounts,
  ShapeFundingPolicy, CombineStrategy, disabled, flat, ladder_preserving, ShapeFundingFlags, flags,
  select_largest_shape_coin, select_smallest_non_cannibalizing_shape_coin, select_single,
  resolution_of, resolve_by_combine, resolve_with, resolve_shape_funding,
}

if-given {κ} :
    {A : Type 0} (P : A → Type κ) (b : Bool) {x y : A}
    → (b ≡ true → P x)
    → (b ≡ false → P y)
    → P (if b then x else y)
if-given P true f g = f refl
if-given P false f g = g refl

-- The change of the coin is no dust and the coin is large enough.
pub Funds-parts :
    (required : ℤ) (unit : AmountUnit) (asset : Str) (coin : ShapeCoin)
    → coin_funds_without_dust_change required unit asset coin ≡ true
    → (required ≤ℤ coin.amount)
      × (overshoot_change_would_be_dust
            (sub_i64 coin.amount required)
            (dust_change_mojo_multiplier unit)
            asset
          ≡ false)
unfolding coin_funds_without_dust_change
Funds-parts required unit asset coin e = ground (arith, e)

-- No coin of the wallet is usable alone, unless the rows of the ladder are spared.
abbrev pub IsWithoutCoin : List ShapeCoin → ℤ → ShapeFundingFlags → Type 0
IsWithoutCoin coins required given =
    (given.prefer_smallest_non_cannibalizing ≡ true)
    ⊎ (any (coin_funds_without_dust_change required given.unit given.canonical_asset_id) coins
        ≡ false)

-- What a resolution pays for with coins of the wallet: the amount, without dust change unless a
-- daemon combines coins.
abbrev pub Pays :
    List ShapeCoin → ℤ → ShapeFundingFlags → CombineStrategy → ShapeFundingResolution → Type 0
Pays coins required given strategy (cannot_fund amount) =
    (amount ≡ required) × IsWithoutCoin coins required given
Pays coins required given strategy (funded (single_coin coin_id amount)) =
    (holds_coin coins coin_id amount ≡ true)
    × (required ≤ℤ amount)
    × (overshoot_change_would_be_dust (sub_i64 amount required)
          (dust_change_mojo_multiplier given.unit) given.canonical_asset_id
        ≡ false)
Pays coins required given disabled (funded (combine_first inputs)) = ⊥
Pays coins required given flat (funded (combine_first inputs)) =
    Covering coins required (some inputs)
Pays coins required given ladder_preserving (funded (combine_first inputs)) =
    Clean coins required (dust_change_mojo_multiplier given.unit) given.canonical_asset_id
      (some inputs)

module _ (coins : List ShapeCoin) (required : ℤ) (fits : inventory coins < two_63)
    (given : ShapeFundingFlags) where
  flat-Pays :
      (found : Option CombineInputs)
      → IsWithoutCoin coins required given
      → Covering coins required found
      → Pays coins required given flat (resolution_of required found)
  unfolding resolution_of
  flat-Pays none w c = (refl, w)
  flat-Pays (some inputs) w c = c

  preserving-Pays :
      (found : Option CombineInputs)
      → IsWithoutCoin coins required given
      → Clean coins required (dust_change_mojo_multiplier given.unit) given.canonical_asset_id found
      → Pays coins required given ladder_preserving (resolution_of required found)
  unfolding resolution_of
  preserving-Pays none w c = (refl, w)
  preserving-Pays (some inputs) w c = c

  combine-Pays :
      (ctx : LadderShapeContext) (strategy : CombineStrategy)
      → IsWithoutCoin coins required given
      → Returns
          (Pays coins required given strategy)
          (resolve_by_combine coins required (some ctx) given strategy)
  unfolding resolve_by_combine
  combine-Pays ctx disabled w = record {
    value = cannot_fund required;
    returns = refl;
    holds = (refl, w);
  }
  combine-Pays ctx ladder_preserving w =
      if-both (Returns (Pays coins required given ladder_preserving))
        (not (
          aggregate_covers_without_usable_single_coin required coins given.unit
            given.canonical_asset_id))
        (record { value = cannot_fund required; returns = refl; holds = (refl, w) })
        (Returns-bind
          (Clean coins required (dust_change_mojo_multiplier given.unit) given.canonical_asset_id)
          (Pays coins required given ladder_preserving)
          (preserving-Clean coins required fits given.combine_input_cap
            (dust_change_mojo_multiplier given.unit) given.canonical_asset_id ctx.protected_slots)
          λ found c. record {
            value = resolution_of required found;
            returns = refl;
            holds = preserving-Pays found w c;
          })
  combine-Pays ctx flat w =
      if-both (Returns (Pays coins required given flat))
        (not (ltb_ℤ (pos 0) required && leb_ℤ required (sum_amounts (pos 0) coins)))
        (record { value = cannot_fund required; returns = refl; holds = (refl, w) })
        (Returns-bind (Covering coins required) (Pays coins required given flat)
          (flat-Covering coins required fits given.combine_input_cap)
          λ found c. record {
            value = resolution_of required found;
            returns = refl;
            holds = flat-Pays found w c;
          })

  with-Pays :
      (ctx : LadderShapeContext) (selected : Option ShapeCoin)
      → ((coin : ShapeCoin)
          → selected ≡ some coin
          → Usable coins required given.unit given.canonical_asset_id coin)
      → (selected ≡ none → IsWithoutCoin coins required given)
      → Returns
          (Pays coins required given given.combine_strategy)
          (resolve_with coins required (some ctx) given selected)
  unfolding resolve_with
  with-Pays ctx none f g = combine-Pays ctx given.combine_strategy (g refl)
  with-Pays ctx (some coin) f g = record {
    value = funded (single_coin coin.id coin.amount);
    returns = refl;
    holds =
        let (held, funds) = f coin refl in
        let (enough, clean) = Funds-parts required given.unit given.canonical_asset_id coin funds in
        (held, enough, clean);
  }

-- For an amount that is not negative, and coins with different ids that are together worth less than
-- 2^63, a funding resolves under every policy: to the failure for the amount, which without a ladder to spare means that no coin alone is large
-- enough without dust, to a coin that is
-- in the wallet with the amount that is named, large enough and leaves no dust, or to at least two
-- coins of the wallet that are worth the total that is named, together large enough, and when a
-- ladder is bootstrapped leave no dust.
pub resolution-Pays :
    (coins : List ShapeCoin) (required : ℤ) (ctx : LadderShapeContext) (policy : ShapeFundingPolicy)
    (fits : inventory coins < two_63)
    → Distinct coins
    → pos 0 ≤ℤ required
    → Returns
        (Pays coins required (flags policy) (flags policy).combine_strategy)
        (resolve_shape_funding coins required (some ctx) policy)
unfolding resolve_shape_funding select_single
resolution-Pays coins required ctx policy fits distinct above =
    let given = flags policy in
    let same : max_ℤ required (pos 0) ≡ required = ground (arith, above) in
    let unit = given.unit in
    let asset = given.canonical_asset_id in
    if-given
      (λ run.
        Returns (Pays coins required given given.combine_strategy)
          (run >>= resolve_with coins required (some ctx) given))
      given.prefer_smallest_non_cannibalizing
      (λ spares.
        with-Pays coins required fits given ctx
          (select_smallest_non_cannibalizing_shape_coin coins required unit asset ctx)
          (λ coin. smallest-Usable coins required unit asset ctx coin distinct) λ _. inl spares)
      λ _.
        with-Pays coins required fits given ctx
          (select_largest_shape_coin coins (max_ℤ required (pos 0)) unit asset)
          (λ coin e.
            largest-Usable coins required unit asset coin
              (subst (λ r. select_largest_shape_coin coins r unit asset ≡ some coin) same e))
          λ e. inr (
            largest-none coins required unit asset
              (subst (λ r. select_largest_shape_coin coins r unit asset ≡ none) same e))
