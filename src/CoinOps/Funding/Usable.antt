-- ===== src/CoinOps/Funding/Usable.antt =====
-- greenfloor-engine/src/coin_ops/shape/funding.rs: the single coin that pays.
use greenfloor.Common.{
  ◌≡◌, refl, ap, ◌∙◌, sym, subst, Bool, true, false, ◌&&◌, List, [], ◌∷◌, none, some, arith, map,
  keep, any, All, All-keep, All-map, Bool-cases, Option-cases, inl, inr,
}
use mathlib.Core.Option.{some-injective}
use greenfloor.Common.Int.{ℤ, pos, max_ℤ, leb_ℤ, eqb_ℤ, eqb_ℤ-iff}
use greenfloor.Common.Str.{Str, str_eq, str_eq_refl}
use greenfloor.CoinOps.Shape.{
  LadderShapeContext, SplittableCandidate, from_mojos,
  select_smallest_non_cannibalizing_candidate_id,
}
use greenfloor.CoinOps.Shape.Selection.{candidate_All}
use greenfloor.CoinOps.Units.{floored_units_from_mojos}
use greenfloor.CoinOps.Funding.{AmountUnit, ladder_conversion_multiplier, ShapeCoin}
use greenfloor.CoinOps.Funding.Resolve.{
  coin_funds_without_dust_change, last_largest_coin, select_largest_shape_coin, find_shape_coin,
  select_smallest_non_cannibalizing_shape_coin,
}

-- No two coins have one id.
abbrev pub Distinct : List ShapeCoin → Type 0
Distinct [] = Unit
Distinct (coin ∷ coins) = (any (λ other. str_eq coin.id other.id) coins ≡ false) × Distinct coins

still_found :
    (coin : ShapeCoin) (rest coins : List ShapeCoin)
    → All (λ other. find_shape_coin other.id rest ≡ some other) coins
    → any (λ other. str_eq coin.id other.id) coins ≡ false
    → All (λ other. find_shape_coin other.id (coin ∷ rest) ≡ some other) coins
unfolding find_shape_coin
still_found coin rest [] h e = tt
still_found coin rest (other ∷ coins) (found, h) e =
    (ground (arith, e, found), still_found coin rest coins h (ground (arith, e)))

found_by_id :
    (coins : List ShapeCoin)
    → Distinct coins
    → All (λ coin. find_shape_coin coin.id coins ≡ some coin) coins
unfolding find_shape_coin
found_by_id [] d = tt
found_by_id (coin ∷ coins) (fresh, d) =
    (ground (arith, str_eq_refl coin.id), still_found coin coins coins (found_by_id coins d) fresh)

All-map-of {κ} :
    {A : Type 0} {B : Type 0} (P : B → Type κ) (f : A → B) (xs : List A)
    → All (λ x. P (f x)) xs
    → All P (map f xs)
All-map-of P f [] h = tt
All-map-of P f (x ∷ xs) (p, h) = (p, All-map-of P f xs h)

-- The wallet has a coin with the id and the amount.
abbrev pub holds_coin : List ShapeCoin → Str → ℤ → Bool
holds_coin coins id amount = any (λ coin. str_eq coin.id id && eqb_ℤ coin.amount amount) coins

own_coins_held : (coins : List ShapeCoin) → All (λ c. holds_coin coins c.id c.amount ≡ true) coins
own_coins_held [] = tt
own_coins_held (coin ∷ coins) = (
  ground (arith, str_eq_refl coin.id, eqb_ℤ-iff coin.amount coin.amount),
  All-map _ _ coins (λ c h. ground (arith, h)) (own_coins_held coins),
)

find_All {κ} :
    (P : ShapeCoin → Type κ) (coins : List ShapeCoin) (id : Str) (best : ShapeCoin)
    → All P coins
    → find_shape_coin id coins ≡ some best
    → P best
unfolding find_shape_coin
find_All P [] id best h e = ground arith
find_All P (coin ∷ coins) id best (p, h) e = elim (Bool-cases (str_eq coin.id id)) [
  | inl same ↦ subst P (some-injective coin best (rw same at e)) p
  | inr other ↦ find_All P coins id best h (rw other at e)
]

largest_All {κ} :
    (P : ShapeCoin → Type κ) (coins : List ShapeCoin) (best : ShapeCoin)
    → All P coins
    → last_largest_coin coins ≡ some best
    → P best
unfolding last_largest_coin
largest_All P [] best h e = ground arith
largest_All P (coin ∷ coins) best (p, h) e = elim (Option-cases (last_largest_coin coins)) [
  | inl empty ↦ subst P (some-injective coin best (rw empty at e)) p
  | inr (other, found) ↦ elim (Bool-cases (leb_ℤ coin.amount other.amount)) [
    | inl less ↦
        subst P (some-injective other best (rw (found, less) at e))
          (largest_All P coins other h found)
    | inr more ↦ subst P (some-injective coin best (rw (found, more) at e)) p
  ]
]

largest_found :
    (coin : ShapeCoin) (coins : List ShapeCoin)
    → (best : ShapeCoin) × (last_largest_coin (coin ∷ coins) ≡ some best)
unfolding last_largest_coin
largest_found coin coins = elim (Option-cases (last_largest_coin coins)) [
  | inl empty ↦ (coin, rw empty refl)
  | inr (best, found) ↦ elim (Bool-cases (leb_ℤ coin.amount best.amount)) [
    | inl less ↦ (best, rw (found, less) refl)
    | inr more ↦ (coin, rw (found, more) refl)
  ]
]

none_passes :
    (p : ShapeCoin → Bool) (coins : List ShapeCoin)
    → last_largest_coin (keep p coins) ≡ none
    → any p coins ≡ false
none_passes p [] e = refl
none_passes p (coin ∷ coins) e = elim (Bool-cases (p coin)) [
  | inr fails ↦ ground (arith, fails, none_passes p coins (rw fails at e))
  | inl passes ↦
      let (best, found) = largest_found coin (keep p coins) in
      let nothing = rw passes at e in absurd (ground (arith, found, nothing))
]

module _ (coins : List ShapeCoin) (required : ℤ) (unit : AmountUnit) (asset : Str) where
  -- The coin is in the wallet and large enough, and its change is no dust.
  abbrev pub Usable : ShapeCoin → Type 0
  Usable coin =
      (holds_coin coins coin.id coin.amount ≡ true)
      × (coin_funds_without_dust_change required unit asset coin ≡ true)

  pub largest-Usable :
      (coin : ShapeCoin)
      → select_largest_shape_coin coins required unit asset ≡ some coin
      → Usable coin
  unfolding select_largest_shape_coin
  largest-Usable coin e =
      let fits = coin_funds_without_dust_change required unit asset in
      largest_All Usable (keep fits coins) coin
        (All-keep (λ c. holds_coin coins c.id c.amount ≡ true) fits coins (own_coins_held coins)) e

  pub largest-none :
      select_largest_shape_coin coins required unit asset ≡ none
      → any (coin_funds_without_dust_change required unit asset) coins ≡ false
  unfolding select_largest_shape_coin
  largest-none e = none_passes (coin_funds_without_dust_change required unit asset) coins e

  pub smallest-Usable :
      (ctx : LadderShapeContext) (coin : ShapeCoin)
      → Distinct coins
      → select_smallest_non_cannibalizing_shape_coin coins required unit asset ctx ≡ some coin
      → Usable coin
  unfolding select_smallest_non_cannibalizing_shape_coin from_mojos
  smallest-Usable ctx coin d e =
      let fits = coin_funds_without_dust_change required unit asset in
      let multiplier = max_ℤ (ladder_conversion_multiplier unit) (pos 1) in
      let candidates = map (λ c. from_mojos c.id c.amount multiplier) (keep fits coins) in
      let P : SplittableCandidate → Type 0 = λ c.
        (source : ShapeCoin) × (find_shape_coin c.id coins ≡ some source) × (fits source ≡ true) in
      let all : All P candidates =
        All-map-of P (λ c. from_mojos c.id c.amount multiplier) (keep fits coins)
          (All-map _ _ (keep fits coins) (λ c (there, ok). (c, there, ok))
            (All-keep (λ c. find_shape_coin c.id coins ≡ some c) fits coins
              (found_by_id coins d))) in
      let units = floored_units_from_mojos required multiplier in
      elim (Option-cases (select_smallest_non_cannibalizing_candidate_id candidates units ctx)) [
        | inl nothing ↦
            let no = rw (select_smallest_non_cannibalizing_shape_coin, nothing) at e in cc
        | inr (id, selected) ↦
            let (c, (source, there, ok), same) =
              candidate_All P candidates units ctx id all selected in
            let here : find_shape_coin id coins ≡ some coin =
              rw (select_smallest_non_cannibalizing_shape_coin, selected) at e in
            subst Usable
              (some-injective source coin
                (sym there ∙ ap (λ x. find_shape_coin x coins) same ∙ here))
              (
                find_All (λ c. holds_coin coins c.id c.amount ≡ true) coins c.id source
                    (own_coins_held coins) there,
                ok,
              )
      ]
