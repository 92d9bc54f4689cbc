-- ===== src/CoinOps/CombineInputs/Largest.antt =====
-- greenfloor-engine/src/coin_ops/input_selection/combine_inputs.rs: the largest coins are combined.
use greenfloor.Common.{
  ℕ, zero, suc, ◌+◌, ◌≡◌, refl, ap, ◌∙◌, Bool, true, List, [], ◌∷◌, Option, arith, if◌then◌else◌,
  keep, map, min, take, length, All, All-map, Bool-cases, inl, inr,
}
use greenfloor.Common.Int.{◌≤ℤ◌, leb_ℤ}
use greenfloor.Common.Str.{Str}
use greenfloor.CoinOps.Coin.{SpendableCoin}
use greenfloor.CoinOps.CombineInputs.{
  normalized_exclude_ids, capped_count, is_combinable, place_coin, by_amount,
  plan_largest_combine_inputs,
}

-- How many coins a test picks.
unfoldable pub tally : (SpendableCoin → Bool) → List SpendableCoin → ℕ
tally q [] = 0
tally q (coin ∷ coins) = (if q coin then 1 else 0) + tally q coins

-- No coin of the list is larger than `coin`.
abbrev pub AtMost : SpendableCoin → List SpendableCoin → Type 0
AtMost coin = All λ other. other.amount ≤ℤ coin.amount

Descending : List SpendableCoin → Type 0
Descending [] = Unit
Descending (coin ∷ coins) = AtMost coin coins × Descending coins

drop : ℕ → List SpendableCoin → List SpendableCoin
drop n [] = []
drop zero (coin ∷ coins) = coin ∷ coins
drop (suc n) (coin ∷ coins) = drop n coins

tally-place :
    (q : SpendableCoin → Bool) (coin : SpendableCoin) (coins : List SpendableCoin)
    → tally q (place_coin coin coins) ≡ tally q (coin ∷ coins)
unfolding tally place_coin
tally-place q coin [] = refl
tally-place q coin (next ∷ coins) = ground (arith, tally-place q coin coins)

tally-by_amount :
    (q : SpendableCoin → Bool) (coins : List SpendableCoin)
    → tally q (by_amount coins) ≡ tally q coins
unfolding tally by_amount
tally-by_amount q [] = refl
tally-by_amount q (coin ∷ coins) =
    omega (arith, tally-place q coin (by_amount coins), tally-by_amount q coins)

tally-split :
    (q : SpendableCoin → Bool) (n : ℕ) (coins : List SpendableCoin)
    → tally q (take n coins) + tally q (drop n coins) ≡ tally q coins
unfolding tally drop
tally-split q n [] = refl
tally-split q zero (coin ∷ coins) = omega arith
tally-split q (suc n) (coin ∷ coins) = omega (arith, tally-split q n coins)

AtMost-place :
    (top coin : SpendableCoin) (coins : List SpendableCoin)
    → coin.amount ≤ℤ top.amount
    → AtMost top coins
    → AtMost top (place_coin coin coins)
unfolding place_coin
AtMost-place top coin [] le h = (le, tt)
AtMost-place top coin (next ∷ coins) le (k, h) = elim (Bool-cases (leb_ℤ next.amount coin.amount)) [
  | inl less ↦ rw less (le, (k, h))
  | inr more ↦ rw more (k, AtMost-place top coin coins le h)
]

AtMost-trans :
    (top coin : SpendableCoin) (coins : List SpendableCoin)
    → coin.amount ≤ℤ top.amount
    → AtMost coin coins
    → AtMost top coins
AtMost-trans top coin coins le h = All-map _ _ coins (λ other k. omega (arith, le, k)) h

Descending-place :
    (coin : SpendableCoin) (coins : List SpendableCoin)
    → Descending coins
    → Descending (place_coin coin coins)
unfolding Descending place_coin
Descending-place coin [] h = (tt, tt)
Descending-place coin (next ∷ coins) (k, h) = elim (Bool-cases (leb_ℤ next.amount coin.amount)) [
  | inl less ↦
      let le : next.amount ≤ℤ coin.amount = ground arith in
      rw less ((le, AtMost-trans coin next coins le k), (k, h))
  | inr more ↦
      rw more (AtMost-place next coin coins (ground arith) k, Descending-place coin coins h)
]

Descending-by_amount : (coins : List SpendableCoin) → Descending (by_amount coins)
unfolding Descending by_amount
Descending-by_amount [] = tt
Descending-by_amount (coin ∷ coins) =
    Descending-place coin (by_amount coins) (Descending-by_amount coins)

AtMost-drop :
    (top : SpendableCoin) (n : ℕ) (coins : List SpendableCoin)
    → AtMost top coins
    → AtMost top (drop n coins)
unfolding drop
AtMost-drop top n [] h = tt
AtMost-drop top zero (coin ∷ coins) h = h
AtMost-drop top (suc n) (coin ∷ coins) (k, h) = AtMost-drop top n coins h

Descending-split :
    (n : ℕ) (coins : List SpendableCoin)
    → Descending coins
    → All (λ chosen. AtMost chosen (drop n coins)) (take n coins)
unfolding Descending drop
Descending-split n [] h = tt
Descending-split zero (coin ∷ coins) h = tt
Descending-split (suc n) (coin ∷ coins) (k, h) =
    (AtMost-drop coin n coins k, Descending-split n coins h)

length-take :
    (n : ℕ) (coins : List SpendableCoin) → length (take n coins) ≡ min n (tally (λ _. true) coins)
unfolding tally
length-take n [] = ground arith
length-take zero (coin ∷ coins) = ground arith
length-take (suc n) (coin ∷ coins) = ground (arith, length-take n coins)

-- What is combined are the ids of largest coins: the coins that may be combined are parted into
-- those that are chosen and the others, so many are chosen as were asked for, or all when there are
-- fewer, and no other coin is larger than a chosen one.
pub largest_chosen :
    (coins : List SpendableCoin) (number : ℕ) (excluded : Option (List Str)) (max_count : Option ℕ)
    → let eligible = keep (is_combinable (normalized_exclude_ids excluded)) coins in
      (chosen : List SpendableCoin) × (others : List SpendableCoin) × (plan_largest_combine_inputs
          coins number excluded max_count
        ≡ map (λ coin. coin.id) chosen)
      × (length chosen ≡ min (capped_count number max_count) (tally (λ _. true) eligible))
      × ((q : SpendableCoin → Bool) → tally q chosen + tally q others ≡ tally q eligible)
      × All (λ coin. AtMost coin others) chosen
unfolding plan_largest_combine_inputs
largest_chosen coins number excluded max_count =
    let eligible = keep (is_combinable (normalized_exclude_ids excluded)) coins in
    let n = capped_count number max_count in
    let sorted = by_amount eligible in
    (
      take n sorted,
      drop n sorted,
      refl,
      length-take n sorted ∙ ap (min n) (tally-by_amount (λ _. true) eligible),
      λ q. tally-split q n sorted ∙ tally-by_amount q eligible,
      Descending-split n sorted (Descending-by_amount eligible),
    )
