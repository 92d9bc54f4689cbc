-- ===== src/CoinOps/Coin/Picks.antt =====
-- greenfloor-engine/src/coin_ops/selection.rs: the coins of an exact amount.
use greenfloor.Common.{
  ℕ, suc, ◌-◌, ◌≡◌, refl, sym, ap, ◌∙◌, List, [], ◌∷◌, Option, none, some, arith, leb, keep, map,
  take, max, Bool-cases, inl, inr,
}
use greenfloor.Common.Int.{ℤ}
use greenfloor.Common.Str.{Str}
use greenfloor.CoinOps.Coin.{SpendableCoin, is_exact, exact_from, select_exact_amount_coin_ids}

-- The ids of the coins that pass the tests of the loop, in order.
unfoldable pub exact_ids : ℤ → List Str → List SpendableCoin → List Str
exact_ids amount excluded coins = map (λ coin. coin.id) (keep (is_exact amount excluded) coins)

exact_from-all :
    (amount : ℤ) (excluded : List Str) (count : ℕ) (coins : List SpendableCoin)
    → exact_from amount excluded none count coins ≡ exact_ids amount excluded coins
unfolding exact_from exact_ids
exact_from-all amount excluded count [] = refl
exact_from-all amount excluded count (coin ∷ coins) =
    elim (Bool-cases (is_exact amount excluded coin)) [
      | inl fits ↦
          rw fits (ap (λ ids. coin.id ∷ ids) (exact_from-all amount excluded (suc count) coins))
      | inr misses ↦ rw misses (exact_from-all amount excluded count coins)
    ]

take_zero : (ids : List Str) → take 0 ids ≡ []
take_zero [] = refl
take_zero (id ∷ ids) = refl

exact_from-take :
    (amount : ℤ) (excluded : List Str) (cap count : ℕ) (coins : List SpendableCoin)
    → exact_from amount excluded (some cap) count coins
      ≡ take (suc (cap - suc count)) (exact_ids amount excluded coins)
unfolding exact_from exact_ids
exact_from-take amount excluded cap count [] = refl
exact_from-take amount excluded cap count (coin ∷ coins) =
    elim (Bool-cases (is_exact amount excluded coin)) [
      | inl fits ↦ rw fits (elim (Bool-cases (leb cap (suc count))) [
        | inl full ↦
            let none_left : cap - suc count ≡ 0 = ground arith in
            rw (full, none_left)
              (ap (λ ids. coin.id ∷ ids) (sym (take_zero (exact_ids amount excluded coins))))
        | inr room ↦
            let more : cap - suc count ≡ suc (cap - suc (suc count)) = ground arith in
            rw (room, more)
              (ap (λ ids. coin.id ∷ ids) (exact_from-take amount excluded cap (suc count) coins))
      ])
      | inr misses ↦ rw misses (exact_from-take amount excluded cap count coins)
    ]

-- The ids that are kept of all exact ones.
unfoldable pub capped : Option ℕ → List Str → List Str
capped none ids = ids
capped (some cap) ids = take (max cap 1) ids

-- The loop with its early exit picks the ids of the coins of the amount, in order: all of them
-- without a cap, and the first ones up to a cap otherwise. A cap of 0 lets one id through.
pub exact_amount_picks :
    (coins : List SpendableCoin) (amount : ℤ) (excluded : List Str) (max_count : Option ℕ)
    → select_exact_amount_coin_ids coins amount excluded max_count
      ≡ capped max_count (exact_ids amount excluded coins)
unfolding select_exact_amount_coin_ids capped
exact_amount_picks coins amount excluded none = exact_from-all amount excluded 0 coins
exact_amount_picks coins amount excluded (some cap) =
    exact_from-take amount excluded cap 0 coins
    ∙ ap (λ n. take n (exact_ids amount excluded coins)) (ground arith)
