-- ===== src/CoinOps/Amounts/Total.antt =====
-- greenfloor-engine/src/coin_ops/amounts.rs: the outputs of a combine have the total of its inputs.
use greenfloor.Common.{
  ℕ, zero, suc, ◌+◌, ◌*◌, ◌/◌, ◌%◌, ◌<◌, ◌≡◌, refl, ap, ◌∙◌, sym, true, List, [], ◌∷◌, arith, ltb,
  replicate, length, max,
}
use greenfloor.Common.Int.{pos}
use greenfloor.Common.I64.{two_63, two_64}
use greenfloor.Common.Result.{ok}
use greenfloor.CoinOps.Amounts.{
  saturating_add_u64, add_to_last, output_amounts, combine_output_amounts, usize_to_i64, div_euclid,
  rem_euclid, coin_op_non_negative_u64_saturating,
}
use native.Mathlib.Nat.{mod-add-div', div-le_self, mod-le}

unfoldable pub sum : List ℕ → ℕ
sum [] = 0
sum (amount ∷ amounts) = amount + sum amounts

-- Equal outputs, and a last one that takes what is left over.
outputs : ℕ → ℕ → ℕ → List ℕ
outputs zero base extra = (base + extra) ∷ []
outputs (suc n) base extra = base ∷ outputs n base extra

add_to_last-replicate :
    (n base extra : ℕ)
    → base + extra < two_64
    → add_to_last extra (replicate (suc n) base) ≡ outputs n base extra
unfolding add_to_last saturating_add_u64 outputs
add_to_last-replicate zero base extra h = ground arith
add_to_last-replicate (suc n) base extra h =
    ap (λ xs. base ∷ xs) (add_to_last-replicate n base extra h)

sum-outputs :
    (n base extra : ℕ)
    → (sum (outputs n base extra) ≡ base * suc n + extra) × (length (outputs n base extra) ≡ suc n)
unfolding sum outputs
sum-outputs zero base extra = (omega arith, refl)
sum-outputs (suc n) base extra =
    let (total, count) = sum-outputs n base extra in (omega (arith, total), ap suc count)

quotient_and_rest : (t n : ℕ) → t < two_63 → t / suc n + t % suc n < two_64
quotient_and_rest t n h = omega (arith, div-le_self t (suc n), mod-le t (suc n))

amount-pos : (n : ℕ) → coin_op_non_negative_u64_saturating (pos n) ≡ n
unfolding coin_op_non_negative_u64_saturating
amount-pos n = ground arith

shared :
    (total n : ℕ)
    → total < two_63
    → add_to_last
        (coin_op_non_negative_u64_saturating (pos (total % suc n)))
        (replicate (suc n) (coin_op_non_negative_u64_saturating (pos (total / suc n))))
      ≡ outputs n (total / suc n) (total % suc n)
shared total n h =
    rw (amount-pos (total % suc n), amount-pos (total / suc n))
      (add_to_last-replicate n (total / suc n) (total % suc n) (quotient_and_rest total n h))

-- The outputs for a count that is not 0.
combined :
    (total n : ℕ)
    → total < two_63
    → suc n < two_63
    → output_amounts (pos total) (suc n) ≡ ok (outputs n (total / suc n) (total % suc n))
unfolding output_amounts usize_to_i64 div_euclid rem_euclid
combined total n h k =
    let fits : ltb (suc n) two_63 ≡ true = ground arith in
    rw (fits, output_amounts) (ap ok (shared total n h))

at_least_one : (count : ℕ) → (n : ℕ) × (max count 1 ≡ suc n)
at_least_one zero = (0, refl)
at_least_one (suc n) = (n, ground arith)

-- A combine of a total that is an i64 amount into some number of outputs has that number of
-- outputs, one when none are asked for, and they add up to the total: no mojo is lost or made.
pub combine_output_amounts-total :
    (total count : ℕ)
    → total < two_63
    → max count 1 < two_63
    → (amounts : List ℕ) × (combine_output_amounts (pos total) count ≡ ok amounts)
      × (length amounts ≡ max count 1)
      × (sum amounts ≡ total)
unfolding combine_output_amounts
combine_output_amounts-total total count h k =
    let (n, e) = at_least_one count in
    let (whole, many) = sum-outputs n (total / suc n) (total % suc n) in
    (
      outputs n (total / suc n) (total % suc n),
      rw (e, combine_output_amounts) (combined total n h (omega (arith, k, e))),
      many ∙ sym e,
      omega (arith, whole, mod-add-div' total (suc n)),
    )
