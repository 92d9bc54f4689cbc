-- ===== src/CoinOps/Inventory/Agreement.antt =====
-- greenfloor-engine/src/coin_ops/inventory.rs: the two counters of exact coins agree.
use greenfloor.Common.{
  ℕ, suc, ◌+◌, ◌<◌, ◌≡◌, ap, ◌∙◌, sym, true, false, List, [], ◌∷◌, none, some, arith, if◌then◌else◌,
  length, map, unwrap_or, Bool-cases, inl, inr,
}
use greenfloor.Common.Int.{ℤ, pos, eqb_ℤ, eqb_ℤ-iff}
use greenfloor.Common.I64.{two_63, add_i64, add_i64-pos}
use greenfloor.Common.Dict.{Dict, ℤ_key, lookup, lookup-insert}
use greenfloor.CoinOps.Shape.{contains, collect, exact_ladder_coin_counts}
use greenfloor.CoinOps.Shape.Counts.{occurrences, collected_zeros, exact_ladder_coin_counts_lem}
use greenfloor.CoinOps.Inventory.{count_bucket, count_buckets, compute_bucket_counts_from_coins}

-- Equal sizes are looked up alike.
alike :
    (ladder : List ℤ) (size amount : ℤ) (m : Dict ℤ ℤ)
    → eqb_ℤ size amount ≡ true
    → (contains ladder amount ≡ contains ladder size) × (lookup amount m ≡ lookup size m)
alike ladder size amount m e =
    let same = sym ((eqb_ℤ-iff size amount).0 e) in
    (ap (contains ladder) same, ap (λ s. lookup s m) same)

counted_bucket :
    (ladder : List ℤ) (size amount : ℤ) (m : Dict ℤ ℤ) (n : ℕ)
    → contains ladder size ≡ true
    → lookup size m ≡ some (pos n)
    → suc n < two_63
    → lookup size (count_bucket ladder m amount)
      ≡ some (pos ((if eqb_ℤ size amount then 1 else 0) + n))
unfolding count_bucket
counted_bucket ladder size amount m n c h k =
    let after =
      lookup-insert size amount (add_i64 (unwrap_or (lookup amount m) (pos 0)) (pos 1)) m in
    elim (Bool-cases (eqb_ℤ size amount)) [
      | inl same ↦
          let (listed, there) = alike ladder size amount m same in
          ground (arith, listed, there, after, add_i64-pos n 1 (omega arith))
      | inr other ↦ ground (arith, after)
    ]

counted_buckets :
    (ladder : List ℤ) (size : ℤ) (amounts : List ℤ) (m : Dict ℤ ℤ) (n : ℕ)
    → contains ladder size ≡ true
    → lookup size m ≡ some (pos n)
    → n + length amounts < two_63
    → lookup size (count_buckets ladder m amounts) ≡ some (pos (n + occurrences size amounts))
unfolding count_buckets occurrences
counted_buckets ladder size [] m n c h k = h ∙ ap (λ i. some (pos i)) (omega arith)
counted_buckets ladder size (amount ∷ amounts) m n c h k =
    let now = (if eqb_ℤ size amount then 1 else 0) + n in
    let one = counted_bucket ladder size amount m n c h (omega arith) in
    counted_buckets ladder size amounts (count_bucket ladder m amount) now c one (ground arith)
    ∙ ap (λ i. some (pos i)) (omega arith)

absent_bucket :
    (ladder : List ℤ) (size amount : ℤ) (m : Dict ℤ ℤ)
    → contains ladder size ≡ false
    → lookup size m ≡ none
    → lookup size (count_bucket ladder m amount) ≡ none
unfolding count_bucket
absent_bucket ladder size amount m c h =
    let after =
      lookup-insert size amount (add_i64 (unwrap_or (lookup amount m) (pos 0)) (pos 1)) m in
    ground (arith, after, alike ladder size amount m)

absent_buckets :
    (ladder : List ℤ) (size : ℤ) (amounts : List ℤ) (m : Dict ℤ ℤ)
    → contains ladder size ≡ false
    → lookup size m ≡ none
    → lookup size (count_buckets ladder m amounts) ≡ none
unfolding count_buckets
absent_buckets ladder size [] m c h = h
absent_buckets ladder size (amount ∷ amounts) m c h =
    absent_buckets ladder size amounts (count_bucket ladder m amount) c
      (absent_bucket ladder size amount m c h)

-- The bucket counts of the inventory are, size by size, the counts of exact coins of the ladder
-- shape, for fewer than 2^63 amounts.
pub bucket_counts_agree :
    (amounts ladder_sizes : List ℤ) (size : ℤ)
    → length amounts < two_63
    → lookup size (compute_bucket_counts_from_coins amounts ladder_sizes)
      ≡ lookup size (exact_ladder_coin_counts amounts ladder_sizes)
unfolding compute_bucket_counts_from_coins
bucket_counts_agree amounts sizes size h =
    let zeros = collect [] (map (λ s. (s, pos 0)) sizes) in
    let start = collected_zeros size sizes [] in
    elim (Bool-cases (contains sizes size)) [
      | inl listed ↦
          rw (exact_ladder_coin_counts_lem amounts sizes size h, listed)
            (counted_buckets sizes size amounts zeros 0 listed (rw listed at start) (omega arith)
              ∙ ap (λ c. some (pos c)) (omega arith))
      | inr other ↦
          rw (exact_ladder_coin_counts_lem amounts sizes size h, other)
            (absent_buckets sizes size amounts zeros other (rw other at start))
    ]
