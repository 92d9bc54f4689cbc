-- ===== src/CoinOps/Shape/Counts.antt =====
-- greenfloor-engine/src/coin_ops/shape_protection.rs: the counts of the coins that match a row.
use greenfloor.Common.{
  ℕ, suc, ◌+◌, ◌<◌, ◌≡◌, refl, ap, ◌∙◌, List, [], ◌∷◌, none, some, arith, if◌then◌else◌, length,
  map, Bool-cases, inl, inr,
}
use greenfloor.Common.Int.{ℤ, pos, eqb_ℤ}
use greenfloor.Common.I64.{two_63, add_i64-pos}
use greenfloor.Common.Dict.{Dict, ℤ_key, lookup, insert, lookup-insert}
use greenfloor.CoinOps.Shape.{contains, count_one, count_all, collect, exact_ladder_coin_counts}

-- How often a size stands among the amounts.
unfoldable pub occurrences : ℤ → List ℤ → ℕ
occurrences size [] = 0
occurrences size (amount ∷ amounts) =
    (if eqb_ℤ size amount then 1 else 0) + occurrences size amounts

pub collected_zeros :
    (size : ℤ) (sizes : List ℤ) (m : Dict ℤ ℤ)
    → lookup size (collect m (map (λ s. (s, pos 0)) sizes))
      ≡ (if contains sizes size then some (pos 0) else lookup size m)
unfolding collect contains
collected_zeros size [] m = refl
collected_zeros size (s ∷ sizes) m =
    ground (arith, collected_zeros size sizes (insert s (pos 0) m), lookup-insert size s (pos 0) m)

counted_one :
    (size amount : ℤ) (m : Dict ℤ ℤ) (n : ℕ)
    → lookup size m ≡ some (pos n)
    → suc n < two_63
    → lookup size (count_one amount m) ≡ some (pos ((if eqb_ℤ size amount then 1 else 0) + n))
unfolding count_one
counted_one size amount [] n h k = ground arith
counted_one size amount ((s, count) ∷ m) n h k =
    ground (arith, counted_one size amount m n, add_i64-pos n 1)

absent_one :
    (size amount : ℤ) (m : Dict ℤ ℤ)
    → lookup size m ≡ none
    → lookup size (count_one amount m) ≡ none
unfolding count_one
absent_one size amount [] h = refl
absent_one size amount ((s, count) ∷ m) h = ground (arith, absent_one size amount m)

counted_all :
    (size : ℤ) (amounts : List ℤ) (m : Dict ℤ ℤ) (n : ℕ)
    → lookup size m ≡ some (pos n)
    → n + length amounts < two_63
    → lookup size (count_all amounts m) ≡ some (pos (n + occurrences size amounts))
unfolding count_all occurrences
counted_all size [] m n h k = h ∙ ap (λ c. some (pos c)) (omega arith)
counted_all size (amount ∷ amounts) m n h k =
    let now = (if eqb_ℤ size amount then 1 else 0) + n in
    let one = counted_one size amount m n h (omega arith) in
    counted_all size amounts (count_one amount m) now one (ground arith)
    ∙ ap (λ c. some (pos c)) (omega arith)

absent_all :
    (size : ℤ) (amounts : List ℤ) (m : Dict ℤ ℤ)
    → lookup size m ≡ none
    → lookup size (count_all amounts m) ≡ none
unfolding count_all
absent_all size [] m h = h
absent_all size (amount ∷ amounts) m h =
    absent_all size amounts (count_one amount m) (absent_one size amount m h)

-- The table of counts has an entry for the sizes of the ladder and for no other size, and the entry
-- of a size is the number of spendable amounts that equal it, for fewer than 2^63 amounts.
pub exact_ladder_coin_counts_lem :
    (amounts ladder_sizes : List ℤ) (size : ℤ)
    → length amounts < two_63
    → lookup size (exact_ladder_coin_counts amounts ladder_sizes)
      ≡ (if contains ladder_sizes size then some (pos (occurrences size amounts)) else none)
unfolding exact_ladder_coin_counts
exact_ladder_coin_counts_lem amounts ladder_sizes size h =
    let zeros = collect [] (map (λ s. (s, pos 0)) ladder_sizes) in
    let start = collected_zeros size ladder_sizes [] in
    elim (Bool-cases (contains ladder_sizes size)) [
      | inl listed ↦ rw listed (
          counted_all size amounts zeros 0 (rw listed at start) (omega arith)
          ∙ ap (λ c. some (pos c)) (omega arith))
      | inr other ↦ rw other (absent_all size amounts zeros (rw other at start))
    ]
