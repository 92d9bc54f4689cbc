-- ===== src/CoinOps/Inventory/Effective.antt =====
-- greenfloor-engine/src/coin_ops/effective_counts.rs: how live sell offers count towards a row.
use greenfloor.Common.{
  ℕ, ◌+◌, ◌<◌, ◌≡◌, refl, ap, Bool, true, false, ◌&&◌, and_true, ◌∙◌, not, List, [], ◌∷◌, ◌++◌,
  Option, some, arith, if◌then◌else◌, all, unwrap_or, min,
}
use greenfloor.Common.Int.{
  ℤ, pos, pos_part, ◌<ℤ◌, ◌-ℤ◌, ◌+ℤ◌, sub_ℕ, max_ℤ, min_ℤ, eqb_ℤ, eqb_ℤ-iff, leb_ℤ,
}
use greenfloor.Common.I64.{two_63, add_i64, saturating_sub, clamp_i64, wrap_i64}
use greenfloor.Common.Dict.{Dict, ℤ_key, lookup, lookup-insert}
use greenfloor.CoinOps.Inventory.{
  LadderTargetRow, count_of, effective_count, effective_from, place,
  effective_sell_bucket_counts_for_coin_ops,
}

-- A row counts for its size when the size is positive.
abbrev pub is_row_of : ℤ → LadderTargetRow → Bool
is_row_of size entry = not (leb_ℤ size (pos 0)) && eqb_ℤ entry.size_base_units size

lookup-place :
    (size other count : ℤ) (m : Dict ℤ ℤ)
    → lookup size (place other count m)
      ≡ (if not (leb_ℤ size (pos 0)) && eqb_ℤ other size then some count else lookup size m)
unfolding place
lookup-place size other count m =
    ground (arith, lookup-insert size other count m, eqb_ℤ-iff other size)

module _ (wallet active newly : Dict ℤ ℤ) where
  kept_from :
      (entries : List LadderTargetRow) (effective : Dict ℤ ℤ) (size : ℤ)
      → all (λ entry. not (is_row_of size entry)) entries ≡ true
      → lookup size (effective_from wallet active newly entries effective) ≡ lookup size effective
  unfolding effective_from
  kept_from [] effective size h = refl
  kept_from (entry ∷ entries) effective size h =
      let count = effective_count wallet active newly entry in
      let (other, others) = (and_true (not (is_row_of size entry)) _).0 h in
      let no : is_row_of size entry ≡ false = ground (arith, other) in
      kept_from entries (place entry.size_base_units count effective) size others
      ∙ lookup-place size entry.size_base_units count effective
      ∙ rw no refl

  decided_from :
      (before after : List LadderTargetRow) (entry : LadderTargetRow) (effective : Dict ℤ ℤ)
      → pos 0 <ℤ entry.size_base_units
      → all (λ other. not (is_row_of entry.size_base_units other)) after ≡ true
      → lookup entry.size_base_units
          (effective_from wallet active newly (before ++ entry ∷ after) effective)
        ≡ some (effective_count wallet active newly entry)
  unfolding effective_from
  decided_from [] after entry effective positive h =
      let count = effective_count wallet active newly entry in
      let size = entry.size_base_units in
      let own : is_row_of size entry ≡ true = ground (arith, positive) in
      kept_from after (place size count effective) size h
      ∙ lookup-place size size count effective
      ∙ rw own refl
  decided_from (row ∷ before) after entry effective positive h =
      decided_from before after entry
        (place row.size_base_units (effective_count wallet active newly row) effective) positive h

-- A count, or target, that is not below 0.
abbrev pub natural : ℤ → ℕ
natural = pos_part

clamped : (z : ℤ) → max_ℤ z (pos 0) ≡ pos (natural z)
clamped z = ground arith

credit :
    (w a n t : ℕ)
    → w + t < two_63
    → a + n < two_63
    → add_i64 (saturating_sub (pos w) (pos n)) (min_ℤ (add_i64 (pos a) (pos n)) (pos t))
      ≡ sub_ℕ (w + min (a + n) t) n
unfolding saturating_sub clamp_i64 ◌-ℤ◌ ◌+ℤ◌ wrap_i64 add_i64
credit w a n t h k = ground arith

unfoldable pub count_for : ℤ → Dict ℤ ℤ → ℕ
count_for size counts = natural (unwrap_or (lookup size counts) (pos 0))

count_of-eq : (counts : Dict ℤ ℤ) (size : ℤ) → count_of counts size ≡ pos (count_for size counts)
unfolding count_for
count_of-eq counts size = clamped (unwrap_or (lookup size counts) (pos 0))

effective_count-eq :
    (wallet active newly : Dict ℤ ℤ) (entry : LadderTargetRow)
    → count_for entry.size_base_units wallet + natural entry.target_count < two_63
    → count_for entry.size_base_units active + count_for entry.size_base_units newly < two_63
    → effective_count wallet active newly entry
      ≡ sub_ℕ
          (count_for entry.size_base_units wallet
            + min
                (count_for entry.size_base_units active + count_for entry.size_base_units newly)
                (natural entry.target_count))
          (count_for entry.size_base_units newly)
unfolding effective_count
effective_count-eq wallet active newly entry h k =
    let size = entry.size_base_units in
    rw
      (
        count_of-eq wallet size,
        count_of-eq active size,
        count_of-eq newly size,
        clamped entry.target_count,
      )
      (credit (count_for size wallet) (count_for size active) (count_for size newly)
        (natural entry.target_count) h k)

-- The last row of a positive size decides its effective count: the coins of the wallet less the
-- offers that were just posted, and the live and just posted offers up to the target of the row. The
-- difference is exact: it is below 0 when more was posted than the wallet had coins of the size and
-- the target allows. The counts are i64 values whose sums fit.
pub last_row_decides :
    (before after : List LadderTargetRow) (entry : LadderTargetRow) (wallet active newly : Dict ℤ ℤ)
    → pos 0 <ℤ entry.size_base_units
    → all (λ other. not (is_row_of entry.size_base_units other)) after ≡ true
    → count_for entry.size_base_units wallet + natural entry.target_count < two_63
    → count_for entry.size_base_units active + count_for entry.size_base_units newly < two_63
    → lookup entry.size_base_units (
        effective_sell_bucket_counts_for_coin_ops
          (before ++ entry ∷ after)
          wallet
          (some active)
          (some newly))
      ≡ some (
          sub_ℕ
            (count_for entry.size_base_units wallet
              + min
                  (count_for entry.size_base_units active + count_for entry.size_base_units newly)
                  (natural entry.target_count))
            (count_for entry.size_base_units newly))
unfolding effective_sell_bucket_counts_for_coin_ops
last_row_decides before after entry wallet active newly positive last h k =
    decided_from wallet active newly before after entry wallet positive last
    ∙ ap some (effective_count-eq wallet active newly entry h k)

-- A size of which no row is positive keeps the count of the wallet.
pub other_sizes_kept :
    (ladder : List LadderTargetRow) (wallet : Dict ℤ ℤ) (active newly : Option (Dict ℤ ℤ))
    (size : ℤ)
    → all (λ entry. not (is_row_of size entry)) ladder ≡ true
    → lookup size (effective_sell_bucket_counts_for_coin_ops ladder wallet active newly)
      ≡ lookup size wallet
unfolding effective_sell_bucket_counts_for_coin_ops
other_sizes_kept ladder wallet active newly size h =
    kept_from wallet (unwrap_or active []) (unwrap_or newly []) ladder wallet size h
