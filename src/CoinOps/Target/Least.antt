-- ===== src/CoinOps/Target/Least.antt =====
-- greenfloor-engine/src/coin_ops/selection.rs: no subset of the coins covers the target with less.
use greenfloor.Common.{
  ℕ, ◌+◌, ◌≤◌, ◌<◌, ◌≡◌, refl, ap, ◌∙◌, sym, subst, true, false, List, [], ◌∷◌, ◌-◌, Option, none,
  some, arith, ltb, length, get_elem?, inl, inr, map,
}
use greenfloor.Common.Int.{ℤ, pos, pos_part, leb_ℤ, ltb_ℤ, eqb_ℤ, eqb_ℤ-iff, ◌≤ℤ◌}
use greenfloor.Common.I64.{two_63, two_64, add_i64, add_i64-pos}
use greenfloor.Common.Run.{Run, returned, All-get}
use greenfloor.CoinOps.Coin.{SpendableCoin}
use greenfloor.CoinOps.Target.{
  Entry, Selection, entry_id, positive_spendable_entries, build_min_cardinality_subset_map, is_over,
  is_candidate, selection_of_row, choose_best_overshoot_subset, search_subsets, is_impossible,
  is_too_large, target_amount_sum_cap, select_spendable_coins_for_target_amount_with_options,
}
use greenfloor.CoinOps.Target.Subsets.{worth, Positive, Reaches, begin, Reaches-le}
use greenfloor.CoinOps.Target.Table.{IsReached}
use greenfloor.CoinOps.Target.Pointed.{Reaches-ArePointed}
use greenfloor.CoinOps.Target.Sound.{
  positive_spendable_entries-Positive, IsGood, exact-Covers, choose_from-IsGood, table-IsReached,
}
use greenfloor.CoinOps.Target.{
  max_amount, default_options, select_spendable_coins_for_target_amount,
}
use greenfloor.CoinOps.Target.Table.{Complete, subsets_from-Complete, Within}
use greenfloor.CoinOps.Target.Choice.{length_le, length_pos, trimmed, choose_least, Low}
use greenfloor.CoinOps.Target.{target_amount_sum_cap}

max_amount-nat :
    (entries : List Entry)
    → Positive entries
    → max_amount entries ≡ pos (pos_part (max_amount entries))
unfolding max_amount
max_amount-nat [] p = refl
max_amount-nat ((_, amount) ∷ entries) ((a, e), p) = ground (arith, e, max_amount-nat entries p)

max_amount-worth :
    (entries : List Entry) → Positive entries → pos_part (max_amount entries) ≤ worth entries
unfolding max_amount worth
max_amount-worth [] p = omega arith
max_amount-worth ((_, amount) ∷ entries) ((a, e), p) = ground (arith, e, max_amount-worth entries p)

some_entry : (entries : List Entry) → 0 < worth entries → ltb (length entries) 1 ≡ false
unfolding worth
some_entry [] h = absurd (omega (arith, h))
some_entry (entry ∷ entries) h = ground arith

module _ (entries : List Entry) (positive : Positive entries) (r : ℕ)
    (fits : r + worth entries < two_63) where
  cap_exact : target_amount_sum_cap (pos r) entries none ≡ pos (r + pos_part (max_amount entries))
  unfolding target_amount_sum_cap
  cap_exact =
      ap (add_i64 (pos r)) (max_amount-nat entries positive)
      ∙ add_i64-pos r _ (omega (arith, max_amount-worth entries positive, fits))

  worth_fits : worth entries < two_63
  worth_fits = omega (arith, fits)

  start-Complete :
      (cap : ℤ) (bound : ℕ) → Complete entries worth_fits cap bound 0 ((pos 0, []) ∷ [])
  start-Complete cap bound _ _ begin small short = ([], refl, omega arith)

  table_has :
      (cap : ℤ) (subset : List ℕ) (sum : ℕ)
      → Reaches entries (length entries) subset sum
      → ltb_ℤ cap (pos sum) ≡ false
      → Within (build_min_cardinality_subset_map entries cap none) sum (length subset)
  unfolding build_min_cardinality_subset_map
  table_has cap subset sum reach small =
      let whole : 0 + length entries ≡ length entries = omega arith in
      subsets_from-Complete entries worth_fits cap (two_64 - 1) 0 entries ((pos 0, []) ∷ [])
        (λ j. ap (get_elem? entries) (omega arith)) positive (start-Complete cap (two_64 - 1))
        subset sum (subst (λ n. Reaches entries n subset sum) (sym whole) reach) small
        (omega (arith, length_le reach, Reaches-le reach, worth_fits))

  abbrev EndsBelow : ℕ → Run Selection → Type 0
  EndsBelow n run =
      (selection : Selection) × (run ≡ returned selection)
      × (pos r ≤ℤ selection.total)
      × (selection.total ≤ℤ pos n)

  row-EndsBelow :
      (n : ℕ) (chosen : Option (ℤ × List ℕ))
      → IsGood entries (pos r) default_options chosen
      → Low r n chosen
      → EndsBelow n (selection_of_row entries (pos r) chosen)
  unfolding selection_of_row
  row-EndsBelow n none g low = absurd low
  row-EndsBelow n (some (sum, subset)) ((m, _, reach), _) (k, e, rk, kn) =
      let q = Reaches-ArePointed reach in
      let selection : Selection = record {
        ids = map entry_id q.picked;
        total = sum;
        exact = eqb_ℤ sum (pos r);
      } in
      rw q.found (selection, refl, rw e (omega (arith, rk)), rw e (omega (arith, kn)))

  candidate :
      (n : ℕ) (subset : List ℕ)
      → r ≤ n
      → 1 ≤ length subset
      → is_candidate (pos r) 1 none (pos n, subset) ≡ true
  unfolding is_candidate is_over
  candidate n subset rn long = ground arith

  search_least :
      (cap : ℤ) (subset : List ℕ) (n : ℕ)
      → 0 < r
      → r ≤ n
      → Reaches entries (length entries) subset n
      → ltb_ℤ cap (pos n) ≡ false
      → EndsBelow n (search_subsets entries (pos r) cap default_options)
  unfolding search_subsets choose_best_overshoot_subset
  search_least cap subset n above_0 rn reach small =
      let best = build_min_cardinality_subset_map entries cap none in
      let reached = table-IsReached entries (pos r) default_options worth_fits positive cap in
      let (found, e, _) = table_has cap subset n reach small in
      let (m, same, there) =
        All-get (IsReached entries (length entries)) (pos n) found best reached e in
      elim (exact-Covers entries (pos r) default_options best worth_fits reached) [
        | inr (selection, f, c, exact) ↦
            let met : selection.total ≡ pos r =
              (eqb_ℤ-iff selection.total (pos r)).0 (sym c.exact_iff ∙ exact) in
            rw f (selection, refl, rw met (omega arith), rw met (omega (arith, rn)))
        | inl f ↦ rw f (
            row-EndsBelow n _
              (choose_from-IsGood entries (pos r) default_options best none reached tt)
              (choose_least r entries worth_fits n found best none
                (omega (arith, Reaches-le reach, worth_fits)) rn
                (candidate n found rn (length_pos there (ground (arith, same, above_0, rn))))
                reached tt e))
      ]

-- Without a bound on the inputs, and with amounts that are small enough for the table, the
-- selection covers the target, and no coins of the wallet that cover it are worth less.
pub least_cover :
    (coins : List SpendableCoin) (r : ℕ) (subset : List ℕ) (sum : ℕ)
    → 0 < r
    → r + worth (positive_spendable_entries coins) < two_63
    → is_too_large none (target_amount_sum_cap (pos r) (positive_spendable_entries coins) none)
      ≡ false
    → Reaches
        (positive_spendable_entries coins)
        (length (positive_spendable_entries coins))
        subset
        sum
    → r ≤ sum
    → (selection : Selection) × (select_spendable_coins_for_target_amount coins (pos r)
        ≡ returned selection)
      × (pos r ≤ℤ selection.total)
      × (selection.total ≤ℤ pos sum)
unfolding select_spendable_coins_for_target_amount
    select_spendable_coins_for_target_amount_with_options is_impossible
least_cover coins r subset sum above_0 fits small reach covers =
    let entries = positive_spendable_entries coins in
    let positive = positive_spendable_entries-Positive coins in
    let (kept, n, q, low, le, within) = trimmed r positive reach covers in
    let cap = cap_exact entries positive r fits in
    let not_none : ltb (length entries) 1 ≡ false =
      some_entry entries (omega (arith, Reaches-le reach, covers, above_0)) in
    let wanted : leb_ℤ (pos r) (pos 0) ≡ false = ground (arith, above_0) in
    let sum_cap = target_amount_sum_cap (pos r) entries none in
    let below : ltb_ℤ sum_cap (pos n) ≡ false =
      subst (λ c. ltb_ℤ c (pos n) ≡ false) (sym cap) (ground (arith, within)) in
    let (selection, e, lo, hi) =
      search_least entries positive r fits sum_cap kept n above_0 low q below in
    rw (wanted, not_none, small) (selection, e, lo, omega (arith, hi, le))
