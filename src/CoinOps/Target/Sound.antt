-- ===== src/CoinOps/Target/Sound.antt =====
-- greenfloor-engine/src/coin_ops/selection.rs: a selection of coins covers the target.
use greenfloor.Common.{
  ltb→ge, ℕ, zero, suc, ◌+◌, ◌<◌, ◌≡◌, refl, ap, ◌∙◌, sym, subst, Bool, true, false, ◌&&◌, ◌||◌,
  not, List, [], ◌∷◌, ◌-◌, Option, none, some, arith, ltb, if-both, length, get_elem?, All,
  Bool-cases, Option-cases, ◌⊎◌, inl, inr, map, unwrap_or, is_empty,
}
use greenfloor.Common.Int.{ℤ, pos, negsuc, pos_part, leb_ℤ, ltb_ℤ, eqb_ℤ-iff, ◌≤ℤ◌}
use greenfloor.Common.I64.{two_63, two_64, add_i64, add_i64-pos}
use greenfloor.Common.Run.{Run, returned, get, All-get}
use greenfloor.CoinOps.Coin.{SpendableCoin}
use greenfloor.CoinOps.Target.{
  Entry, SubsetMap, Selection, TargetAmountSelectionOptions, nothing_selected, entry_id,
  is_positive, positive_spendable_entries, greedy_target_amount_selection,
  build_min_cardinality_subset_map, sum_entries, is_over, exact_target_amount_subset, is_candidate,
  beats_chosen, choose_from, selection_of_row, choose_best_overshoot_subset, search_subsets,
  is_impossible, is_too_large, target_amount_sum_cap,
  select_spendable_coins_for_target_amount_with_options,
}
use greenfloor.CoinOps.Target.Subsets.{worth, Positive, begin, Reaches-le}
use greenfloor.CoinOps.Target.Table.{IsReached, subsets_from-IsReached}
use greenfloor.CoinOps.Target.Pointed.{Covers, Reaches-ArePointed, picked_by-take}
use greenfloor.CoinOps.Target.Greedy.{greedy-Covers}

or_false : (a b : Bool) → (a || b) ≡ false → (a ≡ false) × (b ≡ false)
or_false a b h = ground arith

unbounded : (max_count : Option ℕ) (cap : ℤ) → is_too_large max_count cap ≡ true → max_count ≡ none
unfolding is_too_large
unbounded none cap h = refl
unbounded (some max) cap h = absurd (ground (arith, h))

pub above : (amount : ℤ) → ltb_ℤ (pos 0) amount ≡ true → (a : ℕ) × (amount ≡ pos (suc a))
above (pos zero) h = absurd (ground (arith, h))
above (pos (suc a)) h = (a, refl)
above (negsuc a) h = absurd (ground (arith, h))

pub positive_spendable_entries-Positive :
    (coins : List SpendableCoin) → Positive (positive_spendable_entries coins)
unfolding positive_spendable_entries is_positive
positive_spendable_entries-Positive [] = tt
positive_spendable_entries-Positive (coin ∷ coins) =
    elim (Bool-cases (not (is_empty coin.id) && ltb_ℤ (pos 0) coin.amount)) [
      | inl kept ↦
          rw kept
            (above coin.amount (ground (arith, kept)), positive_spendable_entries-Positive coins)
      | inr dropped ↦ rw dropped (positive_spendable_entries-Positive coins)
    ]

sum_entries-worth :
    (start : ℕ) (picked : List Entry)
    → Positive picked
    → start + worth picked < two_63
    → sum_entries (pos start) picked ≡ pos (start + worth picked)
unfolding sum_entries worth
sum_entries-worth start [] p fits = ap pos (omega arith)
sum_entries-worth start ((id, amount) ∷ picked) ((a, e), p) fits =
    let added : add_i64 (pos start) amount ≡ pos (start + suc a) =
      ap (add_i64 (pos start)) e ∙ add_i64-pos start (suc a) (omega (arith, ap pos_part e, fits)) in
    rw added (
      sum_entries-worth (start + suc a) picked p (omega (arith, ap pos_part e, fits))
      ∙ ap pos (omega (arith, ap pos_part e)))

module _ (entries : List Entry) (required : ℤ) (options : TargetAmountSelectionOptions) where
  abbrev Outcome : Selection → Type 0
  Outcome selection =
      (selection ≡ nothing_selected)
      ⊎ Covers entries required options.min_input_count options.max_input_count selection

  abbrev Ends : Run Selection → Type 0
  Ends run = (selection : Selection) × (run ≡ returned selection) × Outcome selection

  abbrev pub IsGood : Option (ℤ × List ℕ) → Type 0
  IsGood none = Unit
  IsGood (some row) =
      IsReached entries (length entries) row
      × (is_candidate required options.min_input_count options.max_input_count row ≡ true)

  pub choose_from-IsGood :
      (best : SubsetMap) (chosen : Option (ℤ × List ℕ))
      → All (IsReached entries (length entries)) best
      → IsGood chosen
      → IsGood (
          choose_from required options.min_input_count options.max_input_count
            options.overshoot_rank chosen best)
  unfolding choose_from
  choose_from-IsGood [] chosen h g = g
  choose_from-IsGood (row ∷ best) chosen (r, h) g =
      choose_from-IsGood best _ h
        (elim (Bool-cases (
          is_candidate required options.min_input_count options.max_input_count row
          && beats_chosen required options.overshoot_rank row chosen)) [
            | inl better ↦ rw better (r, ground (arith, better))
            | inr worse ↦ rw worse g
          ])

  -- What the table gives for the target itself.
  pub exact-Covers :
      (best : SubsetMap)
      → worth entries < two_63
      → All (IsReached entries (length entries)) best
      → let found =
          exact_target_amount_subset best entries required options.min_input_count
            options.max_input_count in
        (found ≡ returned none)
        ⊎ ((selection : Selection) × (found ≡ returned (some selection))
            × Covers entries required options.min_input_count options.max_input_count selection
            × (selection.exact ≡ true))
  unfolding exact_target_amount_subset
  exact-Covers best fits h = elim (Option-cases (get required best)) [
    | inl missing ↦ rw (exact_target_amount_subset, missing) (inl refl)
    | inr (subset, e) ↦
        elim (Bool-cases (
          ltb (length subset) options.min_input_count
          || is_over options.max_input_count (length subset))) [
            | inl refused ↦ rw (exact_target_amount_subset, e, refused) (inl refl)
            | inr allowed ↦
                let (n, same, r) =
                  All-get (IsReached entries (length entries)) required subset best h e in
                let q = Reaches-ArePointed r in
                let total : sum_entries (pos 0) q.picked ≡ pos (worth q.picked) =
                  sum_entries-worth 0 q.picked q.positive
                    (omega (arith, q.as_much, Reaches-le r, fits))
                  ∙ ap pos (omega arith) in
                let (many, within) =
                  or_false (ltb (length subset) options.min_input_count)
                    (is_over options.max_input_count (length subset)) allowed in
                let met : sum_entries (pos 0) q.picked ≡ required =
                  total ∙ ap pos q.as_much ∙ sym same in
                let selection : Selection = record {
                  ids = map entry_id q.picked;
                  total = sum_entries (pos 0) q.picked;
                  exact = true;
                } in
                rw (exact_target_amount_subset, e, allowed, q.found)
                  (inr (
                    selection,
                    refl,
                    record {
                      picked = q.picked;
                      from_entries = λ test.
                          omega (arith, q.apart test, picked_by-take test entries (length entries));
                      same_ids = refl;
                      same_total = total;
                      covered = subst (λ t. required ≤ℤ t) (sym met) (omega arith);
                      exact_iff = sym ((eqb_ℤ-iff (sum_entries (pos 0) q.picked) required).1 met);
                      enough =
                          omega
                            (arith, q.as_many, ltb→ge (length subset) options.min_input_count many);
                      not_over = rw q.as_many within;
                    },
                    refl,
                  ))
          ]
  ]

  pub row-Ends :
      (chosen : Option (ℤ × List ℕ))
      → IsGood chosen
      → Ends (selection_of_row entries required chosen)
  unfolding selection_of_row is_candidate
  row-Ends none g = (nothing_selected, refl, inl refl)
  row-Ends (some (sum, subset)) ((n, same, r), good) =
      let q = Reaches-ArePointed r in
      rw q.found (
        _,
        refl,
        inr (record {
          picked = q.picked;
          from_entries =
              λ test. omega (arith, q.apart test, picked_by-take test entries (length entries));
          same_ids = refl;
          same_total = same ∙ ap pos (sym q.as_much);
          covered = ground (arith, good);
          exact_iff = refl;
          enough = ground (arith, good, q.as_many);
          not_over = rw q.as_many (ground (arith, good));
        }),
      )

  module _ (fits : worth entries < two_63) (positive : Positive entries) where
    pub table-IsReached :
        (cap : ℤ)
        → All
            (IsReached entries (length entries))
            (build_min_cardinality_subset_map entries cap options.max_input_count)
    unfolding build_min_cardinality_subset_map
    table-IsReached cap =
        let whole : 0 + length entries ≡ length entries = omega arith in
        subst
          (λ n.
            All (IsReached entries n)
              (build_min_cardinality_subset_map entries cap options.max_input_count))
          whole
          (subsets_from-IsReached entries fits cap (unwrap_or options.max_input_count (two_64 - 1))
            0 entries ((pos 0, []) ∷ []) (λ j. ap (get_elem? entries) (omega arith)) positive
            ((0, refl, begin), tt))

    search-Ends : (cap : ℤ) → Ends (search_subsets entries required cap options)
    unfolding search_subsets choose_best_overshoot_subset
    search-Ends cap =
        let best = build_min_cardinality_subset_map entries cap options.max_input_count in
        let reached = table-IsReached cap in
        elim (exact-Covers best fits reached) [
          | inr (selection, e, c, _) ↦ rw e (selection, refl, inr c)
          | inl e ↦ rw e (row-Ends _ (choose_from-IsGood best none reached tt))
        ]

-- For every target and all options, a selection of coins that are together worth less than 2^63
-- returns: it selects nothing, or the ids, the total and the exactness of coins of the wallet, none
-- more often than it is there, that cover the target, as many as the options allow.
pub selection-Covers :
    (coins : List SpendableCoin) (required : ℤ) (options : TargetAmountSelectionOptions)
    → worth (positive_spendable_entries coins) < two_63
    → (selection : Selection) × (select_spendable_coins_for_target_amount_with_options coins
          required options
        ≡ returned selection)
      × ((selection ≡ nothing_selected)
          ⊎ Covers
              (positive_spendable_entries coins)
              required
              options.min_input_count
              options.max_input_count
              selection)
unfolding select_spendable_coins_for_target_amount_with_options
selection-Covers coins required options fits =
    let entries = positive_spendable_entries coins in
    let cap = target_amount_sum_cap required entries options.max_input_count in
    let P : Run Selection → Type 0 = Ends entries required options in
    let nothing : P (returned nothing_selected) = (nothing_selected, refl, inl refl) in
    if-both P (leb_ℤ required (pos 0)) nothing (
      if-both P (is_impossible options) nothing (
        if-both P (ltb (length entries) options.min_input_count) nothing
          (elim (Bool-cases (is_too_large options.max_input_count cap)) [
            | inl large ↦
                let picked =
                  greedy_target_amount_selection entries required options.min_input_count in
                rw large (
                  picked,
                  refl,
                  subst
                      (λ m.
                        (picked ≡ nothing_selected)
                        ⊎ Covers entries required options.min_input_count m picked)
                      (sym (unbounded options.max_input_count cap large))
                      (greedy-Covers entries required options.min_input_count fits
                        (positive_spendable_entries-Positive coins)),
                )
            | inr small ↦ rw small (
                search-Ends entries required options fits
                  (positive_spendable_entries-Positive coins) cap)
          ])))
