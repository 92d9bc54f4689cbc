-- ===== src/CoinOps/Funding/Inputs.antt =====
-- greenfloor-engine/src/coin_ops/shape/combine.rs: what a combine takes as its inputs.
use greenfloor.Common.{
  ◌⊎◌, ℕ, ◌≤◌, ◌<◌, ◌≡◌, refl, ap, ◌∙◌, subst, true, false, ◌&&◌, not, List, Option, none, some,
  arith, ltb, ◌==◌, if◌then◌else◌, if-both, length, length-map, is_empty, Bool-cases, inl, inr,
  ltb→ge,
}
use greenfloor.Common.Int.{ℤ, pos, leb_ℤ}
use greenfloor.Common.I64.{two_63}
use greenfloor.Common.Str.{Str}
use greenfloor.Common.Run.{Run, returned, Returns, Returns-bind}
use greenfloor.CoinOps.Coin.{SpendableCoin}
use greenfloor.CoinOps.Target.{
  Entry, Selection, nothing_selected, default_options, combine_multi_coin, combine_cap, is_over,
  positive_spendable_entries, TargetAmountSelectionOptions, entry_id,
  select_spendable_coins_for_target_amount_with_options,
}
use greenfloor.CoinOps.Target.Subsets.{worth}
use greenfloor.CoinOps.Target.Pointed.{Covers}
use greenfloor.CoinOps.Target.Sound.{selection-Covers}
use greenfloor.CoinOps.Funding.{ShapeCoin, CombineInputs}
use greenfloor.CoinOps.Funding.Combine.{
  CombineDustContext, metric_non_negative_usize, combine_candidates, leaves_dust, at_least_two,
  multi_coin, unconstrained, inputs_of, within_cap, capped_inputs,
  plan_combine_inputs_for_target_in_with_dust,
}

-- Other bounds on the count, which the ids keep too.
Covers-count :
    {entries : List Entry} {required : ℤ} {min_count : ℕ} {max_count : Option ℕ}
    {selection : Selection} (fewest : ℕ) (most : Option ℕ)
    → Covers entries required min_count max_count selection
    → fewest ≤ length selection.ids
    → is_over most (length selection.ids) ≡ false
    → Covers entries required fewest most selection
Covers-count {selection = selection} fewest most c low high =
    let counted : length selection.ids ≡ length c.picked =
      ap length c.same_ids ∙ length-map c.picked entry_id in
    record {
      picked = c.picked;
      from_entries = c.from_entries;
      same_ids = c.same_ids;
      same_total = c.same_total;
      covered = c.covered;
      exact_iff = c.exact_iff;
      enough = omega (arith, low, counted);
      not_over = subst (λ n. is_over most n ≡ false) counted high;
    }

pub count_ids :
    {entries : List Entry} {required : ℤ} {min_count : ℕ} {max_count : Option ℕ}
    {selection : Selection}
    → Covers entries required min_count max_count selection
    → min_count ≤ length selection.ids
count_ids {selection = selection} c =
    omega (arith, ap length c.same_ids ∙ length-map c.picked entry_id, c.enough)

-- The selection that the inputs stand for.
abbrev pub chosen_by : CombineInputs → Selection
chosen_by inputs = record {
  ids = inputs.input_coin_ids;
  total = inputs.selected_total;
  exact = inputs.exact_match;
}

module _ (spendable : List SpendableCoin) (target : ℤ)
    (fits : worth (positive_spendable_entries spendable) < two_63) where
  abbrev SelectsTwo : Option Selection → Type 0
  SelectsTwo none = Unit
  SelectsTwo (some selection) =
      Covers (positive_spendable_entries spendable) target 2 none selection

  -- At least two coins and no more than the cap, which cover the target.
  abbrev pub Combines : ℤ → Option CombineInputs → Type 0
  Combines cap none = Unit
  Combines cap (some inputs) =
      (inputs.target_amount ≡ target)
      × Covers (positive_spendable_entries spendable) target 2
          (some (metric_non_negative_usize cap)) (chosen_by inputs)

  Outcome : TargetAmountSelectionOptions → Selection → Type 0
  Outcome options selection =
      (selection ≡ nothing_selected)
      ⊎ Covers (positive_spendable_entries spendable) target options.min_input_count
          options.max_input_count selection

  selects :
      (options : TargetAmountSelectionOptions)
      → Returns
          (Outcome options)
          (select_spendable_coins_for_target_amount_with_options spendable target options)
  unfolding Outcome
  selects options =
      let (selection, e, c) = selection-Covers spendable target options fits in
      record { value = selection; returns = e; holds = c }

  two :
      (options : TargetAmountSelectionOptions) (selection : Selection)
      → Outcome options selection
      → ltb (length selection.ids) 2 ≡ false
      → Covers (positive_spendable_entries spendable) target 2 none selection
  unfolding Outcome is_over
  two options selection (inl e) many = absurd (ground (arith, ap (λ s. length s.ids) e, many))
  two options selection (inr c) many =
      Covers-count 2 none c (ltb→ge (length selection.ids) 2 many) refl

  at_least_two-SelectsTwo :
      (options : TargetAmountSelectionOptions) (selection : Selection)
      → Outcome options selection
      → SelectsTwo (at_least_two selection)
  unfolding at_least_two
  at_least_two-SelectsTwo options selection o = elim (Bool-cases (ltb (length selection.ids) 2)) [
    | inl few ↦ rw few tt
    | inr many ↦ rw many (two options selection o many)
  ]

  unconstrained-SelectsTwo :
      (dust : Option CombineDustContext) → Returns SelectsTwo (unconstrained spendable target dust)
  unfolding unconstrained multi_coin
  unconstrained-SelectsTwo dust =
      Returns-bind (Outcome default_options) SelectsTwo (selects default_options) λ first o.
        elim (Bool-cases (ltb (length first.ids) 2)) [
          | inr many ↦ rw many (record {
            value = some first;
            returns = refl;
            holds = two default_options first o many;
          })
          | inl few ↦ rw few (
              if-both (Returns SelectsTwo)
                (not ((length first.ids == 1) && leaves_dust dust first.total target))
                (record { value = none; returns = refl; holds = tt })
                (Returns-bind (Outcome combine_multi_coin) SelectsTwo (selects combine_multi_coin)
                  λ second p. record {
                    value = at_least_two second;
                    returns = refl;
                    holds = at_least_two-SelectsTwo combine_multi_coin second p;
                  }))
        ]

  capped-Combines :
      (cap : ℤ) (count : ℕ) (capped : Selection)
      → Outcome (combine_cap (metric_non_negative_usize cap)) capped
      → Combines cap
          (if is_empty capped.ids then none else some (inputs_of target cap count true capped))
  unfolding Outcome
  capped-Combines cap count capped (inl e) = rw e tt
  capped-Combines cap count capped (inr c) =
      if-both (Combines cap) (is_empty capped.ids) tt (refl, c)

  within_cap-Combines :
      (cap : ℤ) (selection : Selection)
      → SelectsTwo (some selection)
      → Returns (Combines cap) (within_cap spendable target cap selection)
  unfolding within_cap is_over
  within_cap-Combines cap selection c =
      let most = metric_non_negative_usize cap in
      elim (Bool-cases (ltb most (length selection.ids))) [
        | inl over ↦ rw over (
            Returns-bind (Outcome (combine_cap most)) (Combines cap) (selects (combine_cap most))
              λ capped o. record {
                value =
                    if is_empty capped.ids
                    then none
                    else some (inputs_of target cap (length selection.ids) true capped);
                returns = refl;
                holds = capped-Combines cap (length selection.ids) capped o;
              })
        | inr few ↦ rw few (record {
          value = some (inputs_of target cap (length selection.ids) false selection);
          returns = refl;
          holds = (refl, Covers-count 2 (some most) c (count_ids c) few);
        })
      ]

  capped_inputs-Combines :
      (cap : ℤ) (found : Option Selection)
      → SelectsTwo found
      → Returns (Combines cap) (capped_inputs spendable target cap found)
  unfolding capped_inputs
  capped_inputs-Combines cap none c = record { value = none; returns = refl; holds = tt }
  capped_inputs-Combines cap (some selection) c = within_cap-Combines cap selection c

  -- A combine plan returns, with nothing or with at least two coins that cover the target.
  pub plan_combine-Combines :
      (coins : List ShapeCoin) (cap : ℤ) (allowed : Option (List Str))
      (dust : Option CombineDustContext)
      → combine_candidates allowed coins ≡ spendable
      → Returns
          (Combines cap)
          (plan_combine_inputs_for_target_in_with_dust coins target cap allowed dust)
  unfolding plan_combine_inputs_for_target_in_with_dust
  plan_combine-Combines coins cap allowed dust same =
      let P : Run (Option CombineInputs) → Type 0 = Returns (Combines cap) in
      let nothing : P (returned none) = record { value = none; returns = refl; holds = tt } in
      rw same (
        if-both P (leb_ℤ target (pos 0)) nothing (
          if-both P (ltb (metric_non_negative_usize cap) 2) nothing (
            Returns-bind SelectsTwo (Combines cap) (unconstrained-SelectsTwo dust)
              (capped_inputs-Combines cap))))
