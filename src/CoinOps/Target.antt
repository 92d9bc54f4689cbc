-- ===== src/CoinOps/Target.antt =====
-- greenfloor-engine/src/coin_ops/selection.rs: coins that cover a target amount, by a table of the
-- sums of subsets, or by the largest coins when the amounts are too large for a table.
pub mod Subsets
pub mod Table
pub mod Pointed
pub mod Greedy
pub mod Sound
mod Choice
pub mod Least
use greenfloor.Common.{
  ℕ, suc, Bool, true, false, ◌&&◌, ◌||◌, not, List, [], ◌∷◌, ◌++◌, ◌-◌, Option, none, some, ltb,
  leb, ◌==◌, if◌then◌else◌, keep, map, is_empty, length, get_elem?, unwrap_or,
}
use greenfloor.Common.Int.{ℤ, pos, leb_ℤ, ltb_ℤ, eqb_ℤ, max_ℤ}
use greenfloor.Common.I64.{
  two_63, two_64, max_i64, add_i64, sub_i64, saturating_add, saturating_mul,
}
use greenfloor.Common.Run.{Run, panicked, returned, ◌>>=◌, in_range, Sorted, get, put}
use greenfloor.Common.Str.{Str}
use greenfloor.CoinOps.Coin.{SpendableCoin}

pub data TargetAmountOvershootRank : Type 0 where
  min_overshoot : TargetAmountOvershootRank
  fewest_inputs : TargetAmountOvershootRank

pub record TargetAmountSelectionOptions : Type 0 where
  pub max_input_count : Option ℕ
  pub min_input_count : ℕ
  pub overshoot_rank : TargetAmountOvershootRank

abbrev pub default_options : TargetAmountSelectionOptions
default_options = record {
  max_input_count = none;
  min_input_count = 1;
  overshoot_rank = min_overshoot;
}

abbrev pub combine_multi_coin : TargetAmountSelectionOptions
combine_multi_coin = record {
  max_input_count = none;
  min_input_count = 2;
  overshoot_rank = min_overshoot;
}

abbrev pub combine_cap : ℕ → TargetAmountSelectionOptions
combine_cap cap = record {
  max_input_count = some cap;
  min_input_count = 2;
  overshoot_rank = fewest_inputs;
}

-- A coin's id and amount.
abbrev pub Entry : Type 0
Entry = Str × ℤ

-- The ids, their total, and whether it is the target exactly.
pub record Selection : Type 0 where
  pub ids : List Str
  pub total : ℤ
  pub exact : Bool

abbrev pub nothing_selected : Selection
nothing_selected = record { ids = []; total = pos 0; exact = false }

unfoldable pub is_positive : SpendableCoin → Bool
is_positive coin = not (is_empty coin.id) && ltb_ℤ (pos 0) coin.amount

unfoldable pub positive_spendable_entries : List SpendableCoin → List Entry
unfolding is_positive
positive_spendable_entries coins = map (λ coin. (coin.id, coin.amount)) (keep is_positive coins)

-- `max().unwrap_or(0)`, on amounts above 0.
unfoldable pub max_amount : List Entry → ℤ
max_amount [] = pos 0
max_amount ((_, amount) ∷ entries) = max_ℤ amount (max_amount entries)

-- `i64::try_from(max).unwrap_or(i64::MAX)`.
unfoldable pub count_i64 : ℕ → ℤ
count_i64 count = if ltb count two_63 then pos count else max_i64

unfoldable pub target_amount_sum_cap : ℤ → List Entry → Option ℕ → ℤ
unfolding max_amount count_i64
target_amount_sum_cap required entries none = add_i64 required (max_amount entries)
target_amount_sum_cap required entries (some max) =
    saturating_add required (saturating_mul (max_amount entries) (count_i64 max))

-- `sort_by_key(|(_, amount)| Reverse(*amount))`, which is stable.
unfoldable pub place_entry : Entry → List Entry → List Entry
place_entry entry [] = entry ∷ []
place_entry (id, amount) ((other, next) ∷ entries) =
    let later = place_entry (id, amount) entries in
    if leb_ℤ next amount then (id, amount) ∷ (other, next) ∷ entries else (other, next) ∷ later

unfoldable pub largest_first : List Entry → List Entry
unfolding place_entry
largest_first [] = []
largest_first (entry ∷ entries) = place_entry entry (largest_first entries)

-- The loop, with the ids picked so far and their total.
unfoldable pub greedy_from : ℤ → ℕ → List Str → ℤ → List Entry → Selection
greedy_from required min_input_count picked_ids running [] = nothing_selected
greedy_from required min_input_count picked_ids running ((coin_id, amount) ∷ entries) =
    let picked = picked_ids ++ (coin_id ∷ []) in
    let total = add_i64 running amount in
    let rest = greedy_from required min_input_count picked total entries in
    if leb_ℤ required total && leb min_input_count (length picked)
    then record { ids = picked; total = total; exact = eqb_ℤ total required }
    else rest

unfoldable pub greedy_target_amount_selection : List Entry → ℤ → ℕ → Selection
unfolding largest_first greedy_from
greedy_target_amount_selection entries required min_input_count =
    greedy_from required min_input_count [] (pos 0) (largest_first entries)

-- The indices of a subset under its sum.
abbrev pub SubsetMap : Type 0
SubsetMap = Sorted (List ℕ)

-- `is_none_or(|existing| candidate.len() < existing.len())`.
unfoldable pub is_shorter : Option (List ℕ) → List ℕ → Bool
is_shorter none candidate = true
is_shorter (some existing) candidate = ltb (length candidate) (length existing)

-- The body of the inner loop, for one row of the snapshot.
unfoldable pub extend_row : ℕ → ℤ → ℤ → ℕ → ℤ × List ℕ → SubsetMap → SubsetMap
unfolding is_shorter
extend_row idx amount sum_cap max_subset_len (prev_sum, subset) best =
    let next_sum = add_i64 prev_sum amount in
    let candidate = subset ++ (idx ∷ []) in
    if leb max_subset_len (length subset)
    then best
    else if ltb_ℤ sum_cap next_sum
    then best
    else if is_shorter (get next_sum best) candidate
    then put next_sum candidate best
    else best

unfoldable pub extend_rows : ℕ → ℤ → ℤ → ℕ → SubsetMap → SubsetMap → SubsetMap
unfolding extend_row
extend_rows idx amount sum_cap max_subset_len [] best = best
extend_rows idx amount sum_cap max_subset_len (row ∷ snapshot) best =
    extend_rows idx amount sum_cap max_subset_len snapshot
      (extend_row idx amount sum_cap max_subset_len row best)

-- The outer loop, from the index `idx` on.
unfoldable pub subsets_from : ℕ → List Entry → ℤ → ℕ → SubsetMap → SubsetMap
unfolding extend_rows
subsets_from idx [] sum_cap max_subset_len best = best
subsets_from idx ((_, amount) ∷ entries) sum_cap max_subset_len best =
    subsets_from (suc idx) entries sum_cap max_subset_len
      (extend_rows idx amount sum_cap max_subset_len best best)

unfoldable pub build_min_cardinality_subset_map : List Entry → ℤ → Option ℕ → SubsetMap
unfolding subsets_from
build_min_cardinality_subset_map entries sum_cap max_input_count =
    subsets_from 0 entries sum_cap (unwrap_or max_input_count (two_64 - 1)) ((pos 0, []) ∷ [])

-- The entries of a subset.
unfoldable pub entries_at : List Entry → List ℕ → Run (List Entry)
entries_at entries [] = returned []
entries_at entries (i ∷ subset) = do
  entry ← in_range (get_elem? entries i)
  rest ← entries_at entries subset
  returned (entry ∷ rest)

-- `sum()` from the left.
unfoldable pub sum_entries : ℤ → List Entry → ℤ
sum_entries sum [] = sum
sum_entries sum ((_, amount) ∷ entries) = sum_entries (add_i64 sum amount) entries

-- `max_input_count.is_some_and(|max| count > max)`.
unfoldable pub is_over : Option ℕ → ℕ → Bool
is_over none count = false
is_over (some max) count = ltb max count

abbrev pub entry_id : Entry → Str
entry_id (id, _) = id

unfoldable pub exact_target_amount_subset :
    SubsetMap → List Entry → ℤ → ℕ → Option ℕ → Run (Option Selection)
unfolding entries_at sum_entries is_over
exact_target_amount_subset best entries required min_input_count max_input_count =
    elim (get required best) [
      | none ↦ returned none
      | some exact_subset ↦
          if ltb (length exact_subset) min_input_count
            || is_over max_input_count (length exact_subset)
          then returned none
          else do
            picked ← entries_at entries exact_subset
            returned (
                some (record {
                  ids = map entry_id picked;
                  total = sum_entries (pos 0) picked;
                  exact = true;
                }))
    ]

-- `<` on triples.
unfoldable pub precedes : ℤ × ℤ × ℤ → ℤ × ℤ × ℤ → Bool
precedes (a, b, c) (x, y, z) = ltb_ℤ a x || (eqb_ℤ a x && (ltb_ℤ b y || (eqb_ℤ b y && ltb_ℤ c z)))

unfoldable pub overshoot_subset_better :
    ℤ → List ℕ → ℤ → List ℕ → ℤ → TargetAmountOvershootRank → Bool
unfolding precedes
overshoot_subset_better candidate_sum candidate_subset best_sum best_subset required fewest_inputs =
    precedes (pos (length candidate_subset), sub_i64 candidate_sum required, candidate_sum)
      (pos (length best_subset), sub_i64 best_sum required, best_sum)
overshoot_subset_better candidate_sum candidate_subset best_sum best_subset required min_overshoot =
    precedes (sub_i64 candidate_sum required, pos (length candidate_subset), candidate_sum)
      (sub_i64 best_sum required, pos (length best_subset), best_sum)

-- The guards of the loop of `choose_best_overshoot_subset`.
unfoldable pub is_candidate : ℤ → ℕ → Option ℕ → ℤ × List ℕ → Bool
unfolding is_over
is_candidate required min_input_count max_input_count (sum, subset) =
    not (ltb_ℤ sum required || ltb (length subset) min_input_count)
    && not (is_over max_input_count (length subset))

unfoldable pub beats_chosen :
    ℤ → TargetAmountOvershootRank → ℤ × List ℕ → Option (ℤ × List ℕ) → Bool
unfolding overshoot_subset_better
beats_chosen required overshoot_rank (sum, subset) none = true
beats_chosen required overshoot_rank (sum, subset) (some (best_sum, best_subset)) =
    overshoot_subset_better sum subset best_sum best_subset required overshoot_rank

-- The loop, with the row chosen so far.
unfoldable pub choose_from :
    ℤ
    → ℕ
    → Option ℕ
    → TargetAmountOvershootRank
    → Option (ℤ × List ℕ)
    → SubsetMap
    → Option (ℤ × List ℕ)
unfolding is_candidate beats_chosen
choose_from required min_input_count max_input_count overshoot_rank chosen [] = chosen
choose_from required min_input_count max_input_count overshoot_rank chosen (row ∷ best) =
    choose_from required min_input_count max_input_count overshoot_rank
      (if is_candidate required min_input_count max_input_count row
          && beats_chosen required overshoot_rank row chosen
        then some row
        else chosen)
      best

unfoldable pub selection_of_row : List Entry → ℤ → Option (ℤ × List ℕ) → Run Selection
unfolding entries_at
selection_of_row entries required none = returned nothing_selected
selection_of_row entries required (some (sum, subset)) = do
  picked ← entries_at entries subset
  returned (record { ids = map entry_id picked; total = sum; exact = eqb_ℤ sum required })

unfoldable pub choose_best_overshoot_subset :
    SubsetMap → List Entry → ℤ → ℕ → Option ℕ → TargetAmountOvershootRank → Run Selection
unfolding choose_from selection_of_row
choose_best_overshoot_subset best entries required min_input_count max_input_count overshoot_rank =
    selection_of_row entries required
      (choose_from required min_input_count max_input_count overshoot_rank none best)

-- The search through the table.
unfoldable pub search_subsets : List Entry → ℤ → ℤ → TargetAmountSelectionOptions → Run Selection
unfolding build_min_cardinality_subset_map exact_target_amount_subset choose_best_overshoot_subset
search_subsets entries required sum_cap options =
    let best = build_min_cardinality_subset_map entries sum_cap options.max_input_count in
    exact_target_amount_subset best entries required options.min_input_count options.max_input_count
    >>= λ exact. elim exact [
      | some selection ↦ returned selection
      | none ↦
          choose_best_overshoot_subset best entries required options.min_input_count
            options.max_input_count options.overshoot_rank
    ]

-- The options that select nothing.
unfoldable pub is_impossible : TargetAmountSelectionOptions → Bool
is_impossible options =
    (options.min_input_count == 0)
    || elim options.max_input_count [ none ↦ false | some max ↦ ltb max options.min_input_count ]

-- Without a bound on the inputs, large amounts make the table too large.
unfoldable pub is_too_large : Option ℕ → ℤ → Bool
is_too_large none sum_cap = ltb_ℤ (pos 500000) sum_cap
is_too_large (some max) sum_cap = false

unfoldable pub select_spendable_coins_for_target_amount_with_options :
    List SpendableCoin → ℤ → TargetAmountSelectionOptions → Run Selection
unfolding positive_spendable_entries target_amount_sum_cap greedy_target_amount_selection
    is_too_large is_impossible search_subsets
select_spendable_coins_for_target_amount_with_options coins required options =
    let entries = positive_spendable_entries coins in
    let sum_cap = target_amount_sum_cap required entries options.max_input_count in
    if leb_ℤ required (pos 0)
    then returned nothing_selected
    else if is_impossible options
    then returned nothing_selected
    else if ltb (length entries) options.min_input_count
    then returned nothing_selected
    else if is_too_large options.max_input_count sum_cap
    then returned (greedy_target_amount_selection entries required options.min_input_count)
    else search_subsets entries required sum_cap options

unfoldable pub select_spendable_coins_for_target_amount : List SpendableCoin → ℤ → Run Selection
unfolding select_spendable_coins_for_target_amount_with_options
select_spendable_coins_for_target_amount coins target_amount =
    select_spendable_coins_for_target_amount_with_options coins target_amount default_options
