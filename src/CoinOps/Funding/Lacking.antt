-- ===== src/CoinOps/Funding/Lacking.antt =====
-- greenfloor-engine/src/coin_ops/shape/deficit.rs: the rows that lack coins.
use greenfloor.Common.{
  ℕ, zero, suc, ◌+◌, ◌<◌, ◌≡◌, refl, ap, ◌∙◌, true, false, List, [], ◌∷◌, ◌++◌, arith, map,
  replicate, unwrap_or, if◌then◌else◌, length, All, All-map, Bool-cases, inl, inr,
}
use greenfloor.Common.Int.{ℤ, pos, negsuc, pos_part, ltb_ℤ, leb_ℤ, eqb_ℤ, eqb_ℤ-iff, ◌≤ℤ◌}
use greenfloor.Common.I64.{two_63, sub_i64, add_i64, add_i64-pos}
use greenfloor.Common.Dict.{Dict, ℤ_key, lookup, insert, lookup-insert}
use greenfloor.CoinOps.Shape.{required_ladder_row_slot, contains, collect, from_required_rows}
use greenfloor.CoinOps.Shape.Counts.{occurrences, exact_ladder_coin_counts_lem}
use greenfloor.CoinOps.Funding.{
  ShapeLadderRow, ShapeDeficit, deficit_count, required_rows, shape_context_for_rows,
  collect_shape_deficits,
}
use greenfloor.CoinOps.Funding.Resolve.{sum_outputs}

-- For every deficit in turn, so many coins of its size as it lacks.
unfoldable pub expand : List ShapeDeficit → List ℤ
expand [] = []
expand (deficit ∷ deficits) =
    replicate (pos_part (deficit_count deficit)) deficit.size ++ expand deficits

-- How many coins of a size the rows ask for: the last row of the size decides.
unfoldable pub wanted : ℤ → List ShapeLadderRow → ℤ → ℤ
wanted count [] size = count
wanted count (row ∷ rows) size =
    wanted (if eqb_ℤ row.size size then add_i64 row.target_count row.split_buffer_count else count)
      rows size

-- What is found for a row in a wallet with these amounts.
abbrev pub found_for : List ShapeLadderRow → List ℤ → ShapeLadderRow → ShapeDeficit
found_for all_rows amounts row = record {
  size = row.size;
  required_count = wanted (pos 0) all_rows row.size;
  current_count = pos (occurrences row.size amounts);
}

-- The rows that ask for more coins of their size than there are, in order.
unfoldable pub lacking : List ShapeLadderRow → List ℤ → List ShapeLadderRow → List ShapeDeficit
lacking all_rows amounts [] = []
lacking all_rows amounts (row ∷ rows) =
    let deficit = found_for all_rows amounts row in
    if ltb_ℤ (pos 0) (deficit_count deficit)
    then deficit ∷ lacking all_rows amounts rows
    else lacking all_rows amounts rows

wanted_slots :
    (rows : List ShapeLadderRow) (slots : Dict ℤ ℤ) (size : ℤ)
    → unwrap_or (lookup size (collect slots (required_rows rows))) (pos 0)
      ≡ wanted (unwrap_or (lookup size slots) (pos 0)) rows size
unfolding wanted collect required_rows required_ladder_row_slot
wanted_slots [] slots size = refl
wanted_slots (row ∷ rows) slots size =
    let count = add_i64 row.target_count row.split_buffer_count in
    wanted_slots rows (insert row.size count slots) size
    ∙ ap (λ c. wanted c rows size) (ground (arith, lookup-insert size row.size count slots))

row_contained :
    (rows : List ShapeLadderRow)
    → All (λ row. contains (map (λ r. r.0) (required_rows rows)) row.size ≡ true) rows
unfolding contains required_rows required_ladder_row_slot
row_contained [] = tt
row_contained (row ∷ rows) = (
  ground (arith, eqb_ℤ-iff row.size row.size),
  All-map _ _ rows (λ r h. ground (arith, h)) (row_contained rows),
)

current_is :
    (rows : List ShapeLadderRow) (amounts : List ℤ) (size : ℤ)
    → length amounts < two_63
    → contains (map (λ r. r.0) (required_rows rows)) size ≡ true
    → unwrap_or (lookup size (shape_context_for_rows rows amounts).exact_ladder_counts) (pos 0)
      ≡ pos (occurrences size amounts)
unfolding shape_context_for_rows from_required_rows
current_is rows amounts size short listed =
    rw
      (
        exact_ladder_coin_counts_lem amounts (map (λ r. r.0) (required_rows rows)) size short,
        listed,
      )
      refl

required_is :
    (rows : List ShapeLadderRow) (amounts : List ℤ) (size : ℤ)
    → unwrap_or (lookup size (shape_context_for_rows rows amounts).protected_slots) (pos 0)
      ≡ wanted (pos 0) rows size
unfolding shape_context_for_rows from_required_rows
required_is rows amounts size = wanted_slots rows [] size

deficits_lem :
    (all_rows rows : List ShapeLadderRow) (amounts : List ℤ)
    → length amounts < two_63
    → All (λ row. contains (map (λ r. r.0) (required_rows all_rows)) row.size ≡ true) rows
    → ((collect_shape_deficits rows (shape_context_for_rows all_rows amounts)).0
        ≡ lacking all_rows amounts rows)
      × ((collect_shape_deficits rows (shape_context_for_rows all_rows amounts)).1
          ≡ expand (lacking all_rows amounts rows))
unfolding collect_shape_deficits expand deficit_count lacking
deficits_lem all_rows [] amounts short listed = (refl, refl)
deficits_lem all_rows (row ∷ rows) amounts short (here, listed) =
    let (same, outputs) = deficits_lem all_rows rows amounts short listed in
    let required = required_is all_rows amounts row.size in
    let current = current_is all_rows amounts row.size short here in
    let deficit = sub_i64 (wanted (pos 0) all_rows row.size) (pos (occurrences row.size amounts)) in
    elim (Bool-cases (ltb_ℤ (pos 0) deficit)) [
      | inl lacks ↦
          let above : leb_ℤ deficit (pos 0) ≡ false = ground (arith, lacks) in
          rw (required, current, above, lacks)
            (
              ap (λ ds. found_for all_rows amounts row ∷ ds) same,
              ap (λ xs. replicate (pos_part deficit) row.size ++ xs) outputs,
            )
      | inr enough ↦
          let below : leb_ℤ deficit (pos 0) ≡ true = ground (arith, enough) in
          rw (required, current, below, enough) (same, outputs)
    ]

-- What coins of these amounts are worth together.
unfoldable pub sum_of : List ℤ → ℕ
sum_of [] = 0
sum_of (amount ∷ amounts) = pos_part amount + sum_of amounts

abbrev pub NotNegative : ℤ → Type 0
NotNegative size = pos 0 ≤ℤ size

All-replicate :
    (n : ℕ) (size : ℤ) (rest : List ℤ)
    → NotNegative size
    → All NotNegative rest
    → All NotNegative (replicate n size ++ rest)
All-replicate zero size rest p h = h
All-replicate (suc n) size rest p h = (p, All-replicate n size rest p h)

expand-NotNegative :
    (all_rows rows : List ShapeLadderRow) (amounts : List ℤ)
    → All (λ row. NotNegative row.size) rows
    → All NotNegative (expand (lacking all_rows amounts rows))
unfolding expand lacking
expand-NotNegative all_rows [] amounts h = tt
expand-NotNegative all_rows (row ∷ rows) amounts (p, h) =
    let deficit = found_for all_rows amounts row in
    elim (Bool-cases (ltb_ℤ (pos 0) (deficit_count deficit))) [
      | inl lacks ↦ rw lacks (
          All-replicate (pos_part (deficit_count deficit)) row.size _ p
            (expand-NotNegative all_rows rows amounts h))
      | inr enough ↦ rw enough (expand-NotNegative all_rows rows amounts h)
    ]

sum_from :
    (sum : ℕ) (amounts : List ℤ)
    → All NotNegative amounts
    → sum + sum_of amounts < two_63
    → sum_outputs (pos sum) amounts ≡ pos (sum + sum_of amounts)
unfolding sum_outputs sum_of
sum_from sum [] h small = ap pos (omega arith)
sum_from sum (pos n ∷ amounts) (p, h) small =
    rw (add_i64-pos sum n (omega (arith, small)))
      (sum_from (sum + n) amounts h (omega (arith, small)) ∙ ap pos (omega arith))
sum_from sum (negsuc n ∷ amounts) (p, h) small = absurd (ground (arith, p))

-- The coins that the rows lack are added up without overflow.
pub sum_lacking :
    (rows : List ShapeLadderRow) (amounts : List ℤ)
    → All (λ row. NotNegative row.size) rows
    → sum_of (expand (lacking rows amounts rows)) < two_63
    → sum_outputs (pos 0) (expand (lacking rows amounts rows))
      ≡ pos (sum_of (expand (lacking rows amounts rows)))
sum_lacking rows amounts h small =
    sum_from 0 _ (expand-NotNegative rows rows amounts h) (omega (arith, small))
    ∙ ap pos (omega arith)

-- The deficits that are collected are the rows that lack coins, with the coins that they lack.
pub collected :
    (rows : List ShapeLadderRow) (amounts : List ℤ)
    → length amounts < two_63
    → let found = collect_shape_deficits rows (shape_context_for_rows rows amounts) in
      (found.0 ≡ lacking rows amounts rows) × (found.1 ≡ expand (lacking rows amounts rows))
collected rows amounts short = deficits_lem rows rows amounts short (row_contained rows)
