-- ===== src/CoinOps/Target/Greedy.antt =====
-- greenfloor-engine/src/coin_ops/selection.rs: the greedy selection covers the target.
use greenfloor.Common.{
  ℕ, suc, ◌+◌, ◌<◌, ◌≡◌, refl, ap, ◌∙◌, sym, Bool, ◌&&◌, List, [], ◌∷◌, ◌++◌, none, arith, leb,
  if◌then◌else◌, if-both, length, Bool-cases, ◌⊎◌, inl, inr, length-map, map,
}
use greenfloor.Common.Int.{ℤ, pos, pos_part, leb_ℤ, eqb_ℤ}
use greenfloor.Common.I64.{two_63, add_i64, add_i64-pos}
use greenfloor.Common.Str.{Str}
use greenfloor.CoinOps.Target.{
  Entry, Selection, nothing_selected, entry_id, place_entry, largest_first, greedy_from,
  greedy_target_amount_selection, is_over,
}
use greenfloor.CoinOps.Target.Subsets.{worth, Positive}
use greenfloor.CoinOps.Target.Pointed.{picked_by, ArePicked, Covers, picked_by-append, worth-append}

-- The same entries in another order.
record SameEntries (xs ys : List Entry) : Type 0 where
  same_worth : worth xs ≡ worth ys
  same_count : (q : Entry → Bool) → picked_by q xs ≡ picked_by q ys
  positive : Positive ys → Positive xs

place_entry-SameEntries :
    (entry : Entry) (entries : List Entry)
    → SameEntries (place_entry entry entries) (entry ∷ entries)
unfolding place_entry worth picked_by
place_entry-SameEntries entry [] = record {
  same_worth = refl;
  same_count = λ q. refl;
  positive = λ p. p;
}
place_entry-SameEntries (id, amount) ((other, next) ∷ entries) =
    let later = place_entry-SameEntries (id, amount) entries in
    if-both (λ xs. SameEntries xs ((id, amount) ∷ (other, next) ∷ entries)) (leb_ℤ next amount)
      (record { same_worth = refl; same_count = λ q. refl; positive = λ p. p })
      (record {
        same_worth = omega (arith, later.same_worth);
        same_count = λ q. omega (arith, later.same_count q);
        positive = λ (a, (b, p)). (b, later.positive (a, p));
      })

largest_first-SameEntries : (entries : List Entry) → SameEntries (largest_first entries) entries
unfolding largest_first worth picked_by
largest_first-SameEntries [] = record {
  same_worth = refl;
  same_count = λ q. refl;
  positive = λ p. p;
}
largest_first-SameEntries ((id, amount) ∷ entries) =
    let rest = largest_first-SameEntries entries in
    let top = place_entry-SameEntries (id, amount) (largest_first entries) in
    record {
      same_worth = omega (arith, top.same_worth, rest.same_worth);
      same_count = λ q. omega (arith, top.same_count q, rest.same_count q);
      positive = λ (a, p). top.positive (a, rest.positive p);
    }

map_last :
    (done : List Entry) (entry : Entry)
    → map entry_id done ++ (entry_id entry ∷ []) ≡ map entry_id (done ++ (entry ∷ []))
map_last [] entry = refl
map_last (x ∷ xs) entry = ap (λ ys. entry_id x ∷ ys) (map_last xs entry)

module _ (entries : List Entry) (required : ℤ) (min_count : ℕ) (fits : worth entries < two_63) where
  -- Nothing, or entries that cover the target.
  abbrev Outcome : Selection → Type 0
  Outcome selection =
      (selection ≡ nothing_selected) ⊎ Covers entries required min_count none selection

  -- One round of the loop, from the entries picked so far with the new one.
  round-Outcome :
      (done : List Entry) (ids : List Str) (total : ℤ) (rest : Selection)
      → ids ≡ map entry_id done
      → total ≡ pos (worth done)
      → ArePicked entries done
      → Outcome rest
      → Outcome (
          if leb_ℤ required total && leb min_count (length ids)
          then record { ids = ids; total = total; exact = eqb_ℤ total required }
          else rest)
  unfolding is_over
  round-Outcome done ids total rest e d from later =
      elim (Bool-cases (leb_ℤ required total && leb min_count (length ids))) [
        | inr short ↦ rw short later
        | inl reached ↦
            let counted : length ids ≡ length done = ap length e ∙ length-map done entry_id in
            rw reached (
              inr (record {
                picked = done;
                from_entries = from;
                same_ids = e;
                same_total = d;
                covered = ground (arith, reached);
                exact_iff = refl;
                enough = ground (arith, reached, counted);
                not_over = refl;
              }))
      ]

  greedy_from-Covers :
      (done rest : List Entry)
      → worth done + worth rest ≡ worth entries
      → ((q : Entry → Bool) → picked_by q done + picked_by q rest ≡ picked_by q entries)
      → Positive rest
      → Outcome (greedy_from required min_count (map entry_id done) (pos (worth done)) rest)
  unfolding greedy_from worth picked_by
  greedy_from-Covers done [] w k p = inl refl
  greedy_from-Covers done ((id, amount) ∷ rest) w k ((a, e), p) =
      let entry : Entry = (id, amount) in
      let more : worth (done ++ (entry ∷ [])) ≡ worth done + suc a =
        rw e (omega (arith, worth-append done ((id, pos (suc a)) ∷ []))) in
      let ids : map entry_id done ++ (id ∷ []) ≡ map entry_id (done ++ (entry ∷ [])) =
        map_last done entry in
      let total : add_i64 (pos (worth done)) amount ≡ pos (worth (done ++ (entry ∷ []))) =
        ap (add_i64 (pos (worth done))) e
        ∙ add_i64-pos (worth done) (suc a) (omega (arith, w, ap pos_part e, fits))
        ∙ ap pos (sym more) in
      round-Outcome (done ++ (entry ∷ [])) _ _ _ ids total
        (λ q. omega (arith, k q, picked_by-append q done (entry ∷ [])))
        (rw (ids, total)
          (greedy_from-Covers (done ++ (entry ∷ [])) rest (omega (arith, w, more, ap pos_part e))
            (λ q. omega (arith, k q, picked_by-append q done (entry ∷ []))) p))

  pub greedy-Covers :
      Positive entries
      → let selection = greedy_target_amount_selection entries required min_count in
        (selection ≡ nothing_selected) ⊎ Covers entries required min_count none selection
  unfolding greedy_target_amount_selection worth picked_by
  greedy-Covers p =
      let sorted = largest_first-SameEntries entries in
      greedy_from-Covers [] (largest_first entries) (omega (arith, sorted.same_worth))
        (λ q. omega (arith, sorted.same_count q)) (sorted.positive p)
