-- ===== src/CoinOps/Target/Table.antt =====
-- greenfloor-engine/src/coin_ops/selection.rs: one entry added to the table of subset sums.
use greenfloor.Common.{
  ℕ, suc, ◌+◌, ◌≤◌, ◌<◌, ◌≡◌, ap, ◌∙◌, sym, subst, false, List, [], ◌∷◌, ◌++◌, some, arith, ltb,
  leb, if◌then◌else◌, if-both, ltb→lt, ltb→ge, length, get_elem?, All, All-map, Bool-cases,
  Option-cases, inl, inr, length-append,
}
use greenfloor.Common.Int.{ℤ, pos, ltb_ℤ, eqb_ℤ, eqb_ℤ-iff}
use greenfloor.Common.I64.{two_63, add_i64, add_i64-pos}
use mathlib.Core.Option.{some-injective}
use greenfloor.Common.Run.{get, put, get-put_self, get-put_other, All-put}
use greenfloor.Common.Str.{Str}
use greenfloor.CoinOps.Target.{Entry, SubsetMap, is_shorter, extend_row, extend_rows, subsets_from}
use greenfloor.CoinOps.Target.Subsets.{worth, Positive, Reaches, leave, pick, Reaches-le}

-- The table holds the sum, for at most `count` entries.
abbrev pub Within : SubsetMap → ℕ → ℕ → Type 0
Within best sum count =
    (subset : List ℕ) × (get (pos sum) best ≡ some subset) × (length subset ≤ count)

-- A better row for one sum loses no other.
put_shorter :
    (best : SubsetMap) (next : ℤ) (candidate : List ℕ) (sum count : ℕ)
    → Within best sum count
    → Within
        (if is_shorter (get next best) candidate then put next candidate best else best)
        sum
        count
unfolding is_shorter
put_shorter best next candidate sum count (subset, e, le) =
    elim (Bool-cases (eqb_ℤ next (pos sum))) [
      | inl same ↦ elim (Bool-cases (ltb (length candidate) (length subset))) [
        | inl less ↦
            rw ((eqb_ℤ-iff next (pos sum)).0 same, e, less)
              (candidate, get-put_self (pos sum) candidate best, omega (arith, le, ltb→lt _ _ less))
        | inr more ↦ rw ((eqb_ℤ-iff next (pos sum)).0 same, e, more) (subset, e, le)
      ]
      | inr other ↦
          if-both Held (is_shorter (get next best) candidate)
            (subset, get-put_other (pos sum) next candidate best other ∙ e, le) (subset, e, le)
    ]
  where
    Held : SubsetMap → Type 0
    Held m = Within m sum count

-- The better row is in the table.
put_wanted :
    (best : SubsetMap) (sum : ℕ) (candidate : List ℕ) (count : ℕ)
    → length candidate ≤ count
    → Within
        (if is_shorter (get (pos sum) best) candidate then put (pos sum) candidate best else best)
        sum
        count
unfolding is_shorter
put_wanted best sum candidate count le = elim (Option-cases (get (pos sum) best)) [
  | inl missing ↦ rw missing added
  | inr (existing, e) ↦ elim (Bool-cases (ltb (length candidate) (length existing))) [
    | inl less ↦ rw (e, less) added
    | inr more ↦ rw (e, more) (existing, e, omega (arith, ltb→ge _ _ more, le))
  ]
]
  where
    added : Within (put (pos sum) candidate best) sum count
    added = (candidate, get-put_self (pos sum) candidate best, le)

Within-le :
    (best : SubsetMap) (sum : ℕ) {count more : ℕ}
    → Within best sum count
    → count ≤ more
    → Within best sum more
Within-le best sum (subset, e, le) more = (subset, e, omega (arith, le, more))

ltb_below : (cap : ℤ) (n a : ℕ) → ltb_ℤ cap (pos (n + a)) ≡ false → ltb_ℤ cap (pos n) ≡ false
ltb_below cap n a h = ground arith

same_amount :
    {id id' : Str} {a b : ℕ} → ◌≡◌ {A = Entry} (id, pos (suc b)) (id', pos (suc a)) → b ≡ a
same_amount h = ground (arith, h)

module _ (entries : List Entry) where
  -- A row of the table, with the indices below `idx`.
  abbrev pub IsReached : ℕ → ℤ × List ℕ → Type 0
  IsReached idx (s, subset) = (sum : ℕ) × (s ≡ pos sum) × Reaches entries idx subset sum

  module _ (fits : worth entries < two_63) (cap : ℤ) (bound : ℕ) where
    IsReached-leave :
        (idx : ℕ) (m : SubsetMap) → All (IsReached idx) m → All (IsReached (suc idx)) m
    IsReached-leave idx m h = All-map _ _ m (λ (s, subset) (sum, e, r). (sum, e, leave r)) h

    module _ (idx : ℕ) (id : Str) (a : ℕ)
        (here : get_elem? entries idx ≡ some (id, pos (suc a))) where
      -- The new sum does not wrap.
      add-Reaches :
          {subset : List ℕ} {sum : ℕ}
          → Reaches entries idx subset sum
          → add_i64 (pos sum) (pos (suc a)) ≡ pos (sum + suc a)
      add-Reaches r = add_i64-pos _ _ (omega (arith, fits, Reaches-le (pick id a here r)))

      extend_row-either :
          (P : SubsetMap → Type 0) (s : ℤ) (subset : List ℕ) (best : SubsetMap)
          → P best
          → P (
              if is_shorter (get (add_i64 s (pos (suc a))) best) (subset ++ (idx ∷ []))
              then put (add_i64 s (pos (suc a))) (subset ++ (idx ∷ [])) best
              else best)
          → P (extend_row idx (pos (suc a)) cap bound (s, subset) best)
      unfolding extend_row
      extend_row-either P s subset best old new =
          if-both P (leb bound (length subset)) old
            (if-both P (ltb_ℤ cap (add_i64 s (pos (suc a)))) old new)

      extend_row-IsReached :
          (row : ℤ × List ℕ) (best : SubsetMap)
          → IsReached idx row
          → All (IsReached (suc idx)) best
          → All (IsReached (suc idx)) (extend_row idx (pos (suc a)) cap bound row best)
      extend_row-IsReached (s, subset) best (sum, e, r) h =
          let next : IsReached (suc idx) (add_i64 s (pos (suc a)), subset ++ (idx ∷ [])) =
            (sum + suc a, ap (λ x. add_i64 x (pos (suc a))) e ∙ add-Reaches r, pick id a here r) in
          extend_row-either (All (IsReached (suc idx))) s subset best h (
            if-both (All (IsReached (suc idx)))
              (is_shorter (get (add_i64 s (pos (suc a))) best) (subset ++ (idx ∷ [])))
              (All-put _ _ _ best next h) h)

      extend_rows-IsReached :
          (snapshot best : SubsetMap)
          → All (IsReached idx) snapshot
          → All (IsReached (suc idx)) best
          → All (IsReached (suc idx)) (extend_rows idx (pos (suc a)) cap bound snapshot best)
      unfolding extend_rows
      extend_rows-IsReached [] best g h = h
      extend_rows-IsReached (row ∷ snapshot) best (r, g) h =
          extend_rows-IsReached snapshot _ g (extend_row-IsReached row best r h)

      extend_row-keeps :
          (row : ℤ × List ℕ) (best : SubsetMap) (s n : ℕ)
          → Within best s n
          → Within (extend_row idx (pos (suc a)) cap bound row best) s n
      extend_row-keeps (t, subset) best s n w =
          extend_row-either (λ m. Within m s n) t subset best w
            (put_shorter best (add_i64 t (pos (suc a))) (subset ++ (idx ∷ [])) s n w)

      extend_rows-keeps :
          (snapshot best : SubsetMap) (s n : ℕ)
          → Within best s n
          → Within (extend_rows idx (pos (suc a)) cap bound snapshot best) s n
      unfolding extend_rows
      extend_rows-keeps [] best s n w = w
      extend_rows-keeps (row ∷ snapshot) best s n w =
          extend_rows-keeps snapshot _ s n (extend_row-keeps row best s n w)

      extend_row-adds :
          (best : SubsetMap) (subset : List ℕ) (sum : ℕ)
          → add_i64 (pos sum) (pos (suc a)) ≡ pos (sum + suc a)
          → length subset < bound
          → ltb_ℤ cap (pos (sum + suc a)) ≡ false
          → Within
              (extend_row idx (pos (suc a)) cap bound (pos sum, subset) best)
              (sum + suc a)
              (suc (length subset))
      unfolding extend_row
      extend_row-adds best subset sum exact short small =
          let room : leb bound (length subset) ≡ false = ground (arith, short) in
          rw (room, exact, small)
            (put_wanted best _ (subset ++ (idx ∷ [])) _
              (omega (arith, length-append subset (idx ∷ []))))

      extend_rows-adds :
          (snapshot best : SubsetMap) (subset : List ℕ) (sum : ℕ)
          → add_i64 (pos sum) (pos (suc a)) ≡ pos (sum + suc a)
          → length subset < bound
          → ltb_ℤ cap (pos (sum + suc a)) ≡ false
          → get (pos sum) snapshot ≡ some subset
          → Within
              (extend_rows idx (pos (suc a)) cap bound snapshot best)
              (sum + suc a)
              (suc (length subset))
      unfolding extend_rows
      extend_rows-adds [] best subset sum exact short small e = absurd (ground (arith, e))
      extend_rows-adds ((t, v) ∷ snapshot) best subset sum exact short small e =
          elim (Bool-cases (eqb_ℤ t (pos sum))) [
            | inl same ↦
                let v_is : v ≡ subset = some-injective _ _ (rw same at e) in
                rw ((eqb_ℤ-iff t (pos sum)).0 same, v_is)
                  (extend_rows-keeps snapshot _ (sum + suc a) (suc (length subset))
                    (extend_row-adds best subset sum exact short small))
            | inr other ↦ extend_rows-adds snapshot _ subset sum exact short small (rw other at e)
          ]

    -- The table holds every sum that can be reached within the cap and the bound.
    abbrev pub Complete : ℕ → SubsetMap → Type 0
    Complete idx best =
        (subset : List ℕ) (sum : ℕ)
        → Reaches entries idx subset sum
        → ltb_ℤ cap (pos sum) ≡ false
        → length subset ≤ bound
        → Within best sum (length subset)

    extend_rows-Complete :
        (idx : ℕ) (id : Str) (a : ℕ) (best : SubsetMap)
        → get_elem? entries idx ≡ some (id, pos (suc a))
        → Complete idx best
        → Complete (suc idx) (extend_rows idx (pos (suc a)) cap bound best best)
    extend_rows-Complete idx id a best here c subset sum (leave r) small short =
        extend_rows-keeps idx id a here best best sum (length subset) (c subset sum r small short)
    extend_rows-Complete idx id a best here c _ _ (pick {subset = v} {sum = n} id' b h r) small
          short =
        let same : b ≡ a = same_amount (some-injective _ _ (sym h ∙ here)) in
        let size : length (v ++ (idx ∷ [])) ≡ length v + 1 = length-append v (idx ∷ []) in
        let (w, e, le) = c v n r (ltb_below cap n (suc b) small) (omega (arith, size, short)) in
        rw same (
          Within-le _ (n + suc a)
            (extend_rows-adds idx id a here best best w n (add-Reaches idx id a here r)
              (omega (arith, size, short, le)) (rw same at small) e)
            (omega (arith, size, le)))

    -- What is left of the entries at the index `idx`.
    abbrev Remains : ℕ → List Entry → Type 0
    Remains idx rest = (j : ℕ) → get_elem? entries (idx + j) ≡ get_elem? rest j

    Remains-suc :
        (idx : ℕ) (entry : Entry) (rest : List Entry)
        → Remains idx (entry ∷ rest)
        → Remains (suc idx) rest
    Remains-suc idx entry rest at j = ap (get_elem? entries) (omega arith) ∙ at (suc j)

    pub subsets_from-IsReached :
        (idx : ℕ) (rest : List Entry) (best : SubsetMap)
        → Remains idx rest
        → Positive rest
        → All (IsReached idx) best
        → All (IsReached (idx + length rest)) (subsets_from idx rest cap bound best)
    unfolding subsets_from
    subsets_from-IsReached idx [] best at p h = subst (λ n. All (IsReached n) best) (omega arith) h
    subsets_from-IsReached idx ((id, amount) ∷ rest) best at ((a, e), p) h =
        let here : get_elem? entries idx ≡ some (id, pos (suc a)) =
          ap (get_elem? entries) (omega arith) ∙ at 0 ∙ ap (λ x. some (id, x)) e in
        let next = extend_rows-IsReached idx id a here best best h (IsReached-leave idx best h) in
        rw e (
          subst
            (λ n. All (IsReached n) (
              subsets_from (suc idx) rest cap bound
                (extend_rows idx (pos (suc a)) cap bound best best)))
            (omega arith)
            (subsets_from-IsReached (suc idx) rest _ (Remains-suc idx (id, amount) rest at) p next))

    pub subsets_from-Complete :
        (idx : ℕ) (rest : List Entry) (best : SubsetMap)
        → Remains idx rest
        → Positive rest
        → Complete idx best
        → Complete (idx + length rest) (subsets_from idx rest cap bound best)
    unfolding subsets_from
    subsets_from-Complete idx [] best at p c = subst (λ n. Complete n best) (omega arith) c
    subsets_from-Complete idx ((id, amount) ∷ rest) best at ((a, e), p) c =
        let here : get_elem? entries idx ≡ some (id, pos (suc a)) =
          ap (get_elem? entries) (omega arith) ∙ at 0 ∙ ap (λ x. some (id, x)) e in
        let next = extend_rows-Complete idx id a best here c in
        rw e (
          subst
            (λ n. Complete n (
              subsets_from (suc idx) rest cap bound
                (extend_rows idx (pos (suc a)) cap bound best best)))
            (omega arith)
            (subsets_from-Complete (suc idx) rest _ (Remains-suc idx (id, amount) rest at) p next))
