-- ===== src/CoinOps/Shape/Selection.antt =====
-- greenfloor-engine/src/coin_ops/shape_protection.rs: the coin that is chosen for a split.
use greenfloor.Common.{
  ℕ, zero, suc, ◌+◌, ◌≡◌, refl, inl, inr, true, false, List, [], ◌∷◌, none, some, arith, keep, All,
  get_elem?, Bool-cases, Option-cases, All-keep, All-map, subst, All-of-keep,
}
use mathlib.Core.Option.{some-injective}
use greenfloor.Common.Int.{ℤ, ◌≤ℤ◌, leb_ℤ}
use greenfloor.Common.Str.{Str}
use greenfloor.CoinOps.Shape.{
  select_smallest_non_cannibalizing_candidate_id, LadderShapeContext, SplittableCandidate,
  is_eligible, enumerate_from, first_smallest, select_smallest_non_cannibalizing_index,
}

-- A property of all entries holds of the chosen one.
chosen {κ} :
    (P : ℕ × SplittableCandidate → Type κ) (entries : List (ℕ × SplittableCandidate))
    (best : ℕ × SplittableCandidate)
    → All P entries
    → first_smallest entries ≡ some best
    → P best
unfolding first_smallest
chosen P [] best h e = ground arith
chosen P (entry ∷ entries) best (p, h) e = elim (Option-cases (first_smallest entries)) [
  | inl empty ↦ subst P (some-injective entry best (rw empty at e)) p
  | inr (rest, found) ↦ elim (Bool-cases (leb_ℤ entry.1.funding_units rest.1.funding_units)) [
    | inl less ↦ subst P (some-injective entry best (rw (found, less) at e)) p
    | inr more ↦
        subst P (some-injective rest best (rw (found, more) at e)) (chosen P entries rest h found)
  ]
]

All-le :
    (a b : ℤ) (entries : List (ℕ × SplittableCandidate))
    → a ≤ℤ b
    → All (λ entry. b ≤ℤ entry.1.funding_units) entries
    → All (λ entry. a ≤ℤ entry.1.funding_units) entries
All-le a b [] le h = tt
All-le a b (entry ∷ entries) le (k, h) = (omega (arith, le, k), All-le a b entries le h)

-- Nothing is chosen from nothing only.
none_when_empty :
    (entries : List (ℕ × SplittableCandidate)) → first_smallest entries ≡ none → entries ≡ []
unfolding first_smallest
none_when_empty [] e = refl
none_when_empty (entry ∷ entries) e = elim (Option-cases (first_smallest entries)) [
  | inl empty ↦ let no = rw empty at e in cc
  | inr (rest, found) ↦ elim (Bool-cases (leb_ℤ entry.1.funding_units rest.1.funding_units)) [
    | inl less ↦ let no = rw (found, less) at e in cc
    | inr more ↦ let no = rw (found, more) at e in cc
  ]
]

-- No entry is cheaper than `best`.
LeastOf : List (ℕ × SplittableCandidate) → ℕ × SplittableCandidate → Type 0
LeastOf entries best = All (λ entry. best.1.funding_units ≤ℤ entry.1.funding_units) entries

is_smallest :
    (entries : List (ℕ × SplittableCandidate)) (best : ℕ × SplittableCandidate)
    → first_smallest entries ≡ some best
    → LeastOf entries best
unfolding first_smallest LeastOf
is_smallest [] best e = tt
is_smallest (entry ∷ entries) best e = elim (Option-cases (first_smallest entries)) [
  | inl empty ↦
      subst (LeastOf (entry ∷ entries)) (some-injective entry best (rw empty at e))
        (omega arith, rw (none_when_empty entries empty) tt)
  | inr (rest, found) ↦ elim (Bool-cases (leb_ℤ entry.1.funding_units rest.1.funding_units)) [
    | inl less ↦
        subst (LeastOf (entry ∷ entries)) (some-injective entry best (rw (found, less) at e)) (
          omega arith,
          All-le entry.1.funding_units rest.1.funding_units entries (ground arith)
              (is_smallest entries rest found),
        )
    | inr more ↦
        subst (LeastOf (entry ∷ entries)) (some-injective rest best (rw (found, more) at e))
          (ground arith, is_smallest entries rest found)
  ]
]

-- Where the entries of an enumeration come from.
enumerated :
    (k : ℕ) (candidates : List SplittableCandidate)
    → All
        (λ entry. (j : ℕ) × (entry.0 ≡ k + j) × (get_elem? candidates j ≡ some entry.1))
        (enumerate_from k candidates)
unfolding enumerate_from
enumerated k [] = tt
enumerated k (c ∷ cs) = (
  (0, omega arith, refl),
  All-map (λ entry. (j : ℕ) × (entry.0 ≡ suc k + j) × (get_elem? cs j ≡ some entry.1))
      (λ entry. (j : ℕ) × (entry.0 ≡ k + j) × (get_elem? (c ∷ cs) j ≡ some entry.1))
      (enumerate_from (suc k) cs) (λ entry (j, index, there). (suc j, omega (arith, index), there))
      (enumerated (suc k) cs),
)

at_index {κ} :
    (P : SplittableCandidate → Type κ) (k : ℕ) (candidates : List SplittableCandidate) (j : ℕ)
    (c : SplittableCandidate)
    → All (λ entry. P entry.1) (enumerate_from k candidates)
    → get_elem? candidates j ≡ some c
    → P c
unfolding enumerate_from
at_index P k [] j c h e = ground arith
at_index P k (x ∷ xs) zero c (p, h) e = subst P (some-injective x c e) p
at_index P k (x ∷ xs) (suc j) c (p, h) e = at_index P (suc k) xs j c h e

-- The index that is chosen for a split stands for an eligible candidate, one that funds the output
-- and whose splitting breaks up no protected row, and it is no dearer than any eligible candidate.
pub smallest_eligible :
    (candidates : List SplittableCandidate) (required : ℤ) (ctx : LadderShapeContext) (i j : ℕ)
    (best other : SplittableCandidate)
    → select_smallest_non_cannibalizing_index candidates required ctx ≡ some (i, best)
    → get_elem? candidates j ≡ some other
    → is_eligible required ctx other ≡ true
    → (get_elem? candidates i ≡ some best)
      × (is_eligible required ctx best ≡ true)
      × (best.funding_units ≤ℤ other.funding_units)
unfolding select_smallest_non_cannibalizing_index LeastOf
smallest_eligible candidates required ctx i j best other e at can =
    let ok = is_eligible required ctx in
    let entries = enumerate_from 0 candidates in
    let kept = keep (λ entry. ok entry.1) entries in
    let ((k, index, there), eligible) =
      chosen _ kept (i, best) (All-keep _ (λ entry. ok entry.1) entries (enumerated 0 candidates))
        e in
    let same : k ≡ i = omega (arith, index) in
    (
      subst (λ n. get_elem? candidates n ≡ some best) same there,
      eligible,
      at_index (λ c. ok c ≡ true → best.funding_units ≤ℤ c.funding_units) 0 candidates j other
          (All-of-keep _ (λ entry. ok entry.1) entries (is_smallest kept (i, best) e)) at can,
    )

-- No index is chosen only when no candidate is eligible.
pub none_eligible :
    (candidates : List SplittableCandidate) (required : ℤ) (ctx : LadderShapeContext) (j : ℕ)
    (c : SplittableCandidate)
    → select_smallest_non_cannibalizing_index candidates required ctx ≡ none
    → get_elem? candidates j ≡ some c
    → is_eligible required ctx c ≡ false
unfolding select_smallest_non_cannibalizing_index
none_eligible candidates required ctx j c e at =
    let ok = is_eligible required ctx in
    let entries = enumerate_from 0 candidates in
    let empty = none_when_empty (keep (λ entry. ok entry.1) entries) e in
    let none_kept : All (λ _. false ≡ true) (keep (λ entry. ok entry.1) entries) = rw empty tt in
    let refused =
      at_index (λ c. ok c ≡ true → false ≡ true) 0 candidates j c
        (All-of-keep (λ _. false ≡ true) (λ entry. ok entry.1) entries none_kept) at in
    elim (Bool-cases (ok c)) [ inl can ↦ ground (arith, refused can) | inr cannot ↦ cannot ]

All-enumerate {κ} :
    (P : SplittableCandidate → Type κ) (k : ℕ) (candidates : List SplittableCandidate)
    → All P candidates
    → All (λ entry. P entry.1) (enumerate_from k candidates)
unfolding enumerate_from
All-enumerate P k [] h = tt
All-enumerate P k (c ∷ cs) (p, h) = (p, All-enumerate P (suc k) cs h)

-- What holds of all candidates holds of one with the chosen id.
pub candidate_All {κ} :
    (P : SplittableCandidate → Type κ) (candidates : List SplittableCandidate) (required : ℤ)
    (ctx : LadderShapeContext) (id : Str)
    → All P candidates
    → select_smallest_non_cannibalizing_candidate_id candidates required ctx ≡ some id
    → (c : SplittableCandidate) × P c × (c.id ≡ id)
unfolding select_smallest_non_cannibalizing_candidate_id select_smallest_non_cannibalizing_index
candidate_All P candidates required ctx id h e =
    let kept = keep (λ entry. is_eligible required ctx entry.1) (enumerate_from 0 candidates) in
    elim (Option-cases (first_smallest kept)) [
      | inl nothing ↦
          let no = rw (select_smallest_non_cannibalizing_candidate_id, nothing) at e in cc
      | inr (entry, found) ↦
          let (p, _) =
            chosen _ kept entry
              (All-keep (λ x. P x.1) (λ x. is_eligible required ctx x.1)
                (enumerate_from 0 candidates) (All-enumerate P 0 candidates h))
              found in
          (
            entry.1,
            p,
            some-injective entry.1.id id
                (rw (select_smallest_non_cannibalizing_candidate_id, found) at e),
          )
    ]
