-- ===== src/Cycle/Market/Tracked.antt =====
-- greenfloor-engine/src/cycle/market.rs: the tracked sizes.
use greenfloor.Common.{
  ◌≡◌, ◌∙◌, refl, Bool, ◌&&◌, ◌||◌, List, [], ◌∷◌, arith, if◌then◌else◌, if-both, any, is_empty,
  All, All-map, Bool-cases, inl, inr,
}
use greenfloor.Common.Int.{ℤ, pos, ltb_ℤ, eqb_ℤ, eqb_ℤ-iff, ◌≤ℤ◌, ◌<ℤ◌}
use greenfloor.Cycle.Market.{
  place_size, sort_sizes, dedup_after, dedup, positive_sizes, resolve_tracked_sizes,
}

-- Each size is larger than those before it.
abbrev pub Ascending : List ℤ → Type 0
Ascending [] = Unit
Ascending (size ∷ sizes) = All (λ next. size <ℤ next) sizes × Ascending sizes

abbrev Rising : List ℤ → Type 0
Rising [] = Unit
Rising (size ∷ sizes) = All (λ next. size ≤ℤ next) sizes × Rising sizes

abbrev pub occurs : ℤ → List ℤ → Bool
occurs size sizes = any (λ other. eqb_ℤ other size) sizes

occurs-place :
    (size x : ℤ) (sizes : List ℤ)
    → occurs size (place_size x sizes) ≡ (eqb_ℤ x size || occurs size sizes)
unfolding place_size
occurs-place size x [] = refl
occurs-place size x (next ∷ sizes) = ground (arith, occurs-place size x sizes)

occurs-sort : (size : ℤ) (sizes : List ℤ) → occurs size (sort_sizes sizes) ≡ occurs size sizes
unfolding sort_sizes
occurs-sort size [] = refl
occurs-sort size (x ∷ sizes) =
    ground (arith, occurs-place size x (sort_sizes sizes), occurs-sort size sizes)

All-place :
    (low x : ℤ) (sizes : List ℤ)
    → low ≤ℤ x
    → All (λ n. low ≤ℤ n) sizes
    → All (λ n. low ≤ℤ n) (place_size x sizes)
unfolding place_size
All-place low x [] le h = (le, tt)
All-place low x (next ∷ sizes) le (k, h) =
    if-both (All (λ n. low ≤ℤ n)) (ltb_ℤ next x) (k, All-place low x sizes le h) (le, (k, h))

Rising-place : (x : ℤ) (sizes : List ℤ) → Rising sizes → Rising (place_size x sizes)
unfolding place_size
Rising-place x [] h = (tt, tt)
Rising-place x (next ∷ sizes) (k, h) = elim (Bool-cases (ltb_ℤ next x)) [
  | inl less ↦ rw less (All-place next x sizes (ground (arith, less)) k, Rising-place x sizes h)
  | inr more ↦
      let le : x ≤ℤ next = ground (arith, more) in
      rw more ((le, All-map _ _ sizes (λ n j. omega (arith, le, j)) k), (k, h))
]

Rising-sort : (sizes : List ℤ) → Rising (sort_sizes sizes)
unfolding sort_sizes
Rising-sort [] = tt
Rising-sort (x ∷ sizes) = Rising-place x (sort_sizes sizes) (Rising-sort sizes)

Ascending-dedup :
    (last : ℤ) (sizes : List ℤ)
    → All (λ n. last ≤ℤ n) sizes
    → Rising sizes
    → All (λ n. last <ℤ n) (dedup_after last sizes) × Ascending (dedup_after last sizes)
unfolding dedup_after
Ascending-dedup last [] k h = (tt, tt)
Ascending-dedup last (size ∷ sizes) (le, k) (j, h) = elim (Bool-cases (eqb_ℤ size last)) [
  | inl same ↦ rw same (Ascending-dedup last sizes k h)
  | inr other ↦
      let (above, rest) = Ascending-dedup size sizes j h in
      let less : last <ℤ size = ground (arith, other, le) in
      rw other (
        (less, All-map _ _ (dedup_after size sizes) (λ n m. omega (arith, less, m)) above),
        (above, rest),
      )
]

occurs-dedup :
    (size last : ℤ) (sizes : List ℤ)
    → (eqb_ℤ last size || occurs size (dedup_after last sizes))
      ≡ (eqb_ℤ last size || occurs size sizes)
unfolding dedup_after
occurs-dedup size last [] = refl
occurs-dedup size last (x ∷ sizes) = ground (
  arith,
  occurs-dedup size last sizes,
  occurs-dedup size x sizes,
  eqb_ℤ-iff x last,
  eqb_ℤ-iff x size,
  eqb_ℤ-iff last size,
)

dedup-lem :
    (sizes : List ℤ)
    → Rising sizes
    → Ascending (dedup sizes) × ((size : ℤ) → occurs size (dedup sizes) ≡ occurs size sizes)
unfolding dedup
dedup-lem [] h = (tt, λ size. refl)
dedup-lem (x ∷ sizes) (k, h) = (Ascending-dedup x sizes k h, λ size. occurs-dedup size x sizes)

occurs-positive :
    (size : ℤ) (sizes : List ℤ)
    → occurs size (positive_sizes sizes) ≡ (ltb_ℤ (pos 0) size && occurs size sizes)
unfolding positive_sizes
occurs-positive size [] = ground arith
occurs-positive size (x ∷ sizes) = ground (arith, occurs-positive size sizes, eqb_ℤ-iff x size)

tracked_from :
    (chosen : List ℤ) (size : ℤ)
    → Ascending (dedup (sort_sizes (positive_sizes chosen)))
      × (occurs size (dedup (sort_sizes (positive_sizes chosen)))
          ≡ (ltb_ℤ (pos 0) size && occurs size chosen))
tracked_from chosen size =
    let sorted = sort_sizes (positive_sizes chosen) in
    let (ascending, same) = dedup-lem sorted (Rising-sort (positive_sizes chosen)) in
    (ascending, same size ∙ occurs-sort size (positive_sizes chosen) ∙ occurs-positive size chosen)

-- The tracked sizes ascend without repetition, and a size is among them just when it is above 0 and
-- among the sizes of the ladder, or of the defaults when the ladder has no size above 0.
pub tracked_sizes :
    (ladder defaults : List ℤ) (size : ℤ)
    → Ascending (resolve_tracked_sizes ladder defaults)
      × (occurs size (resolve_tracked_sizes ladder defaults) ≡ (
          ltb_ℤ (pos 0) size
          && occurs size (if is_empty (positive_sizes ladder) then defaults else ladder)))
unfolding resolve_tracked_sizes
tracked_sizes ladder defaults size = elim (Bool-cases (is_empty (positive_sizes ladder))) [
  | inl none_positive ↦ rw none_positive (tracked_from defaults size)
  | inr some_positive ↦ rw some_positive (tracked_from ladder size)
]
