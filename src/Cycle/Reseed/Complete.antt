-- ===== src/Cycle/Reseed/Complete.antt =====
-- greenfloor-engine/src/cycle/reseed.rs: every size that has too few offers and a template is reseeded.
use greenfloor.Common.{
  ℕ, ◌+◌, ◌<◌, ◌≡◌, refl, ap, ◌∙◌, sym, subst, Bool, true, false, List, [], ◌∷◌, none, some, arith,
  any, is_some, unwrap_or, All, Bool-cases, Option-cases, inl, inr,
}
use greenfloor.Common.Int.{ℤ, pos, negsuc, pos_part, max_ℤ, ltb_ℤ, leb_ℤ, eqb_ℤ, eqb_ℤ-iff}
use greenfloor.Common.I64.{two_63, sub_i64, add_i64-pos}
use greenfloor.Common.Run.{Sorted, get, get-put, get-put_self}
use greenfloor.Cycle.Strategy.{PlannedAction}
use greenfloor.Cycle.Reseed.{
  missing_counts_by_size, first_of_size, templates_of, reseed_action, reseed_actions, sum_counts,
}

-- The template has the size that it is kept under.
abbrev pub Named : ℤ × PlannedAction → Type 0
Named (size, template) = template.size ≡ size

-- What a size has for active offers, and what it has of its target too few.
abbrev pub gap : Sorted ℤ → ℤ → ℤ → ℤ
gap active size target = sub_i64 target (unwrap_or (get size active) (pos 0))

-- The size has a target that its active offers do not reach.
abbrev pub is_lacking : Sorted ℤ → Sorted ℤ → ℤ → Bool
is_lacking active targets size = elim (get size targets) [
  | none ↦ false
  | some target ↦ ltb_ℤ (pos 0) (gap active size target)
]

-- What is missing to the targets altogether.
unfoldable pub shortfall : Sorted ℤ → Sorted ℤ → ℕ
shortfall active [] = 0
shortfall active ((size, target) ∷ targets) =
    pos_part (gap active size target) + shortfall active targets

abbrev pub posts : List PlannedAction → ℤ → Bool
posts actions size = any (λ action. eqb_ℤ action.size size) actions

first_covers :
    (candidate : PlannedAction) (templates : Sorted PlannedAction)
    → is_some (get candidate.size (first_of_size candidate templates)) ≡ true
unfolding first_of_size
first_covers candidate templates = elim (Option-cases (get candidate.size templates)) [
  | inl new ↦ rw (first_of_size, new) (ap is_some (get-put_self candidate.size candidate templates))
  | inr (other, old) ↦ rw (first_of_size, old) (ap is_some old)
]

first_keeps :
    (size : ℤ) (candidate : PlannedAction) (templates : Sorted PlannedAction)
    → is_some (get size templates) ≡ true
    → is_some (get size (first_of_size candidate templates)) ≡ true
unfolding first_of_size
first_keeps size candidate templates h = elim (Option-cases (get candidate.size templates)) [
  | inl new ↦
      rw (first_of_size, new, get-put size candidate.size candidate templates) (ground (arith, h))
  | inr (other, old) ↦ rw (first_of_size, old) h
]

templates_keep :
    (size : ℤ) (templates : Sorted PlannedAction) (candidates : List PlannedAction)
    → is_some (get size templates) ≡ true
    → is_some (get size (templates_of templates candidates)) ≡ true
unfolding templates_of
templates_keep size templates [] h = h
templates_keep size templates (candidate ∷ candidates) h =
    templates_keep size (first_of_size candidate templates) candidates
      (first_keeps size candidate templates h)

-- Every candidate has a template of its size.
pub templates_cover :
    (templates : Sorted PlannedAction) (candidates : List PlannedAction)
    → All (λ c. is_some (get c.size (templates_of templates candidates)) ≡ true) candidates
unfolding templates_of
templates_cover templates [] = tt
templates_cover templates (candidate ∷ candidates) = (
  templates_keep candidate.size (first_of_size candidate templates) candidates
      (first_covers candidate templates),
  templates_cover (first_of_size candidate templates) candidates,
)

-- A size that misses offers is posted when it has a template.
pub reseed_actions-post :
    (missing : Sorted ℤ) (templates : Sorted PlannedAction) (size : ℤ)
    → All Named templates
    → is_some (get size templates) ≡ true
    → leb_ℤ (unwrap_or (get size missing) (pos 0)) (pos 0) ≡ false
    → posts (reseed_actions missing templates) size ≡ true
unfolding reseed_actions reseed_action
reseed_actions-post missing [] size named there lacks = absurd (ground (arith, there))
reseed_actions-post missing ((other, template) ∷ templates) size (same, named) there lacks =
    elim (Bool-cases (eqb_ℤ other size)) [
      | inl here ↦
          let e = (eqb_ℤ-iff other size).0 here in
          let lacks_here =
            subst (λ s. leb_ℤ (unwrap_or (get s missing) (pos 0)) (pos 0) ≡ false) (sym e) lacks in
          rw lacks_here (ground (arith, (eqb_ℤ-iff template.size size).1 (same ∙ e)))
      | inr differs ↦
          let later =
            reseed_actions-post missing templates size named (rw differs at there) lacks in
          elim (Bool-cases (leb_ℤ (unwrap_or (get other missing) (pos 0)) (pos 0))) [
            | inl enough ↦ rw enough later
            | inr few ↦ rw few (ground (arith, later))
          ]
    ]

max_part : (x : ℤ) → max_ℤ x (pos 0) ≡ pos (pos_part x)
max_part (pos n) = ground arith
max_part (negsuc n) = ground arith

-- The missing counts are added up without overflow.
pub sum_missing :
    (active targets : Sorted ℤ) (sum : ℕ)
    → sum + shortfall active targets < two_63
    → sum_counts (pos sum) (missing_counts_by_size active targets)
      ≡ pos (sum + shortfall active targets)
unfolding sum_counts missing_counts_by_size shortfall
sum_missing active [] sum small = ap pos (omega arith)
sum_missing active ((size, target) ∷ targets) sum small =
    let here = pos_part (gap active size target) in
    rw (max_part (gap active size target), add_i64-pos sum here (omega (arith, small)))
      (sum_missing active targets (sum + here) (omega (arith, small)) ∙ ap pos (omega arith))

no_part : (x : ℤ) → pos_part x ≡ 0 → ltb_ℤ (pos 0) x ≡ false
no_part (pos n) h = ground (arith, h)
no_part (negsuc n) h = ground arith

-- When nothing is missing no size lacks offers.
pub none_lacking :
    (active targets : Sorted ℤ) (size : ℤ)
    → shortfall active targets ≡ 0
    → is_lacking active targets size ≡ false
unfolding shortfall
none_lacking active [] size h = refl
none_lacking active ((other, target) ∷ targets) size h = elim (Bool-cases (eqb_ℤ other size)) [
  | inl same ↦
      rw (same, is_lacking)
        (subst (λ s. ltb_ℤ (pos 0) (gap active s target) ≡ false) ((eqb_ℤ-iff other size).0 same)
          (no_part (gap active other target) (omega (arith, h))))
  | inr differs ↦ rw (differs, is_lacking) (none_lacking active targets size (omega (arith, h)))
]
