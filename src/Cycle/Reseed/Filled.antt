-- ===== src/Cycle/Reseed/Filled.antt =====
-- greenfloor-engine/src/cycle/reseed.rs: what is reseeded.
use greenfloor.Common.{
  ◌≡◌, ◌≢◌, ◌⊎◌, refl, ap, sym, true, ◌<◌, List, [], ◌∷◌, Option, none, some, arith, keep, is_some,
  false, All, All-map, unwrap_or, is_empty, Bool-cases, Option-cases, inl, inr,
}
use greenfloor.Common.Int.{ℤ, pos, max_ℤ, eqb_ℤ, eqb_ℤ-iff, ltb_ℤ, leb_ℤ, ◌<ℤ◌}
use greenfloor.Common.I64.{two_63}
use greenfloor.Common.Float.{Float}
use greenfloor.Common.Run.{Sorted, get, All-put}
use greenfloor.Cycle.Strategy.{StrategyConfig, PlannedAction, evaluate_market}
use greenfloor.Cycle.Reseed.Complete.{
  Named, gap, is_lacking, shortfall, posts, templates_cover, reseed_actions-post, sum_missing,
  none_lacking,
}
use greenfloor.Cycle.Reseed.{
  reseed_zero_repeat_filtered, ReseedGapPlan, missing_counts_by_size, first_of_size, templates_of,
  reseed_action, reseed_actions, is_repeated, skipped, plan_from_actions, sum_counts,
  empty_market_state, plan_reseed_actions_from_gap,
}

first_of_size-Named :
    (candidate : PlannedAction) (templates : Sorted PlannedAction)
    → All Named templates
    → All Named (first_of_size candidate templates)
unfolding first_of_size
first_of_size-Named candidate templates h = elim (Option-cases (get candidate.size templates)) [
  | inl new ↦ rw (first_of_size, new) (All-put Named candidate.size candidate templates refl h)
  | inr (other, old) ↦ rw (first_of_size, old) h
]

templates_of-Named :
    (templates : Sorted PlannedAction) (candidates : List PlannedAction)
    → All Named templates
    → All Named (templates_of templates candidates)
unfolding templates_of
templates_of-Named templates [] h = h
templates_of-Named templates (candidate ∷ candidates) h =
    templates_of-Named (first_of_size candidate templates) candidates
      (first_of_size-Named candidate templates h)

-- The action posts as many offers as its size misses, and at least one.
abbrev pub IsMissing : Sorted ℤ → PlannedAction → Type 0
IsMissing missing action =
    (pos 0 <ℤ action.repeat) × (action.repeat ≡ unwrap_or (get action.size missing) (pos 0))

reseed_actions-IsMissing :
    (missing : Sorted ℤ) (templates : Sorted PlannedAction)
    → All Named templates
    → All (IsMissing missing) (reseed_actions missing templates)
unfolding reseed_actions reseed_action
reseed_actions-IsMissing missing [] h = tt
reseed_actions-IsMissing missing ((size, template) ∷ templates) (same, h) =
    let count = unwrap_or (get size missing) (pos 0) in
    elim (Bool-cases (leb_ℤ count (pos 0))) [
      | inl enough ↦ rw enough (reseed_actions-IsMissing missing templates h)
      | inr lacking ↦ rw lacking (
        (ground (arith, lacking), ap (λ s. unwrap_or (get s missing) (pos 0)) (sym same)),
        reseed_actions-IsMissing missing templates h,
      )
    ]

keep-is_repeated :
    (missing : Sorted ℤ) (actions : List PlannedAction)
    → All (IsMissing missing) actions
    → keep is_repeated actions ≡ actions
unfolding is_repeated
keep-is_repeated missing [] h = refl
keep-is_repeated missing (action ∷ actions) ((above, _), h) =
    let repeated : ltb_ℤ (pos 0) action.repeat ≡ true = ground (arith, above) in
    rw repeated (ap (λ xs. action ∷ xs) (keep-is_repeated missing actions h))

-- The size has a target, the action posts what is missing to it, and that is one offer at least.
abbrev pub IsRefilled : Sorted ℤ → Sorted ℤ → PlannedAction → Type 0
IsRefilled active targets action =
    (target : ℤ) × (get action.size targets ≡ some target)
    × (action.repeat ≡ gap active action.size target)
    × (pos 0 <ℤ action.repeat)

get-missing :
    (active targets : Sorted ℤ) (size : ℤ)
    → ((get size targets ≡ none) × (get size (missing_counts_by_size active targets) ≡ none))
      ⊎ ((target : ℤ) × (get size targets ≡ some target)
          × (get size (missing_counts_by_size active targets)
              ≡ some (max_ℤ (gap active size target) (pos 0))))
unfolding missing_counts_by_size
get-missing active [] size = inl (refl, refl)
get-missing active ((other, target) ∷ targets) size = elim (Bool-cases (eqb_ℤ other size)) [
  | inl same ↦ rw same (
      inr (
        target,
        refl,
        ap (λ s. some (max_ℤ (gap active s target) (pos 0))) ((eqb_ℤ-iff other size).0 same),
      ))
  | inr differs ↦ rw differs (get-missing active targets size)
]

IsMissing-IsRefilled :
    (active targets : Sorted ℤ) (action : PlannedAction)
    → IsMissing (missing_counts_by_size active targets) action
    → IsRefilled active targets action
IsMissing-IsRefilled active targets action (above, same) =
    elim (get-missing active targets action.size) [
      | inl (_, absent) ↦ let nothing = rw absent at same in absurd (ground (arith, nothing, above))
      | inr (target, there, missing) ↦
          let count = rw missing at same in (target, there, ground (arith, count, above), above)
    ]

plan_from-actions :
    (active targets : Sorted ℤ) (actions : List PlannedAction)
    → All (IsMissing (missing_counts_by_size active targets)) actions
    → let plan = plan_from_actions actions (missing_counts_by_size active targets) in
      (plan.actions ≡ actions) × (plan.skip_reason ≢ some reseed_zero_repeat_filtered)
unfolding plan_from_actions skipped
plan_from-actions active targets [] h = (refl, λ e. cc)
plan_from-actions active targets (action ∷ actions) h =
    rw (keep-is_repeated (missing_counts_by_size active targets) (action ∷ actions) h)
      (refl, λ e. cc)

-- The seed's size lacks nothing, or the actions post for it.
abbrev pub IsServed : Sorted ℤ → Sorted ℤ → List PlannedAction → PlannedAction → Type 0
IsServed active targets actions seed =
    (is_lacking active targets seed.size ≡ false) ⊎ (posts actions seed.size ≡ true)

-- A plan of reseeding from these seeds.
abbrev pub Reseeds : Sorted ℤ → Sorted ℤ → List PlannedAction → ReseedGapPlan → Type 0
Reseeds active targets seeds plan =
    (plan.skip_reason ≢ some reseed_zero_repeat_filtered)
    × All (IsRefilled active targets) plan.actions
    × All (IsServed active targets plan.actions) seeds

lacking_missing :
    (active targets : Sorted ℤ) (size : ℤ)
    → is_lacking active targets size ≡ true
    → leb_ℤ (unwrap_or (get size (missing_counts_by_size active targets)) (pos 0)) (pos 0) ≡ false
lacking_missing active targets size lacks = elim (get-missing active targets size) [
  | inl (none_wanted, _) ↦ let no = rw (none_wanted, is_lacking) at lacks in cc
  | inr (target, there, missing) ↦
      let above = rw (there, is_lacking) at lacks in rw missing (ground (arith, above))
]

seeds-IsServed :
    (active targets : Sorted ℤ) (templates : Sorted PlannedAction) (seeds : List PlannedAction)
    → All Named templates
    → All (λ seed. is_some (get seed.size templates) ≡ true) seeds
    → All
        (IsServed active targets (reseed_actions (missing_counts_by_size active targets) templates))
        seeds
seeds-IsServed active targets templates seeds named covered =
    All-map _ _ seeds
      (λ seed there. elim (Bool-cases (is_lacking active targets seed.size)) [
        | inr met ↦ inl met
        | inl lacks ↦ inr (
            reseed_actions-post (missing_counts_by_size active targets) templates seed.size named
              there (lacking_missing active targets seed.size lacks))
      ])
      covered

seeds_met :
    (active targets : Sorted ℤ) (seeds : List PlannedAction)
    → shortfall active targets ≡ 0
    → All (IsServed active targets []) seeds
seeds_met active targets [] h = tt
seeds_met active targets (seed ∷ seeds) h =
    (inl (none_lacking active targets seed.size h), seeds_met active targets seeds h)

-- When the strategy plans no action, and what is missing to the targets altogether is less than 2^63,
-- every action of the reseeding posts what the active offers of its size are short of its target, one
-- offer at least; every size of an offer that the strategy would plan without offers is served so
-- unless its active offers reach its target; and the plan is never skipped because all its actions
-- post none.
pub reseeding_fills :
    {F : Type 0} (float : Float F) (active targets : Sorted ℤ) (config : StrategyConfig F)
    (price : Option F)
    → shortfall active targets < two_63
    → Reseeds active targets
        (evaluate_market float (empty_market_state float price) config)
        (plan_reseed_actions_from_gap float [] active targets config price)
unfolding plan_reseed_actions_from_gap skipped
reseeding_fills float active targets config price small =
    let missing = missing_counts_by_size active targets in
    let seeds = evaluate_market float (empty_market_state float price) config in
    let templates = templates_of [] seeds in
    let named = templates_of-Named [] seeds tt in
    let actions = reseed_actions missing templates in
    let fill = reseed_actions-IsMissing missing templates named in
    let (same, kept) = plan_from-actions active targets actions fill in
    let summed = sum_missing active targets 0 (omega (arith, small)) in
    elim (Bool-cases (leb_ℤ (sum_counts (pos 0) missing) (pos 0))) [
      | inl met ↦
          rw met ((λ e. cc), tt, seeds_met active targets seeds (ground (arith, met, summed)))
      | inr short ↦ rw short (elim (Bool-cases (is_empty seeds)) [
        | inl unseeded ↦ rw unseeded ((λ e. cc), tt, no_seeds active targets seeds unseeded)
        | inr seeded ↦ rw seeded (
          kept,
          rw same (All-map _ _ actions (IsMissing-IsRefilled active targets) fill),
          rw same (seeds-IsServed active targets templates seeds named (templates_cover [] seeds)),
        )
      ])
    ]
  where
    no_seeds :
        (active targets : Sorted ℤ) (seeds : List PlannedAction)
        → is_empty seeds ≡ true
        → All (IsServed active targets []) seeds
    no_seeds active targets [] h = tt
    no_seeds active targets (seed ∷ seeds) h = absurd (ground (arith, h))
