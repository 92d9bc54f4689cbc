-- ===== src/Cycle/Strategy/Gaps.antt =====
-- greenfloor-engine/src/cycle/strategy.rs: the planned offers fill the gaps to the targets.
use greenfloor.Common.{
  and_true, ◌≡◌, refl, Bool, true, ◌&&◌, List, [], ◌∷◌, Option, none, some, arith, if-both, any,
  All, All-map, Bool-cases, inl, inr,
}
use greenfloor.Common.Int.{ℤ, pos, ltb_ℤ, eqb_ℤ, eqb_ℤ-iff, ◌+ℤ◌, ◌-ℤ◌, ◌<ℤ◌, int_laws}
use greenfloor.Common.I64.{IsI64, sub_i64, sub_i64-eq}
use greenfloor.Common.Float.{Float}
use greenfloor.Cycle.Strategy.{
  MarketState, StrategyConfig, PlannedAction, is_priced, strategy_target_counts,
  state_count_for_size, action_for, actions_for, evaluate_market, expiry_minutes,
}

-- Whether the size is among the targets, with this one.
abbrev pub is_aimed : ℤ → ℤ → List (ℤ × ℤ) → Bool
is_aimed size target targets = any (λ entry. eqb_ℤ entry.0 size && eqb_ℤ entry.1 target) targets

-- Whether an action has the size and the number of offers.
abbrev pub is_planned : ℤ → ℤ → List PlannedAction → Bool
is_planned size repeat actions =
    any (λ action. eqb_ℤ action.size size && eqb_ℤ action.repeat repeat) actions

module _ {F : Type 0} (float : Float F) (state : MarketState F) (config : StrategyConfig F) where
  -- The differences between the targets and the counts are in the range of i64.
  abbrev pub InRange : List (ℤ × ℤ) → Type 0
  InRange targets =
      All (λ entry. IsI64 (entry.1 -ℤ state_count_for_size float state entry.0)) targets

  -- The action brings its size from the current count to a target.
  abbrev pub Fills : List (ℤ × ℤ) → PlannedAction → Type 0
  Fills targets action =
      (pos 0 <ℤ action.repeat)
      × (is_aimed action.size (state_count_for_size float state action.size +ℤ action.repeat)
            targets
          ≡ true)
      × (pos 0 <ℤ action.expiry_value)

  expires : (minutes : Option ℤ) → pos 0 <ℤ expiry_minutes minutes
  unfolding expiry_minutes
  expires none = omega arith
  expires (some m) = ground arith

  actions-Fill :
      (all targets : List (ℤ × ℤ))
      → InRange targets
      → All (λ entry. is_aimed entry.0 entry.1 all ≡ true) targets
      → All (Fills all) (actions_for float state config targets)
  unfolding actions_for action_for
  actions-Fill all [] h g = tt
  actions-Fill all ((size, target) ∷ targets) (range, h) (there, g) =
      elim (Bool-cases (ltb_ℤ (state_count_for_size float state size) target)) [
        | inr met ↦ rw met (actions-Fill all targets h g)
        | inl below ↦
            let count = state_count_for_size float state size in
            let gap : sub_i64 target count ≡ target -ℤ count = sub_i64-eq target count range in
            let sum : count +ℤ (target -ℤ count) ≡ target = omega int_laws in
            let less : count <ℤ target = ground (arith, below) in
            rw (below, gap)
              (
                (omega (int_laws, less), rw sum there, expires config.offer_expiry_minutes),
                actions-Fill all targets h g,
              )
      ]

  planned_here :
      (size target s t : ℤ) (targets : List (ℤ × ℤ))
      → s ≡ size
      → t ≡ target
      → IsI64 (t -ℤ state_count_for_size float state s)
      → state_count_for_size float state size <ℤ target
      → is_planned size
          (target -ℤ state_count_for_size float state size)
          (actions_for float state config ((s, t) ∷ targets))
        ≡ true
  unfolding actions_for action_for
  planned_here size target s t targets at_size at_target range below =
      let count = state_count_for_size float state s in
      let gap : sub_i64 t count ≡ t -ℤ count = sub_i64-eq t count range in
      let lower : ltb_ℤ count t ≡ true = rw (at_size, at_target) (ground (arith, below)) in
      rw (← at_size, ← at_target, lower, gap)
        (ground (arith, (eqb_ℤ-iff s s).1 refl, (eqb_ℤ-iff (t -ℤ count) (t -ℤ count)).1 refl))

  actions-planned :
      (size target : ℤ) (targets : List (ℤ × ℤ))
      → InRange targets
      → is_aimed size target targets ≡ true
      → state_count_for_size float state size <ℤ target
      → is_planned size
          (target -ℤ state_count_for_size float state size)
          (actions_for float state config targets)
        ≡ true
  unfolding actions_for action_for
  actions-planned size target [] h aimed below = absurd (ground (arith, aimed))
  actions-planned size target ((s, t) ∷ targets) (range, h) aimed below =
      let repeat = target -ℤ state_count_for_size float state size in
      elim (Bool-cases (eqb_ℤ s size && eqb_ℤ t target)) [
        | inl same ↦
            let (s_is, t_is) = (and_true _ _).0 same in
            let at_size : s ≡ size = (eqb_ℤ-iff s size).0 s_is in
            let at_target : t ≡ target = (eqb_ℤ-iff t target).0 t_is in
            planned_here size target s t targets at_size at_target range below
        | inr other ↦
            let later = actions-planned size target targets h (rw other at aimed) below in
            if-both (λ actions. is_planned size repeat actions ≡ true)
              (ltb_ℤ (state_count_for_size float state s) t) (ground (arith, later)) later
      ]

aimed_at : (targets : List (ℤ × ℤ)) → All (λ entry. is_aimed entry.0 entry.1 targets ≡ true) targets
aimed_at [] = tt
aimed_at (entry ∷ targets) = (
  ground (arith, (eqb_ℤ-iff entry.0 entry.0).1 refl, (eqb_ℤ-iff entry.1 entry.1).1 refl),
  All-map _ _ targets (λ other h. ground (arith, h)) (aimed_at targets),
)

-- When the price is within its bounds and the gaps are in the range of i64, every planned offer brings
-- its size to a target of the configuration and expires after a positive time, and every size below a
-- target has an offer planned for what is missing.
pub evaluate_market-Fills :
    {F : Type 0} (float : Float F) (state : MarketState F) (config : StrategyConfig F)
    (size target : ℤ)
    → is_priced float state config ≡ true
    → InRange float state config (strategy_target_counts float config)
    → is_aimed size target (strategy_target_counts float config) ≡ true
    → state_count_for_size float state size <ℤ target
    → All
        (Fills float state config (strategy_target_counts float config))
        (evaluate_market float state config)
      × (is_planned size
            (target -ℤ state_count_for_size float state size)
            (evaluate_market float state config)
          ≡ true)
unfolding evaluate_market
evaluate_market-Fills float state config size target priced range aimed below =
    let targets = strategy_target_counts float config in
    rw priced (
      actions-Fill float state config targets targets range (aimed_at targets),
      actions-planned float state config size target targets range aimed below,
    )
