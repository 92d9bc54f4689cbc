-- ===== src/Cycle/Notifications/Cooldown.antt =====
-- greenfloor-engine/src/cycle/notifications.rs: alerts are not repeated within the cooldown.
use greenfloor.Common.{◌≡◌, ◌∙◌, true, List, [], ◌∷◌, none, some, arith, All}
use greenfloor.Common.Int.{ℤ, ltb_ℤ}
use greenfloor.Common.I64.{saturating_sub}
use greenfloor.Common.Float.{Float}
use greenfloor.Cycle.Notifications.{
  AlertEvent, AlertState, LowInventoryInput, is_reminder, alert_low, evaluate_low_inventory_alert,
}

module _ {F : Type 0} (float : Float F) where
  -- An alert is sent at the time of the evaluation, when the inventory is low.
  alert_sent :
      (first : LowInventoryInput F) (event : AlertEvent)
      → (evaluate_low_inventory_alert float first).event ≡ some event
      → ((evaluate_low_inventory_alert float first).state.is_low ≡ true)
        × ((evaluate_low_inventory_alert float first).state.last_alert_at_unix
            ≡ some first.now_unix)
  unfolding evaluate_low_inventory_alert alert_low
  alert_sent first event e = ground (arith, e)

  silent_within :
      (next : LowInventoryInput F) (at : ℤ)
      → next.state_is_low ≡ true
      → next.state_last_alert_at_unix ≡ some at
      → ltb_ℤ (saturating_sub next.now_unix at) next.dedup_cooldown_seconds ≡ true
      → (evaluate_low_inventory_alert float next).event ≡ none
  unfolding evaluate_low_inventory_alert alert_low is_reminder
  silent_within next at low last early = ground (arith, low, last, early)

  -- The evaluations go on from the state in turn, each from the one that the last one left.
  abbrev pub Continues : AlertState → List (LowInventoryInput F) → Type 0
  Continues state [] = Unit
  Continues state (next ∷ inputs) =
      (next.state_is_low ≡ state.is_low)
      × (next.state_last_alert_at_unix ≡ state.last_alert_at_unix)
      × Continues (evaluate_low_inventory_alert float next).state inputs

  -- The inventory stays low, and the time since the alert at `at` is less than the cooldown.
  abbrev pub IsEarly : ℤ → LowInventoryInput F → Type 0
  IsEarly at next =
      ((evaluate_low_inventory_alert float next).state.is_low ≡ true)
      × (ltb_ℤ (saturating_sub next.now_unix at) next.dedup_cooldown_seconds ≡ true)

  abbrev pub IsQuiet : LowInventoryInput F → Type 0
  IsQuiet next = (evaluate_low_inventory_alert float next).event ≡ none

  kept_time :
      (next : LowInventoryInput F)
      → (evaluate_low_inventory_alert float next).event ≡ none
      → (evaluate_low_inventory_alert float next).state.last_alert_at_unix
        ≡ next.state_last_alert_at_unix
  unfolding evaluate_low_inventory_alert alert_low
  kept_time next none_sent = ground (arith, none_sent)

  silent_in_turn :
      (at : ℤ) (state : AlertState) (inputs : List (LowInventoryInput F))
      → state.is_low ≡ true
      → state.last_alert_at_unix ≡ some at
      → Continues state inputs
      → All (IsEarly at) inputs
      → All IsQuiet inputs
  silent_in_turn at state [] low last c early = tt
  silent_in_turn at state (next ∷ inputs) low last (same_low, same_last, c)
        ((stays, early), later) =
      let silent = silent_within next at (same_low ∙ low) (same_last ∙ last) early in
      (
        silent,
        silent_in_turn at (evaluate_low_inventory_alert float next).state inputs stays
            (kept_time next silent ∙ same_last ∙ last) c later,
      )

  -- After an alert, evaluations that go on from its state one after another send no alert before the
  -- cooldown is over, as long as the inventory stays low.
  pub no_alert_before_cooldown :
      (first : LowInventoryInput F) (event : AlertEvent) (inputs : List (LowInventoryInput F))
      → (evaluate_low_inventory_alert float first).event ≡ some event
      → Continues (evaluate_low_inventory_alert float first).state inputs
      → All (IsEarly first.now_unix) inputs
      → All IsQuiet inputs
  no_alert_before_cooldown first event inputs sent c early =
      let (is_low, at) = alert_sent first event sent in
      silent_in_turn first.now_unix (evaluate_low_inventory_alert float first).state inputs is_low
        at c early
