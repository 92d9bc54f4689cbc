-- ===== src/Cycle/Notifications.antt =====
-- greenfloor-engine/src/cycle/notifications.rs: the alert of a low inventory.
pub mod Cooldown
use greenfloor.Common.{
  Bool, true, false, ◌&&◌, ◌||◌, not, Option, none, some, if◌then◌else◌, is_none, is_some,
  unwrap_or,
}
use greenfloor.Common.Int.{ℤ, pos, ltb_ℤ, leb_ℤ}
use greenfloor.Common.I64.{saturating_sub}
use greenfloor.Common.Float.{Float}
use greenfloor.Common.Result.{ok, err}
use greenfloor.Pricing.{i64_to_f64, f64_to_i64_round_ladder}
use greenfloor.Common.Str.{Str, codes}

pub record AlertEvent : Type 0 where
  pub market_id : Str
  pub ticker : Str
  pub remaining_amount : ℤ
  pub receive_address : Str
  pub reason : Str

pub record AlertState : Type 0 where
  pub is_low : Bool
  pub last_alert_at_unix : Option ℤ

pub record LowInventoryEvaluation : Type 0 where
  pub state : AlertState
  pub event : Option AlertEvent

-- Over the type of the percentage, an f64.
pub record LowInventoryInput (F : Type 0) : Type 0 where
  pub now_unix : ℤ
  pub low_inventory_enabled : Bool
  pub program_default_threshold : ℤ
  pub clear_hysteresis_percent : F
  pub dedup_cooldown_seconds : ℤ
  pub market_enabled : Bool
  pub market_id : Str
  pub ticker : Str
  pub receive_address : Str
  pub market_threshold : Option ℤ
  pub low_watermark : ℤ
  pub remaining : ℤ
  pub state_is_low : Bool
  pub state_last_alert_at_unix : Option ℤ

unfoldable pub compute_low_inventory_threshold : Option ℤ → ℤ → ℤ → ℤ
compute_low_inventory_threshold (some threshold) program_default_threshold low_watermark = threshold
compute_low_inventory_threshold none program_default_threshold low_watermark =
    if ltb_ℤ (pos 0) program_default_threshold then program_default_threshold else low_watermark

-- A low inventory is reported again after the cooldown.
unfoldable pub is_reminder : ℤ → ℤ → Bool → Option ℤ → Bool
is_reminder now_unix dedup_cooldown_seconds state_is_low last =
    state_is_low
    && is_some last
    && leb_ℤ dedup_cooldown_seconds (saturating_sub now_unix (unwrap_or last now_unix))

module _ {F : Type 0} (float : Float F) where
  -- The level from which the inventory is not low any more.
  unfoldable pub hysteresis_target : ℤ → F → ℤ
  hysteresis_target threshold clear_hysteresis_percent =
      elim (f64_to_i64_round_ladder float (
        float.times (i64_to_f64 float threshold) (
          float.plus (float.of_i64 (pos 1))
            (float.divide clear_hysteresis_percent (float.of_i64 (pos 100)))))) [
              | err _ ↦ threshold
              | ok target ↦ target
            ]

  unfoldable pub event_for : LowInventoryInput F → Bool → AlertEvent
  event_for input reminder = record {
    market_id = input.market_id;
    ticker = input.ticker;
    remaining_amount = input.remaining;
    receive_address = input.receive_address;
    reason = if reminder then codes "reminder_sent" else codes "low_triggered";
  }

  -- The inventory is below the threshold.
  unfoldable pub alert_low : LowInventoryInput F → LowInventoryEvaluation
  alert_low input =
      let reminder =
        is_reminder input.now_unix input.dedup_cooldown_seconds input.state_is_low
          input.state_last_alert_at_unix in
      if (not input.state_is_low || is_none input.state_last_alert_at_unix) || reminder
      then record {
        state = record { is_low = true; last_alert_at_unix = some input.now_unix };
        event = some (event_for input reminder);
      }
      else record {
        state = record { is_low = true; last_alert_at_unix = input.state_last_alert_at_unix };
        event = none;
      }

  unfoldable pub evaluate_low_inventory_alert : LowInventoryInput F → LowInventoryEvaluation
  evaluate_low_inventory_alert input =
      let unchanged : LowInventoryEvaluation = record {
        state = record {
          is_low = input.state_is_low;
          last_alert_at_unix = input.state_last_alert_at_unix;
        };
        event = none;
      } in
      let threshold =
        compute_low_inventory_threshold input.market_threshold input.program_default_threshold
          input.low_watermark in
      if not input.market_enabled || not input.low_inventory_enabled
      then unchanged
      else if leb_ℤ (hysteresis_target threshold input.clear_hysteresis_percent) input.remaining
      then record {
        state = record { is_low = false; last_alert_at_unix = input.state_last_alert_at_unix };
        event = none;
      }
      else if leb_ℤ threshold input.remaining
      then unchanged
      else alert_low input
