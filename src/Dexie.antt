-- ===== src/Dexie.antt =====
-- greenfloor-engine/src/offer/dexie_payload.rs: the status codes of a venue.
use greenfloor.Common.{Bool, ◌||◌, if◌then◌else◌}
use greenfloor.Common.Int.{ℤ, pos, eqb_ℤ}
use greenfloor.Lifecycle.{OfferSignal}

abbrev pub dexie_status_open : ℤ
dexie_status_open = pos 0

abbrev pub dexie_status_cancelled : ℤ
dexie_status_cancelled = pos 3

abbrev pub dexie_status_confirmed : ℤ
dexie_status_confirmed = pos 4

abbrev pub dexie_status_active : ℤ
dexie_status_active = pos 5

abbrev pub dexie_status_expired : ℤ
dexie_status_expired = pos 6

pub data DexieStatusReconcile : Type 0 where
  cancelled : DexieStatusReconcile
  apply_signal : OfferSignal → DexieStatusReconcile
  unchanged : DexieStatusReconcile

unfoldable pub reconcile_from_dexie_status : ℤ → DexieStatusReconcile
reconcile_from_dexie_status status =
    if eqb_ℤ status dexie_status_confirmed
    then apply_signal OfferSignal.tx_confirmed
    else if eqb_ℤ status dexie_status_expired
    then apply_signal OfferSignal.expired
    else if eqb_ℤ status dexie_status_cancelled
    then cancelled
    else unchanged

unfoldable pub is_dexie_pattern_fallback_status : ℤ → Bool
is_dexie_pattern_fallback_status status =
    eqb_ℤ status dexie_status_confirmed || eqb_ℤ status dexie_status_active
