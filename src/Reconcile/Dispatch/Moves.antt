-- ===== src/Reconcile/Dispatch/Moves.antt =====
-- greenfloor-engine/src/cycle/reconcile/dispatch.rs: no move without its evidence.
use greenfloor.Common.{◌≡◌, refl, ◌≢◌, ◌⊎◌, Bool, true, false, Option, none, some, arith}
use greenfloor.Common.Int.{ℤ, eqb_ℤ-iff}
use greenfloor.Lifecycle.{OfferLifecycleState, OfferSignal, apply_open_signal, apply_offer_signal}
use greenfloor.Dexie.{dexie_status_cancelled, dexie_status_confirmed, dexie_status_expired}
use greenfloor.Reconcile.State.{
  ReconcileState, lifecycle, cancelled, is_terminal, is_cancelled, from_open_signal,
}
use greenfloor.Reconcile.Signals.{CoinsetSignalSummary}
use greenfloor.Reconcile.Transition.{
  ReconcileTransition, transition_from_dexie_status, dexie_fallback_transition, requeues,
}
use greenfloor.Reconcile.Dispatch.{apply_watched_offer_dispatch}

-- What an offer under watch may become, and the evidence that each move needs.
pub data Move (coinset : CoinsetSignalSummary) (status : Option ℤ) (current : ReconcileState)
    : ReconcileState → Type 0 where
  keep : Move coinset status current current
  observe :
      coinset.has_mempool ≡ true
      → is_terminal current ≡ false
      → Move coinset status current (lifecycle OfferLifecycleState.mempool_observed)
  confirm :
      ((coinset.has_confirmed ≡ true)
          × (status ≢ some dexie_status_cancelled)
          × (is_cancelled current ≡ false))
        ⊎ (status ≡ some dexie_status_confirmed)
      → Move coinset status current (lifecycle OfferLifecycleState.tx_block_confirmed)
  expire :
      status ≡ some dexie_status_expired
      → Move coinset status current (lifecycle OfferLifecycleState.expired)
  cancel : status ≡ some dexie_status_cancelled → Move coinset status current cancelled

from_open_mempool_seen :
    from_open_signal OfferSignal.mempool_seen ≡ lifecycle OfferLifecycleState.mempool_observed
unfolding from_open_signal apply_open_signal apply_offer_signal
from_open_mempool_seen = refl

dexie-Move :
    (coinset : CoinsetSignalSummary) (code : ℤ) (current : ReconcileState)
    → Move coinset (some code) current (transition_from_dexie_status code current).new_state
unfolding transition_from_dexie_status dexie_fallback_transition from_open_signal apply_open_signal
    apply_offer_signal
dexie-Move coinset code current = grind (
  arith,
  keep,
  confirm,
  expire,
  cancel,
  eqb_ℤ-iff code dexie_status_confirmed,
  eqb_ℤ-iff code dexie_status_expired,
  eqb_ℤ-iff code dexie_status_cancelled,
)

-- The dispatch moves an offer only on evidence: to `mempool_observed` from a state that is not
-- terminal when a spend is in the mempool, to `tx_block_confirmed` when a spend is confirmed on
-- the chain while neither the venue nor the record says cancelled, or when the venue says
-- confirmed, to `expired` or `cancelled` when the venue says so.
pub dispatch-Move :
    (coinset : CoinsetSignalSummary) (status : Option ℤ) (current : ReconcileState)
    → Move coinset status current (apply_watched_offer_dispatch coinset status current).new_state
unfolding apply_watched_offer_dispatch
dispatch-Move coinset none current = grind (arith, keep, observe, confirm)
dispatch-Move coinset (some code) current =
    grind (arith, keep, observe, confirm, dexie-Move coinset code current)

-- The states at which the cycle runs again at once.
abbrev pub is_ended : ReconcileState → Bool
is_ended (lifecycle OfferLifecycleState.tx_block_confirmed) = true
is_ended (lifecycle OfferLifecycleState.expired) = true
is_ended _ = false

-- The transition leaves the state, or its signal tells whether the new state is an end.
abbrev pub Signalled : ReconcileState → ReconcileTransition → Type 0
Signalled current t = (t.new_state ≡ current) ⊎ (requeues t.signal ≡ is_ended t.new_state)

pub dexie-Signalled :
    (code : ℤ) (current : ReconcileState)
    → Signalled current (transition_from_dexie_status code current)
unfolding transition_from_dexie_status dexie_fallback_transition from_open_signal apply_open_signal
    apply_offer_signal
dexie-Signalled code current = ground arith

pub dispatch-Signalled :
    (coinset : CoinsetSignalSummary) (status : Option ℤ) (current : ReconcileState)
    → Signalled current (apply_watched_offer_dispatch coinset status current)
unfolding apply_watched_offer_dispatch apply_open_signal apply_offer_signal
dispatch-Signalled coinset none current = ground arith
dispatch-Signalled coinset (some code) current = ground (arith, dexie-Signalled code current)
