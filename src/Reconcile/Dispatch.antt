-- ===== src/Reconcile/Dispatch.antt =====
-- greenfloor-engine/src/cycle/reconcile/dispatch.rs: which signal decides.
pub mod Moves
use greenfloor.Common.{Bool, true, false, ◌&&◌, not, Option, none, some, if◌then◌else◌}
use greenfloor.Common.Int.{ℤ, eqb_ℤ}
use greenfloor.Lifecycle.{OfferSignal}
use greenfloor.Dexie.{dexie_status_cancelled}
use greenfloor.Reconcile.State.{ReconcileState, is_terminal, is_cancelled}
use greenfloor.Reconcile.Signals.{CoinsetSignalSummary, has_coinset_activity}
use greenfloor.Reconcile.Transition.{
  ReconcileTransition, preserve_state, open_signal_transition, preserve_mempool_observation,
  transition_from_dexie_status,
}
use greenfloor.Reconcile.Metadata

pub data StatusClass : Type 0 where
  missing unavailable : StatusClass
  known : ℤ → StatusClass

-- `StatusClass::from_option`.
unfoldable pub from_option : Option ℤ → Bool → StatusClass
from_option none true = unavailable
from_option none false = missing
from_option (some code) _ = known code

abbrev known_cancelled : StatusClass → Bool
known_cancelled (known code) = eqb_ℤ code dexie_status_cancelled
known_cancelled _ = false

pub data ReconcileDispatch : Type 0 where
  coinset_confirmed coinset_mempool missing_status coinset_unavailable : ReconcileDispatch
  dexie_fallback : ℤ → ReconcileDispatch

-- The last match of `dispatch`.
abbrev status_dispatch : StatusClass → ReconcileDispatch
status_dispatch missing = missing_status
status_dispatch unavailable = coinset_unavailable
status_dispatch (known code) = dexie_fallback code

unfoldable pub dispatch : CoinsetSignalSummary → StatusClass → ReconcileState → ReconcileDispatch
unfolding is_cancelled
dispatch coinset status current =
    if coinset.has_confirmed && not (known_cancelled status) && not (is_cancelled current)
    then coinset_confirmed
    else if coinset.has_mempool
    then coinset_mempool
    else status_dispatch status

-- `ReconcileDispatch::apply`.
unfoldable pub apply : ReconcileDispatch → ReconcileState → ReconcileTransition
unfolding is_terminal open_signal_transition preserve_mempool_observation preserve_state
    transition_from_dexie_status
apply coinset_confirmed current_state =
    open_signal_transition OfferSignal.tx_confirmed Metadata.reason_coinset_confirmed
      Metadata.signal_source_coinset_websocket Metadata.taker_coinset_tx_block_websocket
      Metadata.taker_diagnostic_coinset_confirmed
apply coinset_mempool current_state =
    if is_terminal current_state
    then preserve_mempool_observation current_state
    else open_signal_transition OfferSignal.mempool_seen Metadata.reason_coinset_mempool
        Metadata.signal_source_coinset_mempool Metadata.taker_none
        Metadata.taker_diagnostic_coinset_mempool
apply missing_status current_state = preserve_state current_state Metadata.reason_missing_status
apply coinset_unavailable current_state =
    preserve_state current_state Metadata.reason_coinset_unavailable
apply (dexie_fallback status) current_state = transition_from_dexie_status status current_state

unfoldable pub apply_watched_offer_dispatch :
    CoinsetSignalSummary → Option ℤ → ReconcileState → ReconcileTransition
unfolding from_option dispatch apply has_coinset_activity
apply_watched_offer_dispatch coinset status current_state =
    apply (dispatch coinset (from_option status (has_coinset_activity coinset)) current_state)
      current_state

-- The match on the selected dispatch.
abbrev taker_only : ReconcileDispatch → ReconcileTransition → Option ReconcileTransition
taker_only coinset_confirmed t = some t
taker_only coinset_mempool t = some t
taker_only _ t = none

unfoldable pub apply_coinset_taker_dispatch_if_present :
    CoinsetSignalSummary → Option ℤ → ReconcileState → Option ReconcileTransition
unfolding from_option dispatch apply has_coinset_activity
apply_coinset_taker_dispatch_if_present coinset dexie_status current_state =
    let selected =
      dispatch coinset (from_option dexie_status (has_coinset_activity coinset)) current_state in
    taker_only selected (apply selected current_state)
