-- ===== src/Reconcile/Transition.antt =====
-- greenfloor-engine/src/cycle/reconcile/transition.rs and builders.rs: transitions and how they
-- are built.
use greenfloor.Common.{Bool, true, false, ◌&&◌, List, [], ◌++◌, Option, none, some, if◌then◌else◌}
use greenfloor.Common.Int.{ℤ}
use greenfloor.Common.Str.{Str, codes}
use greenfloor.Lifecycle.{OfferSignal}
use greenfloor.Dexie.{
  DexieStatusReconcile, apply_signal, reconcile_from_dexie_status, is_dexie_pattern_fallback_status,
}
use greenfloor.Reconcile.State.{
  ReconcileState, ReconcileState-discrete, cancelled, unsupported_venue as unsupported_venue_state,
  from_open_signal,
}
use greenfloor.Reconcile.Metadata

pub record CycleOfferTransition : Type 0 where
  pub old_state : ReconcileState
  pub new_state : ReconcileState
  pub reason : Str
  pub signal_source : Str
  pub signal : Option OfferSignal
  pub changed : Bool
  pub immediate_requeue : Bool
  pub taker_signal : Str
  pub taker_diagnostic : Str
  pub coinset_tx_ids : List Str
  pub coinset_confirmed_tx_ids : List Str
  pub coinset_mempool_tx_ids : List Str

pub record ReconcileTransition : Type 0 where
  pub new_state : ReconcileState
  pub reason : Str
  pub signal_source : Str
  pub signal : Option OfferSignal
  pub taker_signal : Str
  pub taker_diagnostic : Str

-- `ReconcileTransition::new`.
abbrev pub new : ReconcileState → Str → Str → Option OfferSignal → Str → Str → ReconcileTransition
new new_state reason signal_source signal taker_signal taker_diagnostic = record {
  new_state = new_state;
  reason = reason;
  signal_source = signal_source;
  signal = signal;
  taker_signal = taker_signal;
  taker_diagnostic = taker_diagnostic;
}

-- `old_state != self.new_state`.
abbrev pub differs : ReconcileState → ReconcileState → Bool
differs a b = elim (ReconcileState-discrete a b) [ yes _ ↦ false | no _ ↦ true ]

-- The `matches!` of `immediate_requeue`.
abbrev pub requeues : Option OfferSignal → Bool
requeues (some OfferSignal.tx_confirmed) = true
requeues (some OfferSignal.expired) = true
requeues _ = false

unfoldable pub immediate_requeue : ReconcileTransition → Bool → Bool
immediate_requeue t changed = changed && requeues t.signal

unfoldable pub into_cycle_transition :
    ReconcileTransition → ReconcileState → List Str → List Str → List Str → CycleOfferTransition
unfolding immediate_requeue
into_cycle_transition t old_state tx_ids confirmed_tx_ids mempool_tx_ids =
    let changed = differs old_state t.new_state in
    record {
      old_state = old_state;
      new_state = t.new_state;
      reason = t.reason;
      signal_source = t.signal_source;
      signal = if changed then t.signal else none;
      changed = changed;
      immediate_requeue = immediate_requeue t changed;
      taker_signal = t.taker_signal;
      taker_diagnostic = t.taker_diagnostic;
      coinset_tx_ids = tx_ids;
      coinset_confirmed_tx_ids = confirmed_tx_ids;
      coinset_mempool_tx_ids = mempool_tx_ids;
    }

unfoldable pub into_cycle_transition_no_coinset :
    ReconcileTransition → ReconcileState → CycleOfferTransition
unfolding into_cycle_transition
into_cycle_transition_no_coinset t old_state = into_cycle_transition t old_state [] [] []

unfoldable pub preserve_state : ReconcileState → Str → ReconcileTransition
preserve_state current_state reason =
    new current_state reason Metadata.signal_source_none none Metadata.taker_none
      Metadata.taker_none

unfoldable pub open_signal_transition : OfferSignal → Str → Str → Str → Str → ReconcileTransition
unfolding from_open_signal
open_signal_transition signal reason signal_source taker_signal taker_diagnostic =
    new (from_open_signal signal) reason signal_source (some signal) taker_signal taker_diagnostic

unfoldable pub dexie_fallback_transition :
    ReconcileState → Option OfferSignal → Str → ReconcileTransition
dexie_fallback_transition new_state signal taker_diagnostic =
    new new_state Metadata.reason_ok Metadata.signal_source_dexie_status_fallback signal
      Metadata.taker_none taker_diagnostic

-- The match of `transition_from_dexie_status`.
dexie_arm : DexieStatusReconcile → ReconcileState → Str → ReconcileTransition
unfolding dexie_fallback_transition from_open_signal
dexie_arm DexieStatusReconcile.cancelled unchanged_state taker_diagnostic =
    dexie_fallback_transition cancelled none taker_diagnostic
dexie_arm (apply_signal signal) unchanged_state taker_diagnostic =
    dexie_fallback_transition (from_open_signal signal) (some signal) taker_diagnostic
dexie_arm DexieStatusReconcile.unchanged unchanged_state taker_diagnostic =
    dexie_fallback_transition unchanged_state none taker_diagnostic

unfoldable pub transition_from_dexie_status : ℤ → ReconcileState → ReconcileTransition
unfolding dexie_arm reconcile_from_dexie_status is_dexie_pattern_fallback_status
transition_from_dexie_status status unchanged_state =
    dexie_arm (reconcile_from_dexie_status status) unchanged_state (
      if is_dexie_pattern_fallback_status status
      then Metadata.taker_diagnostic_dexie_pattern_fallback
      else Metadata.taker_none)

unfoldable pub cancel_tx_chain_confirmed_transition : ReconcileTransition
cancel_tx_chain_confirmed_transition =
    new cancelled Metadata.reason_cancel_tx_chain_confirmed Metadata.signal_source_cancel_tx_chain
      none Metadata.taker_none Metadata.taker_diagnostic_cancel_tx_chain_confirmed

unfoldable pub preserve_mempool_observation : ReconcileState → ReconcileTransition
preserve_mempool_observation current_state =
    new current_state Metadata.reason_coinset_mempool Metadata.signal_source_coinset_mempool none
      Metadata.taker_none Metadata.taker_diagnostic_coinset_mempool

unfoldable pub unchanged : ReconcileState → Str → ReconcileTransition
unchanged current_state reason =
    new current_state reason Metadata.signal_source_none none Metadata.taker_none
      Metadata.taker_none

unfoldable pub unsupported_venue : Str → ReconcileTransition
unsupported_venue venue =
    new unsupported_venue_state (codes "unsupported_venue:" ++ venue) Metadata.signal_source_none
      none Metadata.taker_none Metadata.taker_none

unfoldable pub missing_watched_offer_preserved : ReconcileState → ReconcileTransition
missing_watched_offer_preserved current_state =
    new current_state Metadata.reason_dexie_offer_not_found_preserved_terminal
      Metadata.signal_source_dexie_get_offer_404 none Metadata.taker_none Metadata.taker_none

unfoldable pub missing_watched_offer_expired : ReconcileTransition
unfolding from_open_signal
missing_watched_offer_expired =
    new (from_open_signal OfferSignal.expired) Metadata.reason_dexie_offer_not_found
      Metadata.signal_source_dexie_get_offer_404 (some OfferSignal.expired) Metadata.taker_none
      Metadata.taker_none
