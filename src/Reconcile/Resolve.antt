-- ===== src/Reconcile/Resolve.antt =====
-- greenfloor-engine/src/cycle/reconcile/decision.rs and mod.rs: the transition of an offer.
pub mod Outcomes
use greenfloor.Common.{Bool, true, false, ◌||◌, List, Option, none, some, if◌then◌else◌}
use greenfloor.Common.Int.{ℤ}
use greenfloor.Common.Str.{Str}
use greenfloor.Common.Result.{Result, ok, err, ◌>>=◌}
use greenfloor.Reconcile.State.{
  ReconcileState, ReconcileStateError, cancel_submitted, parse, is_terminal, is_cancel_submitted,
}
use greenfloor.Reconcile.Signals.{CoinsetTxSignals, summary}
use greenfloor.Reconcile.Dispatch.{apply_watched_offer_dispatch}
use greenfloor.Reconcile.Transition.{
  CycleOfferTransition, ReconcileTransition, preserve_state, unchanged, unsupported_venue,
  missing_watched_offer_preserved, missing_watched_offer_expired, into_cycle_transition,
  into_cycle_transition_no_coinset,
}
use greenfloor.Reconcile.CancelSubmitted.Context.{Chrono, CancelSubmittedContext}
use greenfloor.Reconcile.CancelSubmitted.Resolve.{resolve_cancel_submitted_transition}
use greenfloor.Reconcile.Metadata

module _ {Instant : Type 0} (chrono : Chrono Instant) where
  -- The branch of `cancel_submitted`.
  with_context :
      Option CancelSubmittedContext
      → Option ℤ
      → CoinsetTxSignals
      → List Str
      → Instant
      → ReconcileTransition
  unfolding preserve_state
  with_context none status signals chain_confirmed_tx_ids now =
      preserve_state cancel_submitted Metadata.reason_cancel_submit_context_missing
  with_context (some ctx) status signals chain_confirmed_tx_ids now =
      resolve_cancel_submitted_transition chrono status signals chain_confirmed_tx_ids ctx now

  unfoldable pub resolve_watched_offer_decision :
      ReconcileState
      → Option ℤ
      → CoinsetTxSignals
      → List Str
      → Option CancelSubmittedContext
      → Instant
      → ReconcileTransition
  unfolding with_context is_cancel_submitted
  resolve_watched_offer_decision current_state status signals chain_confirmed_tx_ids ctx now =
      if is_cancel_submitted current_state
      then with_context ctx status signals chain_confirmed_tx_ids now
      else apply_watched_offer_dispatch (summary signals) status current_state

  unfoldable pub resolve_watched_offer_transition_from_signals :
      Str
      → Option ℤ
      → CoinsetTxSignals
      → List Str
      → Option CancelSubmittedContext
      → Instant
      → Result CycleOfferTransition ReconcileStateError
  unfolding resolve_watched_offer_decision into_cycle_transition
  resolve_watched_offer_transition_from_signals current_state status signals chain_confirmed ctx
        now =
      do
        old_state ← parse current_state
        ok (
            into_cycle_transition
              (resolve_watched_offer_decision old_state status signals chain_confirmed ctx now)
              old_state signals.tx_ids signals.confirmed_tx_ids signals.mempool_tx_ids)

unfoldable pub unchanged_offer_transition :
    Str → Str → Result CycleOfferTransition ReconcileStateError
unfolding unchanged into_cycle_transition_no_coinset
unchanged_offer_transition current_state reason = do
  old_state ← parse current_state
  ok (into_cycle_transition_no_coinset (unchanged old_state reason) old_state)

unfoldable pub unsupported_venue_offer_transition :
    Str → Str → Result CycleOfferTransition ReconcileStateError
unfolding unsupported_venue into_cycle_transition_no_coinset
unsupported_venue_offer_transition current_state venue = do
  old_state ← parse current_state
  ok (into_cycle_transition_no_coinset (unsupported_venue venue) old_state)

-- The `decision` of `resolve_missing_watched_offer_transition`.
unfoldable pub missing_decision : ReconcileState → ReconcileTransition
unfolding is_terminal is_cancel_submitted missing_watched_offer_preserved
    missing_watched_offer_expired
missing_decision old_state =
    if is_terminal old_state || is_cancel_submitted old_state
    then missing_watched_offer_preserved old_state
    else missing_watched_offer_expired

unfoldable pub resolve_missing_watched_offer_transition :
    Str → Result CycleOfferTransition ReconcileStateError
unfolding missing_decision into_cycle_transition_no_coinset
resolve_missing_watched_offer_transition current_state = do
  old_state ← parse current_state
  ok (into_cycle_transition_no_coinset (missing_decision old_state) old_state)
