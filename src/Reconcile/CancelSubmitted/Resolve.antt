-- ===== src/Reconcile/CancelSubmitted/Resolve.antt =====
-- greenfloor-engine/src/cycle/reconcile/cancel_submitted_policy/mod.rs: what becomes of an
-- offer in `cancel_submitted`.
use greenfloor.Common.{Bool, false, ◌&&◌, List, Option, none, some, if◌then◌else◌}
use greenfloor.Common.Int.{ℤ, eqb_ℤ}
use greenfloor.Common.Str.{Str}
use greenfloor.Common.Dict.{str_key}
use greenfloor.Common.Result.{Result, ok, err}
use greenfloor.Reconcile.State.{lifecycle, cancel_submitted}
use greenfloor.Lifecycle.{OfferLifecycleState}
use greenfloor.Dexie.{dexie_status_cancelled, dexie_status_open}
use greenfloor.Reconcile.Signals.{
  CoinsetTxSignals, CoinsetSignalSummary, no_summary, has_coinset_activity,
  CancelSubmitNonAttributable, mempool_maker_hit, confirmed_maker_hit, cancel_tx_mempool,
  cancel_submit_taker_signals,
}
use greenfloor.Reconcile.Dispatch.{apply_coinset_taker_dispatch_if_present}
use greenfloor.Reconcile.Transition.{
  ReconcileTransition, new, preserve_state, transition_from_dexie_status,
  cancel_tx_chain_confirmed_transition,
}
use greenfloor.Reconcile.Metadata
use greenfloor.Reconcile.CancelSubmitted.Context.{
  Chrono, CancelSubmittedContext, cancel_tx_chain_confirmed, cancel_submit_within_grace,
  cancel_submit_stale_reset_eligible,
}

unfoldable pub non_attributable_reason : CancelSubmitNonAttributable → Str
non_attributable_reason mempool_maker_hit = Metadata.reason_cancel_submit_watch_hit_ignored
non_attributable_reason confirmed_maker_hit =
    Metadata.reason_cancel_submit_confirmed_maker_hit_ignored
non_attributable_reason cancel_tx_mempool = Metadata.reason_cancel_submit_cancel_tx_mempool_ignored

-- `dexie_status == Some(code)`.
abbrev pub is_status : Option ℤ → ℤ → Bool
is_status none code = false
is_status (some status) code = eqb_ℤ status code

stale_reset : ReconcileTransition
stale_reset =
    new (lifecycle OfferLifecycleState.«open») Metadata.reason_cancel_submit_stale_orphan
      Metadata.signal_source_none none Metadata.taker_none Metadata.taker_none

-- The arms for an absent status.
abbrev without_status : Bool → Bool → ReconcileTransition
without_status activity eligible =
    if activity
    then preserve_state cancel_submitted Metadata.reason_coinset_unavailable
    else if eligible
    then stale_reset
    else preserve_state cancel_submitted Metadata.reason_missing_status

-- The arms for a status.
abbrev with_status : ℤ → Bool → ReconcileTransition
with_status status eligible =
    if eqb_ℤ status dexie_status_open && eligible
    then stale_reset
    else transition_from_dexie_status status cancel_submitted

-- A taker transition, if there is one, or else the fallback by the status.
abbrev taker_or : Option ReconcileTransition → ReconcileTransition → ReconcileTransition
taker_or (some taker) fallback = taker
taker_or none fallback = fallback

module _ {Instant : Type 0} (chrono : Chrono Instant) where
  unfoldable pub cancel_submitted_status_fallback_transition :
      Option ℤ
      → CoinsetSignalSummary
      → CancelSubmittedContext
      → Instant
      → List Str
      → ReconcileTransition
  unfolding stale_reset preserve_state transition_from_dexie_status has_coinset_activity
  cancel_submitted_status_fallback_transition none summary ctx now chain_confirmed_tx_ids =
      without_status (has_coinset_activity summary)
        (cancel_submit_stale_reset_eligible chrono ctx now chain_confirmed_tx_ids)
  cancel_submitted_status_fallback_transition (some status) summary ctx now chain_confirmed_tx_ids =
      with_status status (cancel_submit_stale_reset_eligible chrono ctx now chain_confirmed_tx_ids)

  -- `resolve_cancel_submitted_transition` from the summary on.
  unfoldable pub resolve_with_summary :
      Option ℤ
      → CoinsetSignalSummary
      → List Str
      → CancelSubmittedContext
      → Instant
      → ReconcileTransition
  unfolding apply_coinset_taker_dispatch_if_present cancel_submitted_status_fallback_transition
  resolve_with_summary dexie_status summary chain_confirmed_tx_ids ctx now =
      taker_or (apply_coinset_taker_dispatch_if_present summary dexie_status cancel_submitted) (
        cancel_submitted_status_fallback_transition dexie_status summary ctx now
          chain_confirmed_tx_ids)

  -- The match on the taker signals.
  unfoldable pub resolve_taker_signals :
      Result CoinsetSignalSummary CancelSubmitNonAttributable
      → Option ℤ
      → List Str
      → CancelSubmittedContext
      → Instant
      → ReconcileTransition
  unfolding preserve_state non_attributable_reason resolve_with_summary
  resolve_taker_signals (err confirmed_maker_hit) dexie_status chain_confirmed_tx_ids ctx now =
      preserve_state cancel_submitted (non_attributable_reason confirmed_maker_hit)
  resolve_taker_signals (err kind) dexie_status chain_confirmed_tx_ids ctx now =
      if cancel_submit_within_grace chrono ctx now
      then preserve_state cancel_submitted (non_attributable_reason kind)
      else resolve_with_summary dexie_status no_summary chain_confirmed_tx_ids ctx now
  resolve_taker_signals (ok summary) dexie_status chain_confirmed_tx_ids ctx now =
      resolve_with_summary dexie_status summary chain_confirmed_tx_ids ctx now

  unfoldable pub resolve_cancel_submitted_transition :
      Option ℤ
      → CoinsetTxSignals
      → List Str
      → CancelSubmittedContext
      → Instant
      → ReconcileTransition
  unfolding resolve_taker_signals cancel_tx_chain_confirmed_transition transition_from_dexie_status
  resolve_cancel_submitted_transition dexie_status signals chain_confirmed_tx_ids ctx now =
      if cancel_tx_chain_confirmed ctx chain_confirmed_tx_ids
      then cancel_tx_chain_confirmed_transition
      else if is_status dexie_status dexie_status_cancelled
      then transition_from_dexie_status dexie_status_cancelled cancel_submitted
      else resolve_taker_signals (cancel_submit_taker_signals signals ctx.cancel_tx_id) dexie_status
          chain_confirmed_tx_ids ctx now
