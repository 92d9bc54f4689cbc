-- ===== src/Reconcile/CancelSubmitted/Deferral.antt =====
-- greenfloor-engine/src/cycle/reconcile/cancel_submitted_policy/mod.rs: an offer whose cancellation
-- is in flight is not cancelled again, nor opened again.
use greenfloor.Common.{
  ◌≡◌, refl, ap, ◌∙◌, ◌≢◌, Bool, true, ◌&&◌, not, List, [], ◌∷◌, Option, arith, any, keep_map,
}
use greenfloor.Common.Int.{ℤ}
use greenfloor.Common.Str.{Str, str_eq, any-kept}
use greenfloor.Common.Dict.{Dict}
use greenfloor.Lifecycle.{OfferLifecycleState}
use greenfloor.Reconcile.State.{parse, lifecycle}
use greenfloor.Reconcile.Signals.{CoinsetTxSignals}
use greenfloor.Reconcile.CancelSubmitted.Context.{
  Chrono, TxSignalStateRow, OfferStateListRow, CancelSubmittedContext, from_row_and_signals,
  chain_confirmed_tx_ids_from_signals, is_cancel_submit_in_flight,
  cancel_submit_stale_reset_eligible,
}
use greenfloor.Reconcile.CancelSubmitted.Targets.{
  row_cancel_submitted, blank_option, defer_target, allowed_cancel_target_offer_ids,
}
use greenfloor.Reconcile.CancelSubmitted.Exits.{resolved, is_stale_orphan, reopened_iff}

module _ {Instant : Type 0} (chrono : Chrono Instant) where
  -- The row is of the offer, in `cancel_submitted`, with a transaction that is in flight.
  abbrev pub is_deferred_by : Dict Str TxSignalStateRow → Instant → Str → OfferStateListRow → Bool
  is_deferred_by tx_signals now id row =
      str_eq id row.offer_id
      && row_cancel_submitted (parse row.state)
      && not (blank_option row.cancel_submitted_tx_id)
      && is_cancel_submit_in_flight chrono (from_row_and_signals row tx_signals) now
          (chain_confirmed_tx_ids_from_signals tx_signals)

  deferred_rows :
      (tx_signals : Dict Str TxSignalStateRow) (now : Instant) (id : Str)
      (rows : List OfferStateListRow)
      → any (str_eq id) (
          keep_map
            (defer_target chrono tx_signals (chain_confirmed_tx_ids_from_signals tx_signals) now)
            rows)
        ≡ any (is_deferred_by tx_signals now id) rows
  unfolding defer_target
  deferred_rows tx_signals now id [] = refl
  deferred_rows tx_signals now id (row ∷ rows) =
      ground (arith, deferred_rows tx_signals now id rows)

  -- An offer may be cancelled again exactly when it was asked for and no row shows its
  -- cancellation in flight.
  pub allowed_iff :
      (offer_ids : List Str) (rows : List OfferStateListRow)
      (tx_signals : Dict Str TxSignalStateRow) (now : Instant) (id : Str)
      → any (str_eq id) (allowed_cancel_target_offer_ids chrono offer_ids rows tx_signals now)
        ≡ (any (str_eq id) offer_ids && not (any (is_deferred_by tx_signals now id) rows))
  unfolding allowed_cancel_target_offer_ids
  allowed_iff offer_ids rows tx_signals now id =
      any-kept offer_ids id _
      ∙ ap (λ deferred. any (str_eq id) offer_ids && not deferred)
          (deferred_rows tx_signals now id rows)

  stale_not_in_flight :
      (status : Option ℤ) (signals : CoinsetTxSignals) (ids : List Str)
      (ctx : CancelSubmittedContext) (now : Instant)
      → is_stale_orphan chrono status signals ids ctx now ≡ true
      → is_cancel_submit_in_flight chrono ctx now ids ≢ true
  unfolding is_cancel_submit_in_flight cancel_submit_stale_reset_eligible
  stale_not_in_flight status signals ids ctx now s f = ground arith

  -- While the cancellation of an offer is in flight no signal and no status opens it again.
  pub in_flight_not_reopened :
      (status : Option ℤ) (signals : CoinsetTxSignals) (ids : List Str)
      (ctx : CancelSubmittedContext) (now : Instant)
      → is_cancel_submit_in_flight chrono ctx now ids ≡ true
      → resolved chrono status signals ids ctx now ≢ lifecycle OfferLifecycleState.«open»
  in_flight_not_reopened status signals ids ctx now h e =
      stale_not_in_flight status signals ids ctx now
        ((reopened_iff chrono status signals ids ctx now).0 e) h
