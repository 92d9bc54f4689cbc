-- ===== src/Reconcile/CancelSubmitted/Targets.antt =====
-- greenfloor-engine/src/cycle/reconcile/cancel_submitted_policy/mod.rs: which offers may
-- be cancelled again.
use greenfloor.Common.{
  Bool, true, false, not, List, Option, none, some, if◌then◌else◌, any, keep, keep_map, is_empty,
}
use greenfloor.Common.Str.{Str, str_eq, trim}
use greenfloor.Common.Dict.{Dict, str_key}
use greenfloor.Common.Result.{Result, ok, err}
use greenfloor.Reconcile.State.{ReconcileState, ReconcileStateError, parse, is_cancel_submitted}
use greenfloor.Reconcile.CancelSubmitted.Context.{
  Chrono, TxSignalStateRow, OfferStateListRow, from_row_and_signals,
  chain_confirmed_tx_ids_from_signals, is_cancel_submit_in_flight,
}

-- A parsed state that is `cancel_submitted`; no state counts where the text is not one.
abbrev pub row_cancel_submitted : Result ReconcileState ReconcileStateError → Bool
row_cancel_submitted (ok state) = is_cancel_submitted state
row_cancel_submitted (err _) = false

-- `as_deref().map(str::trim).is_none_or(str::is_empty)`.
abbrev pub blank_option : Option Str → Bool
blank_option none = true
blank_option (some raw) = is_empty (trim raw)

module _ {Instant : Type 0} (chrono : Chrono Instant) where
  -- The `filter_map` of `allowed_cancel_target_offer_ids`.
  unfoldable pub defer_target :
      Dict Str TxSignalStateRow → List Str → Instant → OfferStateListRow → Option Str
  defer_target tx_signals chain_confirmed now row =
      if not (row_cancel_submitted (parse row.state))
      then none
      else if blank_option row.cancel_submitted_tx_id
      then none
      else if is_cancel_submit_in_flight chrono (from_row_and_signals row tx_signals) now
          chain_confirmed
      then some row.offer_id
      else none

  unfoldable pub allowed_cancel_target_offer_ids :
      List Str → List OfferStateListRow → Dict Str TxSignalStateRow → Instant → List Str
  allowed_cancel_target_offer_ids offer_ids db_rows tx_signals now =
      let chain_confirmed = chain_confirmed_tx_ids_from_signals tx_signals in
      let defer_targets = keep_map (defer_target tx_signals chain_confirmed now) db_rows in
      keep (λ id. not (any (str_eq id) defer_targets)) offer_ids
