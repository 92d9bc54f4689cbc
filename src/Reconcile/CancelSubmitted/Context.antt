-- ===== src/Reconcile/CancelSubmitted/Context.antt =====
-- greenfloor-engine/src/cycle/reconcile/cancel_submitted_policy/mod.rs: the rows it reads
-- and the time of grace after the submission.
use greenfloor.Common.{
  Bool, true, false, ◌&&◌, not, List, Option, none, some, if◌then◌else◌, any, keep_map, is_empty,
  is_some,
}
use greenfloor.Common.Int.{ℤ, pos, ltb_ℤ}
use greenfloor.Common.Str.{Str, trim}
use greenfloor.Common.Dict.{Dict, lookup, str_key}
use greenfloor.Hex.{canonical_tx_id}
use greenfloor.Reconcile.Signals.{canonical_option, is_id}

-- The calls of the chrono crate: reading a time stamp, and the whole seconds from a time to
-- another, `(now - parsed).num_seconds()`.
pub record Chrono (Instant : Type 0) : Type 0 where
  pub parse_from_rfc3339 : Str → Option Instant
  pub num_seconds_since : Instant → Instant → ℤ

-- storage/sqlite/mod.rs.
pub record TxSignalStateRow : Type 0 where
  pub mempool_observed_at : Option Str
  pub tx_block_confirmed_at : Option Str

pub record OfferStateListRow : Type 0 where
  pub offer_id : Str
  pub market_id : Str
  pub state : Str
  pub last_seen_status : Option ℤ
  pub updated_at : Str
  pub cancel_submitted_tx_id : Option Str
  pub cancel_submitted_at : Option Str
  pub publish_venue : Option Str

pub record CancelSubmittedContext : Type 0 where
  pub cancel_tx_id : Option Str
  pub cancel_tx_signal : Option TxSignalStateRow
  pub cancel_submitted_at : Option Str

abbrev pub cancel_submit_tracking_grace_secs : ℤ
cancel_submit_tracking_grace_secs = pos 300

-- The row of an id that is canonical, if there is one.
abbrev signal_of : Option Str → Dict Str TxSignalStateRow → Option TxSignalStateRow
signal_of none signals = none
signal_of (some id) signals = lookup id signals

unfoldable pub from_row_and_signals :
    OfferStateListRow → Dict Str TxSignalStateRow → CancelSubmittedContext
from_row_and_signals row signals = record {
  cancel_tx_id = row.cancel_submitted_tx_id;
  cancel_tx_signal = signal_of (canonical_option row.cancel_submitted_tx_id) signals;
  cancel_submitted_at = row.cancel_submitted_at;
}

abbrev confirmed_key : Str × TxSignalStateRow → Option Str
confirmed_key (tx_id, row) = if is_some row.tx_block_confirmed_at then some tx_id else none

unfoldable pub chain_confirmed_tx_ids_from_signals : Dict Str TxSignalStateRow → List Str
chain_confirmed_tx_ids_from_signals signals = keep_map confirmed_key signals

abbrev signal_confirmed : Option TxSignalStateRow → Bool
signal_confirmed none = false
signal_confirmed (some signal) = is_some signal.tx_block_confirmed_at

-- The search of the canonical id of the cancel among the confirmed ids.
abbrev pub is_confirmed_id : Option Str → List Str → Bool
is_confirmed_id none ids = false
is_confirmed_id (some cancel) ids = any (λ id. is_id cancel (canonical_tx_id id)) ids

unfoldable pub cancel_tx_chain_confirmed : CancelSubmittedContext → List Str → Bool
cancel_tx_chain_confirmed ctx chain_confirmed_tx_ids =
    if signal_confirmed ctx.cancel_tx_signal
    then true
    else is_confirmed_id (canonical_option ctx.cancel_tx_id) chain_confirmed_tx_ids

-- `Option::or_else` on the time of the mempool observation.
abbrev or_observed : Option Str → Option TxSignalStateRow → Option Str
or_observed (some at) signal = some at
or_observed none none = none
or_observed none (some signal) = signal.mempool_observed_at

unfoldable pub cancel_submit_grace_anchor : CancelSubmittedContext → Option Str
cancel_submit_grace_anchor ctx = or_observed ctx.cancel_submitted_at ctx.cancel_tx_signal

module _ {Instant : Type 0} (chrono : Chrono Instant) where
  -- `cancel_submit_within_grace_at` on a trimmed text that is not empty.
  within_grace_of : Option Instant → Instant → Bool
  within_grace_of none now = false
  within_grace_of (some parsed) now =
      ltb_ℤ (chrono.num_seconds_since now parsed) cancel_submit_tracking_grace_secs

  unfoldable pub cancel_submit_within_grace_at : Option Str → Instant → Bool
  unfolding within_grace_of
  cancel_submit_within_grace_at none now = false
  cancel_submit_within_grace_at (some raw) now =
      if is_empty (trim raw)
      then false
      else within_grace_of (chrono.parse_from_rfc3339 (trim raw)) now

  unfoldable pub cancel_submit_within_grace : CancelSubmittedContext → Instant → Bool
  unfolding cancel_submit_within_grace_at cancel_submit_grace_anchor
  cancel_submit_within_grace ctx now =
      cancel_submit_within_grace_at (cancel_submit_grace_anchor ctx) now

  unfoldable pub is_cancel_submit_in_flight : CancelSubmittedContext → Instant → List Str → Bool
  is_cancel_submit_in_flight ctx now chain_confirmed_tx_ids =
      not (cancel_tx_chain_confirmed ctx chain_confirmed_tx_ids)
      && cancel_submit_within_grace ctx now

  unfoldable pub cancel_submit_stale_reset_eligible :
      CancelSubmittedContext → Instant → List Str → Bool
  cancel_submit_stale_reset_eligible ctx now chain_confirmed_tx_ids =
      not (cancel_tx_chain_confirmed ctx chain_confirmed_tx_ids)
      && not (cancel_submit_within_grace ctx now)
