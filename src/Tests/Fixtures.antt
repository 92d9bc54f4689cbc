-- ===== src/Tests/Fixtures.antt =====
-- Inputs that the tests share.
use greenfloor.Common.{ℕ, [], ◌∷◌, none, some, replicate, length}
use greenfloor.Common.Int.{sub_ℕ}
use greenfloor.Common.Str.{Str, codes}
use greenfloor.Reconcile.Signals.{CoinsetTxSignals, MakerHit}
use greenfloor.Reconcile.CancelSubmitted.Context.{Chrono, OfferStateListRow, CancelSubmittedContext}

-- A clock in seconds, where a stamp of n letters stands for the time n.
abbrev pub seconds : Chrono ℕ
seconds = record { parse_from_rfc3339 = λ raw. some (length raw); num_seconds_since = sub_ℕ }

abbrev pub cancel_id : Str
cancel_id = replicate 64 b'a'

abbrev pub other_id : Str
other_id = replicate 64 b'b'

-- A cancellation that was submitted at the time 1, and is not confirmed.
abbrev pub submitted : CancelSubmittedContext
submitted = record {
  cancel_tx_id = some cancel_id;
  cancel_tx_signal = none;
  cancel_submitted_at = some (codes "t");
}

-- Only the spend of the cancellation is in the mempool.
abbrev pub own_spend : CoinsetTxSignals
own_spend = record {
  tx_ids = cancel_id ∷ [];
  confirmed_tx_ids = [];
  mempool_tx_ids = cancel_id ∷ [];
  maker_hit = MakerHit.no_hit;
}

abbrev pub row : OfferStateListRow
row = record {
  offer_id = codes "offer";
  market_id = codes "market";
  state = codes "cancel_submitted";
  last_seen_status = none;
  updated_at = codes "t";
  cancel_submitted_tx_id = some cancel_id;
  cancel_submitted_at = some (codes "t");
  publish_venue = none;
}
