-- ===== src/Reconcile/Signals.antt =====
-- greenfloor-engine/src/cycle/reconcile/coinset_signals.rs: what the chain says of an offer.
pub mod Exclusion
use greenfloor.Common.{
  Bool, true, false, ◌&&◌, ◌||◌, not, List, [], ◌∷◌, Option, none, some, if◌then◌else◌, keep,
  keep_map, is_empty,
}
use greenfloor.Common.Int.{ℤ}
use greenfloor.Common.Str.{Str, codes, str_eq}
use greenfloor.Common.Result.{Result, ok, err}
use greenfloor.Hex.{canonical_tx_id}
use greenfloor.Dexie.{dexie_status_cancelled, dexie_status_confirmed, dexie_status_expired}

pub data MakerHit : Type 0 where
  no_hit mempool confirmed : MakerHit

abbrev is_no_hit : MakerHit → Bool
is_no_hit no_hit = true
is_no_hit _ = false

abbrev pub is_mempool : MakerHit → Bool
is_mempool mempool = true
is_mempool _ = false

abbrev pub is_confirmed : MakerHit → Bool
is_confirmed confirmed = true
is_confirmed _ = false

pub record CoinsetTxSignals : Type 0 where
  pub tx_ids : List Str
  pub confirmed_tx_ids : List Str
  pub mempool_tx_ids : List Str
  pub maker_hit : MakerHit

-- `CoinsetTxSignals::default()`.
abbrev pub no_signals : CoinsetTxSignals
no_signals = record { tx_ids = []; confirmed_tx_ids = []; mempool_tx_ids = []; maker_hit = no_hit }

unfoldable pub watch_hit : CoinsetTxSignals
watch_hit = record no_signals { maker_hit = mempool }

unfoldable pub confirmed_watch : List Str → CoinsetTxSignals
confirmed_watch tx_ids =
    let ids = keep_map canonical_tx_id tx_ids in
    record { tx_ids = ids; confirmed_tx_ids = ids; mempool_tx_ids = []; maker_hit = confirmed }

-- `Option<String>` against `Some(cancel)`.
abbrev pub is_id : Str → Option Str → Bool
is_id id none = false
is_id id (some other) = str_eq other id

-- The closure `drop_cancel`.
abbrev pub drop_cancel : Str → List Str → List Str
drop_cancel cancel ids = keep (λ id. not (is_id cancel (canonical_tx_id id))) ids

-- `excluding_cancel_tx` once the id of the cancel is canonical, or absent.
unfoldable pub excluding_canonical : CoinsetTxSignals → Option Str → CoinsetTxSignals
excluding_canonical signals none = signals
excluding_canonical signals (some cancel) = record {
  tx_ids = drop_cancel cancel signals.tx_ids;
  confirmed_tx_ids = drop_cancel cancel signals.confirmed_tx_ids;
  mempool_tx_ids = drop_cancel cancel signals.mempool_tx_ids;
  maker_hit = signals.maker_hit;
}

-- `Option::and_then(canonical_tx_id)`.
abbrev pub canonical_option : Option Str → Option Str
canonical_option none = none
canonical_option (some id) = canonical_tx_id id

unfoldable pub excluding_cancel_tx : CoinsetTxSignals → Option Str → CoinsetTxSignals
unfolding excluding_canonical
excluding_cancel_tx signals cancel_tx_id =
    excluding_canonical signals (canonical_option cancel_tx_id)

unfoldable pub is_unattributed_maker_hit : CoinsetTxSignals → Bool
is_unattributed_maker_hit s =
    not (is_no_hit s.maker_hit)
    && is_empty s.tx_ids
    && is_empty s.confirmed_tx_ids
    && is_empty s.mempool_tx_ids

pub record CoinsetSignalSummary : Type 0 where
  pub has_tx_ids : Bool
  pub has_confirmed : Bool
  pub has_mempool : Bool
  pub maker_hit : MakerHit

-- `CoinsetSignalSummary::default()`.
abbrev pub no_summary : CoinsetSignalSummary
no_summary = record {
  has_tx_ids = false;
  has_confirmed = false;
  has_mempool = false;
  maker_hit = no_hit;
}

unfoldable pub summary : CoinsetTxSignals → CoinsetSignalSummary
summary s = record {
  has_tx_ids = not (is_empty s.tx_ids);
  has_confirmed = not (is_empty s.confirmed_tx_ids) || is_confirmed s.maker_hit;
  has_mempool = not (is_empty s.mempool_tx_ids) || is_mempool s.maker_hit;
  maker_hit = s.maker_hit;
}

unfoldable pub from_tx_lists : List Str → List Str → List Str → CoinsetSignalSummary
from_tx_lists tx_ids confirmed_tx_ids mempool_tx_ids = record {
  has_tx_ids = not (is_empty tx_ids);
  has_confirmed = not (is_empty confirmed_tx_ids);
  has_mempool = not (is_empty mempool_tx_ids);
  maker_hit = no_hit;
}

unfoldable pub is_pure_watch_hit : CoinsetSignalSummary → Bool
is_pure_watch_hit s = is_mempool s.maker_hit && not s.has_tx_ids && not s.has_confirmed

unfoldable pub has_coinset_activity : CoinsetSignalSummary → Bool
has_coinset_activity s = s.has_tx_ids || s.has_confirmed || s.has_mempool

pub data CancelSubmitNonAttributable : Type 0 where
  mempool_maker_hit confirmed_maker_hit cancel_tx_mempool : CancelSubmitNonAttributable

-- The match on the maker hit of the stripped signals.
abbrev unattributed_kind : MakerHit → CancelSubmitNonAttributable
unattributed_kind confirmed = confirmed_maker_hit
unattributed_kind mempool = mempool_maker_hit
unattributed_kind no_hit = mempool_maker_hit

unfoldable pub cancel_submit_taker_signals :
    CoinsetTxSignals → Option Str → Result CoinsetSignalSummary CancelSubmitNonAttributable
unfolding summary excluding_cancel_tx is_unattributed_maker_hit has_coinset_activity
cancel_submit_taker_signals signals cancel_tx_id =
    let original = summary signals in
    let stripped_signals = excluding_cancel_tx signals cancel_tx_id in
    let stripped = summary stripped_signals in
    if is_unattributed_maker_hit stripped_signals
    then err (unattributed_kind stripped_signals.maker_hit)
    else if has_coinset_activity original
        && not original.has_confirmed
        && not (has_coinset_activity stripped)
    then err cancel_tx_mempool
    else ok stripped

-- `tx_id.map(str::to_string).into_iter().collect()`.
abbrev option_list : Option Str → List Str
option_list none = []
option_list (some id) = id ∷ []

unfoldable pub signals_from_ws_offer_status :
    Str → Option Str → Option (Option ℤ × CoinsetTxSignals)
signals_from_ws_offer_status status tx_id =
    if str_eq status (codes "confirmed")
    then some (
      some dexie_status_confirmed,
      record {
        tx_ids = option_list tx_id;
        confirmed_tx_ids = option_list tx_id;
        mempool_tx_ids = [];
        maker_hit = no_hit;
      },
    )
    else if str_eq status (codes "expired")
    then some (some dexie_status_expired, no_signals)
    else if str_eq status (codes "cancelled")
    then some (some dexie_status_cancelled, no_signals)
    else none
