-- ===== src/Reconcile/State.antt =====
-- greenfloor-engine/src/cycle/reconcile/state.rs: the persisted states of an offer.
pub mod Words
use greenfloor.Common.{Bool, true, false, ◌||◌, List, [], ◌∷◌, Option, none, some, if◌then◌else◌}
use greenfloor.Common.Str.{Str, codes, str_eq, trim}
use greenfloor.Common.Result.{Result, ok, err}
use greenfloor.Lifecycle.{OfferLifecycleState, OfferSignal, apply_open_signal}
use greenfloor.Lifecycle

pub data ReconcileState : Type 0 where
  lifecycle : OfferLifecycleState → ReconcileState
  pending_visibility cancel_submitted cancelled maker_claimed unknown_orphaned : ReconcileState
  unsupported_venue : ReconcileState

pub ReconcileState-discrete : Discrete ReconcileState
ReconcileState-discrete = hlevel

pub record ReconcileStateError : Type 0 where
  pub state : Str

abbrev pub state_unsupported_venue : Str
state_unsupported_venue = codes "reconcile_unsupported_venue"

abbrev pub state_cancelled : Str
state_cancelled = codes "cancelled"

abbrev pub state_maker_claimed : Str
state_maker_claimed = codes "maker_claimed"

-- `OfferLifecycleState::parse(trimmed).map(..).ok_or_else(..)`.
unfoldable pub lifecycle_or_error :
    Str → Option OfferLifecycleState → Result ReconcileState ReconcileStateError
lifecycle_or_error trimmed none = err (record { state = trimmed })
lifecycle_or_error trimmed (some state) = ok (lifecycle state)

-- `parse` after its first line, which trims.
unfoldable pub parse_trimmed : Str → Result ReconcileState ReconcileStateError
unfolding lifecycle_or_error
parse_trimmed trimmed =
    if str_eq trimmed state_cancelled
    then ok cancelled
    else if str_eq trimmed state_maker_claimed
    then ok maker_claimed
    else if str_eq trimmed (codes "cancel_submitted")
    then ok cancel_submitted
    else if str_eq trimmed (codes "pending_visibility")
    then ok pending_visibility
    else if str_eq trimmed (codes "unknown_orphaned")
    then ok unknown_orphaned
    else if str_eq trimmed state_unsupported_venue
    then ok unsupported_venue
    else lifecycle_or_error trimmed (Lifecycle.parse trimmed)

unfoldable pub parse : Str → Result ReconcileState ReconcileStateError
unfolding parse_trimmed
parse raw = parse_trimmed (trim raw)

unfoldable pub from_open_signal : OfferSignal → ReconcileState
unfolding apply_open_signal
from_open_signal signal = lifecycle (apply_open_signal signal).new_state

abbrev pub as_str : ReconcileState → Str
as_str (lifecycle state) = Lifecycle.as_str state
as_str pending_visibility = codes "pending_visibility"
as_str cancel_submitted = codes "cancel_submitted"
as_str cancelled = state_cancelled
as_str maker_claimed = state_maker_claimed
as_str unknown_orphaned = codes "unknown_orphaned"
as_str unsupported_venue = state_unsupported_venue

unfoldable pub is_terminal : ReconcileState → Bool
is_terminal (lifecycle OfferLifecycleState.tx_block_confirmed) = true
is_terminal (lifecycle OfferLifecycleState.expired) = true
is_terminal cancelled = true
is_terminal _ = false

unfoldable pub is_cancelled : ReconcileState → Bool
is_cancelled cancelled = true
is_cancelled _ = false

unfoldable pub is_cancel_submitted : ReconcileState → Bool
is_cancel_submitted cancel_submitted = true
is_cancel_submitted _ = false

unfoldable pub is_cancel_eligible : ReconcileState → Bool
is_cancel_eligible (lifecycle OfferLifecycleState.«open») = true
is_cancel_eligible pending_visibility = true
is_cancel_eligible _ = false

unfoldable pub is_watched_for_reconcile : ReconcileState → Bool
is_watched_for_reconcile (lifecycle OfferLifecycleState.«open») = true
is_watched_for_reconcile (lifecycle OfferLifecycleState.refresh_due) = true
is_watched_for_reconcile (lifecycle OfferLifecycleState.mempool_observed) = true
is_watched_for_reconcile pending_visibility = true
is_watched_for_reconcile cancel_submitted = true
is_watched_for_reconcile unknown_orphaned = true
is_watched_for_reconcile (lifecycle _) = false
is_watched_for_reconcile cancelled = false
is_watched_for_reconcile maker_claimed = false
is_watched_for_reconcile unsupported_venue = false

unfoldable pub counts_toward_ladder_capacity : ReconcileState → Bool
counts_toward_ladder_capacity (lifecycle OfferLifecycleState.«open») = true
counts_toward_ladder_capacity (lifecycle OfferLifecycleState.refresh_due) = true
counts_toward_ladder_capacity maker_claimed = true
counts_toward_ladder_capacity _ = false

unfoldable pub is_timed_ladder_capacity_candidate : ReconcileState → Bool
is_timed_ladder_capacity_candidate (lifecycle OfferLifecycleState.mempool_observed) = true
is_timed_ladder_capacity_candidate _ = false

-- `matches!(self, Self::MakerClaimed)`.
is_maker_claimed : ReconcileState → Bool
is_maker_claimed maker_claimed = true
is_maker_claimed _ = false

unfoldable pub binds_unique_maker_coin : ReconcileState → Bool
unfolding is_watched_for_reconcile is_maker_claimed
binds_unique_maker_coin state = is_watched_for_reconcile state || is_maker_claimed state

abbrev pub ladder_capacity_query_states : List Str
ladder_capacity_query_states =
    codes "open" ∷ codes "refresh_due" ∷ state_maker_claimed ∷ codes "mempool_observed" ∷ []

abbrev pub binding_maker_query_states : List Str
binding_maker_query_states =
    codes "open"
    ∷ codes "refresh_due"
    ∷ codes "mempool_observed"
    ∷ codes "pending_visibility"
    ∷ codes "cancel_submitted"
    ∷ codes "unknown_orphaned"
    ∷ state_maker_claimed
    ∷ []
