-- ===== src/Lifecycle.antt =====
-- greenfloor-engine/src/cycle/lifecycle.rs: the states of a posted offer and its signals.
pub mod Trace
use greenfloor.Common.{
  ◌≡◌, refl, Bool, true, false, List, [], ◌∷◌, Option, none, some, if◌then◌else◌,
}
use greenfloor.Common.Str.{Str, codes, str_eq, trim}

pub data OfferLifecycleState : Type 0 where
  «open» mempool_observed tx_block_confirmed refresh_due expired : OfferLifecycleState

-- `Serialize` and `as_str` give the same words.
abbrev pub as_str : OfferLifecycleState → Str
as_str OfferLifecycleState.«open» = codes "open"
as_str OfferLifecycleState.mempool_observed = codes "mempool_observed"
as_str OfferLifecycleState.tx_block_confirmed = codes "tx_block_confirmed"
as_str OfferLifecycleState.refresh_due = codes "refresh_due"
as_str OfferLifecycleState.expired = codes "expired"

-- The match of `parse` on the trimmed text.
unfoldable pub parse_trimmed : Str → Option OfferLifecycleState
parse_trimmed raw =
    if str_eq raw (codes "open")
    then some OfferLifecycleState.«open»
    else if str_eq raw (codes "mempool_observed")
    then some OfferLifecycleState.mempool_observed
    else if str_eq raw (codes "tx_block_confirmed")
    then some OfferLifecycleState.tx_block_confirmed
    else if str_eq raw (codes "refresh_due")
    then some OfferLifecycleState.refresh_due
    else if str_eq raw (codes "expired")
    then some OfferLifecycleState.expired
    else none

unfoldable pub parse : Str → Option OfferLifecycleState
unfolding parse_trimmed
parse raw = parse_trimmed (trim raw)

pub data OfferSignal : Type 0 where
  mempool_seen tx_confirmed expiry_near expired refresh_posted : OfferSignal

pub record OfferTransition : Type 0 where
  pub old_state : OfferLifecycleState
  pub new_state : OfferLifecycleState
  pub signal : OfferSignal
  pub action : Str
  pub reason : Str

-- The constants of reconcile/metadata.rs that the lifecycle uses.
abbrev pub reason_potential_take_seen : Str
reason_potential_take_seen = codes "potential_take_seen"

abbrev pub reason_take_confirmed_on_tx_block : Str
reason_take_confirmed_on_tx_block = codes "take_confirmed_on_tx_block"

abbrev pub noop : Str
noop = codes "noop"

-- The record that an arm of `apply_offer_signal` builds.
abbrev pub transition :
    OfferLifecycleState → OfferSignal → OfferLifecycleState → Str → Str → OfferTransition
transition state signal next action reason = record {
  old_state = state;
  new_state = next;
  signal = signal;
  action = action;
  reason = reason;
}

unfoldable pub apply_offer_signal : OfferLifecycleState → OfferSignal → OfferTransition
apply_offer_signal OfferLifecycleState.«open» OfferSignal.mempool_seen =
    transition OfferLifecycleState.«open» OfferSignal.mempool_seen
      OfferLifecycleState.mempool_observed (codes "mark_mempool_observed")
      reason_potential_take_seen
apply_offer_signal OfferLifecycleState.«open» OfferSignal.tx_confirmed =
    transition OfferLifecycleState.«open» OfferSignal.tx_confirmed
      OfferLifecycleState.tx_block_confirmed (codes "reconcile_coins_and_offers")
      reason_take_confirmed_on_tx_block
apply_offer_signal OfferLifecycleState.mempool_observed OfferSignal.tx_confirmed =
    transition OfferLifecycleState.mempool_observed OfferSignal.tx_confirmed
      OfferLifecycleState.tx_block_confirmed (codes "reconcile_coins_and_offers")
      reason_take_confirmed_on_tx_block
apply_offer_signal OfferLifecycleState.«open» OfferSignal.expiry_near =
    transition OfferLifecycleState.«open» OfferSignal.expiry_near OfferLifecycleState.refresh_due
      (codes "refresh_offer") (codes "refresh_window_entered")
apply_offer_signal OfferLifecycleState.refresh_due OfferSignal.refresh_posted =
    transition OfferLifecycleState.refresh_due OfferSignal.refresh_posted OfferLifecycleState.«open»
      (codes "track_new_offer_open") (codes "offer_refreshed")
apply_offer_signal OfferLifecycleState.«open» OfferSignal.expired =
    transition OfferLifecycleState.«open» OfferSignal.expired OfferLifecycleState.expired
      (codes "cleanup_offer_state") (codes "offer_expired")
apply_offer_signal OfferLifecycleState.refresh_due OfferSignal.expired =
    transition OfferLifecycleState.refresh_due OfferSignal.expired OfferLifecycleState.expired
      (codes "cleanup_offer_state") (codes "offer_expired")
apply_offer_signal state signal =
    transition state signal state noop (codes "signal_ignored_for_state")

unfoldable pub apply_open_signal : OfferSignal → OfferTransition
unfolding apply_offer_signal
apply_open_signal signal = apply_offer_signal OfferLifecycleState.«open» signal
