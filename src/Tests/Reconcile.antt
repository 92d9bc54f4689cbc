-- ===== src/Tests/Reconcile.antt =====
-- The reconciliation of offers at concrete inputs.
use greenfloor.Common.{
  ◌≡◌, ◌≢◌, ◌↔◌, ◌⊎◌, refl, true, false, ◌&&◌, not, List, [], ◌∷◌, none, some, any,
}
use greenfloor.Common.Int.{pos}
use greenfloor.Common.Str.{codes, str_eq, trim}
use greenfloor.Common.Result.{ok, err}
use greenfloor.Lifecycle.{
  OfferLifecycleState, OfferSignal, mempool_observed, tx_block_confirmed, apply_offer_signal, noop,
}
use greenfloor.Lifecycle.Trace.{run, is_tx_confirmed, run_needs_confirmation}
use greenfloor.Dexie.{dexie_status_cancelled}
use greenfloor.Reconcile.State.{lifecycle, cancelled, maker_claimed, parse, as_str}
use greenfloor.Reconcile.State.Words.{parse_iff}
use greenfloor.Reconcile.Signals.{
  no_signals, no_summary, CoinsetSignalSummary, cancel_tx_mempool, excluding_cancel_tx,
  cancel_submit_taker_signals,
}
use greenfloor.Reconcile.Signals.Exclusion.{Purged, excluding_cancel_tx_lem}
use greenfloor.Reconcile.Dispatch.{apply_watched_offer_dispatch}
use greenfloor.Reconcile.Dispatch.Moves.{Move, dispatch-Move}
use greenfloor.Reconcile.Transition.{
  CycleOfferTransition, into_cycle_transition, into_cycle_transition_no_coinset,
  missing_watched_offer_expired,
}
use greenfloor.Hex.{canonical_tx_id}
use greenfloor.Reconcile.Resolve.{
  resolve_watched_offer_decision, resolve_watched_offer_transition_from_signals,
  resolve_missing_watched_offer_transition,
}
use greenfloor.Reconcile.Resolve.Outcomes.{
  Transition, MissingTransition, watched_offer-IsConsistent, missing_transition_lem,
}
use greenfloor.Reconcile.CancelSubmitted.Context.{
  cancel_tx_chain_confirmed, cancel_submit_within_grace, is_cancel_submit_in_flight,
}
use greenfloor.Reconcile.CancelSubmitted.Resolve.{resolve_cancel_submitted_transition}
use greenfloor.Reconcile.CancelSubmitted.Targets.{allowed_cancel_target_offer_ids}
use greenfloor.Reconcile.CancelSubmitted.Exits.{resolved, cancelled_iff}
use greenfloor.Reconcile.CancelSubmitted.Deferral.{
  is_deferred_by, allowed_iff, in_flight_not_reopened,
}
use greenfloor.Tests.Fixtures.{seconds, cancel_id, submitted, own_spend, row}

own_spend_is_noise : cancel_submit_taker_signals own_spend (some cancel_id) ≡ err cancel_tx_mempool
unfolding cancel_submit_taker_signals canonical_tx_id
own_spend_is_noise = refl

unconfirmed : cancel_tx_chain_confirmed submitted [] ≡ false
unfolding cancel_tx_chain_confirmed canonical_tx_id
unconfirmed = refl

within_grace : cancel_submit_within_grace seconds submitted 200 ≡ true
unfolding cancel_submit_within_grace trim
within_grace = refl

past_grace : cancel_submit_within_grace seconds submitted 301 ≡ false
unfolding cancel_submit_within_grace trim
past_grace = refl

in_flight : is_cancel_submit_in_flight seconds submitted 200 [] ≡ true
unfolding is_cancel_submit_in_flight cancel_tx_chain_confirmed cancel_submit_within_grace
    canonical_tx_id
in_flight = refl

-- Past its time of grace the offer is open again.
opened_again :
    (resolve_cancel_submitted_transition seconds none own_spend [] submitted 400).new_state
    ≡ lifecycle OfferLifecycleState.«open»
unfolding resolve_cancel_submitted_transition cancel_tx_chain_confirmed canonical_tx_id
    cancel_submit_taker_signals cancel_submit_within_grace
    greenfloor.Reconcile.CancelSubmitted.Context.cancel_submit_stale_reset_eligible
opened_again = refl

cancelled_example :
    (resolved seconds (some (pos 0)) no_signals (cancel_id ∷ []) submitted 10 ≡ cancelled) ↔ (
      (cancel_tx_chain_confirmed submitted (cancel_id ∷ []) ≡ true)
      ⊎ (some (pos 0) ≡ some dexie_status_cancelled))
cancelled_example = cancelled_iff seconds (some (pos 0)) no_signals (cancel_id ∷ []) submitted 10

in_flight_example :
    resolved seconds none own_spend [] submitted 200 ≢ lifecycle OfferLifecycleState.«open»
in_flight_example = in_flight_not_reopened seconds none own_spend [] submitted 200 in_flight

allowed_example :
    any
      (str_eq (codes "offer"))
      (allowed_cancel_target_offer_ids seconds (codes "offer" ∷ []) (row ∷ []) [] 200)
    ≡ (any (str_eq (codes "offer")) (codes "offer" ∷ [])
        && not (any (is_deferred_by seconds [] 200 (codes "offer")) (row ∷ [])))
allowed_example = allowed_iff seconds (codes "offer" ∷ []) (row ∷ []) [] 200 (codes "offer")

-- A transition that was stored as open and is confirmed by the venue.
open_confirmed : CycleOfferTransition
open_confirmed =
    into_cycle_transition
      (resolve_watched_offer_decision seconds (lifecycle OfferLifecycleState.«open») (some (pos 4))
        no_signals [] none 0)
      (lifecycle OfferLifecycleState.«open») [] [] []

open_confirmed-resolved :
    resolve_watched_offer_transition_from_signals seconds
      (codes " open")
      (some (pos 4))
      no_signals
      []
      none
      0
    ≡ ok open_confirmed
unfolding resolve_watched_offer_transition_from_signals open_confirmed parse trim
    greenfloor.Lifecycle.parse
open_confirmed-resolved = refl

watched_example :
    Transition seconds (codes " open") (some (pos 4)) no_signals [] none 0 open_confirmed
watched_example =
    watched_offer-IsConsistent seconds (codes " open") (some (pos 4)) no_signals [] none 0
      open_confirmed open_confirmed-resolved

missing_open : CycleOfferTransition
missing_open =
    into_cycle_transition_no_coinset missing_watched_offer_expired
      (lifecycle OfferLifecycleState.«open»)

missing_open-resolved : resolve_missing_watched_offer_transition (codes "open") ≡ ok missing_open
unfolding resolve_missing_watched_offer_transition missing_open parse trim
    greenfloor.Lifecycle.parse
missing_open-resolved = refl

missing_example : MissingTransition (codes "open") missing_open
missing_example = missing_transition_lem (codes "open") missing_open missing_open-resolved

-- A spend in the mempool, and nothing confirmed.
mempool_only : CoinsetSignalSummary
mempool_only = record no_summary { has_mempool = true }

move_example :
    Move mempool_only
      (some (pos 0))
      (lifecycle OfferLifecycleState.«open»)
      (apply_watched_offer_dispatch mempool_only
        (some (pos 0))
        (lifecycle OfferLifecycleState.«open»)).new_state
move_example = dispatch-Move mempool_only (some (pos 0)) (lifecycle OfferLifecycleState.«open»)

cancel_id-canonical : canonical_tx_id cancel_id ≡ some cancel_id
unfolding canonical_tx_id
cancel_id-canonical = refl

excluding_example :
    Purged cancel_id (cancel_id ∷ []) (excluding_cancel_tx own_spend (some cancel_id)).tx_ids
    × Purged cancel_id [] (excluding_cancel_tx own_spend (some cancel_id)).confirmed_tx_ids
    × Purged cancel_id
        (cancel_id ∷ [])
        (excluding_cancel_tx own_spend (some cancel_id)).mempool_tx_ids
    × ((excluding_cancel_tx own_spend (some cancel_id)).maker_hit ≡ own_spend.maker_hit)
excluding_example = excluding_cancel_tx_lem own_spend cancel_id cancel_id cancel_id-canonical

parse_example :
    (parse (codes " maker_claimed") ≡ ok maker_claimed)
    ↔ (trim (codes " maker_claimed") ≡ as_str maker_claimed)
parse_example = parse_iff (codes " maker_claimed") maker_claimed

unknown_word : parse (codes " gone") ≡ err (record { state = codes "gone" })
unfolding parse trim greenfloor.Lifecycle.parse
unknown_word = refl

abbrev two_confirming : List OfferSignal
two_confirming = OfferSignal.mempool_seen ∷ OfferSignal.tx_confirmed ∷ []

confirmed_run : run OfferLifecycleState.«open» two_confirming ≡ tx_block_confirmed
unfolding run apply_offer_signal
confirmed_run = refl

confirmation_example : any is_tx_confirmed two_confirming ≡ true
confirmation_example =
    run_needs_confirmation OfferLifecycleState.«open» two_confirming (λ e. cc) confirmed_run
