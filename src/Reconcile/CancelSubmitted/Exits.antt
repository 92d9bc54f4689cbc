-- ===== src/Reconcile/CancelSubmitted/Exits.antt =====
-- greenfloor-engine/src/cycle/reconcile/cancel_submitted_policy/mod.rs: how an offer leaves
-- `cancel_submitted`.
use greenfloor.Common.{
  ◌≡◌, ◌≢◌, ◌↔◌, ◌⊎◌, Bool, true, false, ◌&&◌, not, List, Option, none, some, arith,
}
use greenfloor.Common.Int.{ℤ, eqb_ℤ, eqb_ℤ-iff}
use greenfloor.Common.Str.{Str}
use greenfloor.Common.Result.{Result, ok, err}
use greenfloor.Lifecycle.{OfferLifecycleState, apply_open_signal, apply_offer_signal}
use greenfloor.Dexie.{dexie_status_open, dexie_status_cancelled}
use greenfloor.Reconcile.State.{
  ReconcileState, lifecycle, cancel_submitted, cancelled, from_open_signal,
}
use greenfloor.Reconcile.Signals.{
  CoinsetTxSignals, CoinsetSignalSummary, no_summary, has_coinset_activity,
  CancelSubmitNonAttributable, mempool_maker_hit, confirmed_maker_hit, cancel_tx_mempool,
  cancel_submit_taker_signals,
}
use greenfloor.Reconcile.Dispatch.{apply_coinset_taker_dispatch_if_present}
use greenfloor.Reconcile.Transition.{
  ReconcileTransition, transition_from_dexie_status, dexie_fallback_transition,
  cancel_tx_chain_confirmed_transition,
}
use greenfloor.Reconcile.CancelSubmitted.Context.{
  Chrono, CancelSubmittedContext, cancel_tx_chain_confirmed, cancel_submit_stale_reset_eligible,
}
use greenfloor.Reconcile.CancelSubmitted.Resolve.{
  is_status, resolve_with_summary, resolve_taker_signals, resolve_cancel_submitted_transition,
}

abbrev reopened : ReconcileState
reopened = lifecycle OfferLifecycleState.«open»

-- What a status other than `cancelled` makes of an offer in `cancel_submitted`.
dexie_not_cancelled :
    (code : ℤ)
    → eqb_ℤ code dexie_status_cancelled ≡ false
    → ((transition_from_dexie_status code cancel_submitted).new_state ≢ cancelled)
      × ((transition_from_dexie_status code cancel_submitted).new_state ≢ reopened)
unfolding transition_from_dexie_status dexie_fallback_transition from_open_signal apply_open_signal
    apply_offer_signal
dexie_not_cancelled code h = ground arith

taker_not_cancelled :
    (s : CoinsetSignalSummary) (status : Option ℤ) (t : ReconcileTransition)
    → apply_coinset_taker_dispatch_if_present s status cancel_submitted ≡ some t
    → (t.new_state ≢ cancelled) × (t.new_state ≢ reopened)
unfolding apply_coinset_taker_dispatch_if_present apply_open_signal apply_offer_signal
taker_not_cancelled s status t h = ground arith

is_status_iff :
    (status : Option ℤ) (code : ℤ) → (is_status status code ≡ true) ↔ (status ≡ some code)
is_status_iff none code = ground arith
is_status_iff (some c) code = ground (arith, eqb_ℤ-iff c code)

-- Without a status nothing at all is seen on the chain, with a status nothing confirmed or in the
-- mempool; a hit on the maker coin in the mempool, or one of the cancellation only, counts as nothing,
-- and a confirmed hit that no transaction explains does not.
abbrev pub is_quiet : Option ℤ → Result CoinsetSignalSummary CancelSubmitNonAttributable → Bool
is_quiet status (err confirmed_maker_hit) = false
is_quiet status (err mempool_maker_hit) = true
is_quiet status (err cancel_tx_mempool) = true
is_quiet none (ok s) = not (has_coinset_activity s)
is_quiet (some _) (ok s) = not s.has_confirmed && not s.has_mempool

-- No status, or the status of an open offer.
abbrev pub is_open_or_absent : Option ℤ → Bool
is_open_or_absent none = true
is_open_or_absent (some code) = eqb_ℤ code dexie_status_open

-- The state when neither the chain nor the venue says cancelled: never `cancelled`, and open
-- again under the condition `reopens`.
abbrev Stays : Bool → ReconcileState → Type 0
Stays reopens state = (state ≢ cancelled) × ((reopens ≡ true) ↔ (state ≡ reopened))

module _ {Instant : Type 0} (chrono : Chrono Instant) where
  summary-Stays :
      (status : Option ℤ) (s : CoinsetSignalSummary) (ctx : CancelSubmittedContext) (now : Instant)
      (ids : List Str)
      → is_status status dexie_status_cancelled ≡ false
      → Stays
          (is_quiet status (ok s)
            && is_open_or_absent status
            && cancel_submit_stale_reset_eligible chrono ctx now ids)
          (resolve_with_summary chrono status s ids ctx now).new_state
  unfolding resolve_with_summary apply_open_signal apply_offer_signal
  summary-Stays none s ctx now ids h = ground arith
  summary-Stays (some code) s ctx now ids h = ground (arith, dexie_not_cancelled code)

  taker-Stays :
      (status : Option ℤ) (taker : Result CoinsetSignalSummary CancelSubmitNonAttributable)
      (ctx : CancelSubmittedContext) (now : Instant) (ids : List Str)
      → is_status status dexie_status_cancelled ≡ false
      → Stays
          (is_quiet status taker
            && is_open_or_absent status
            && cancel_submit_stale_reset_eligible chrono ctx now ids)
          (resolve_taker_signals chrono taker status ids ctx now).new_state
  unfolding resolve_taker_signals cancel_submit_stale_reset_eligible
  taker-Stays status (ok s) ctx now ids h = summary-Stays status s ctx now ids h
  taker-Stays status (err confirmed_maker_hit) ctx now ids h = ground arith
  taker-Stays none (err kind) ctx now ids h =
      ground (arith, summary-Stays none no_summary ctx now ids h)
  taker-Stays (some code) (err kind) ctx now ids h =
      ground (arith, summary-Stays (some code) no_summary ctx now ids h)

  -- The state that `resolve_cancel_submitted_transition` gives.
  abbrev pub resolved :
      Option ℤ → CoinsetTxSignals → List Str → CancelSubmittedContext → Instant → ReconcileState
  resolved status signals ids ctx now =
      (resolve_cancel_submitted_transition chrono status signals ids ctx now).new_state

  -- The cancellation was never confirmed, its time of grace is over, the venue shows the offer
  -- open or shows nothing, and the signals are quiet.
  abbrev pub is_stale_orphan :
      Option ℤ → CoinsetTxSignals → List Str → CancelSubmittedContext → Instant → Bool
  is_stale_orphan status signals ids ctx now =
      is_quiet status (cancel_submit_taker_signals signals ctx.cancel_tx_id)
      && is_open_or_absent status
      && cancel_submit_stale_reset_eligible chrono ctx now ids

  resolved_by_signals :
      (status : Option ℤ) (signals : CoinsetTxSignals) (ids : List Str)
      (ctx : CancelSubmittedContext) (now : Instant)
      → cancel_tx_chain_confirmed ctx ids ≡ false
      → is_status status dexie_status_cancelled ≡ false
      → resolve_cancel_submitted_transition chrono status signals ids ctx now
        ≡ resolve_taker_signals chrono
            (cancel_submit_taker_signals signals ctx.cancel_tx_id)
            status
            ids
            ctx
            now
  unfolding resolve_cancel_submitted_transition
  resolved_by_signals status signals ids ctx now c h = rw (c, h)

  resolved_cancelled :
      (status : Option ℤ) (signals : CoinsetTxSignals) (ids : List Str)
      (ctx : CancelSubmittedContext) (now : Instant)
      → (cancel_tx_chain_confirmed ctx ids ≡ true)
        ⊎ (is_status status dexie_status_cancelled ≡ true)
      → resolved status signals ids ctx now ≡ cancelled
  unfolding resolve_cancel_submitted_transition cancel_tx_chain_confirmed_transition
      dexie_fallback_transition
  resolved_cancelled status signals ids ctx now h = ground arith

  unresolved-Stays :
      (status : Option ℤ) (signals : CoinsetTxSignals) (ids : List Str)
      (ctx : CancelSubmittedContext) (now : Instant)
      → cancel_tx_chain_confirmed ctx ids ≡ false
      → is_status status dexie_status_cancelled ≡ false
      → Stays (is_stale_orphan status signals ids ctx now) (resolved status signals ids ctx now)
  unresolved-Stays status signals ids ctx now c h =
      rw (resolved_by_signals status signals ids ctx now c h, resolved)
        (taker-Stays status (cancel_submit_taker_signals signals ctx.cancel_tx_id) ctx now ids h)

  -- An offer in `cancel_submitted` becomes `cancelled` exactly when the chain has confirmed the
  -- cancellation or the venue says cancelled.
  pub cancelled_iff :
      (status : Option ℤ) (signals : CoinsetTxSignals) (ids : List Str)
      (ctx : CancelSubmittedContext) (now : Instant)
      → (resolved status signals ids ctx now ≡ cancelled)
        ↔ ((cancel_tx_chain_confirmed ctx ids ≡ true) ⊎ (status ≡ some dexie_status_cancelled))
  cancelled_iff status signals ids ctx now = ground (
    arith,
    is_status_iff status dexie_status_cancelled,
    resolved_cancelled status signals ids ctx now,
    unresolved-Stays status signals ids ctx now,
  )

  stale_unconfirmed :
      (status : Option ℤ) (signals : CoinsetTxSignals) (ids : List Str)
      (ctx : CancelSubmittedContext) (now : Instant)
      → is_stale_orphan status signals ids ctx now ≡ true
      → (cancel_tx_chain_confirmed ctx ids ≡ false)
        × (is_status status dexie_status_cancelled ≡ false)
  unfolding cancel_submit_stale_reset_eligible
  stale_unconfirmed none signals ids ctx now h = ground arith
  stale_unconfirmed (some code) signals ids ctx now h = ground arith

  pub reopened_iff :
      (status : Option ℤ) (signals : CoinsetTxSignals) (ids : List Str)
      (ctx : CancelSubmittedContext) (now : Instant)
      → (resolved status signals ids ctx now ≡ lifecycle OfferLifecycleState.«open»)
        ↔ (is_stale_orphan status signals ids ctx now ≡ true)
  reopened_iff status signals ids ctx now = ground (
    arith,
    stale_unconfirmed status signals ids ctx now,
    resolved_cancelled status signals ids ctx now,
    unresolved-Stays status signals ids ctx now,
  )
