-- ===== src/Reconcile/Resolve/Outcomes.antt =====
-- greenfloor-engine/src/cycle/reconcile/mod.rs: what holds of every transition of the cycle.
use greenfloor.Common.{
  ◌≡◌, refl, inl, Bool, false, ◌&&◌, ◌||◌, List, [], Option, subst, none, some, arith,
  if◌then◌else◌,
}
use greenfloor.Common.Int.{ℤ}
use greenfloor.Common.Str.{Str}
use greenfloor.Common.Result.{Result, ok, err, >>=-eq-ok, ok-injective}
use greenfloor.Lifecycle.{OfferLifecycleState, apply_open_signal, apply_offer_signal}
use greenfloor.Reconcile.State.{
  ReconcileState, lifecycle, cancel_submitted, parse, is_terminal, is_cancel_submitted,
}
use greenfloor.Reconcile.Signals.{
  CoinsetTxSignals, CoinsetSignalSummary, CancelSubmitNonAttributable, confirmed_maker_hit,
  no_summary, summary, cancel_submit_taker_signals,
}
use greenfloor.Reconcile.Transition.{
  CycleOfferTransition, ReconcileTransition, differs, into_cycle_transition,
  dexie_fallback_transition,
}
use greenfloor.Reconcile.Dispatch.Moves.{is_ended, Signalled, dexie-Signalled, dispatch-Signalled}
use greenfloor.Reconcile.CancelSubmitted.Context.{Chrono, CancelSubmittedContext}
use greenfloor.Reconcile.CancelSubmitted.Resolve.{
  resolve_cancel_submitted_transition, resolve_taker_signals, resolve_with_summary,
}
use greenfloor.Reconcile.Resolve.{
  resolve_watched_offer_decision, resolve_watched_offer_transition_from_signals,
  resolve_missing_watched_offer_transition, missing_decision,
}

-- The flags of a transition of the cycle agree with its states: it is marked as changed exactly
-- when they differ, an unchanged one carries no signal, and the cycle runs again at once exactly
-- when the offer has just been confirmed or expired.
pub record IsConsistent (t : CycleOfferTransition) : Type 0 where
  pub changed_right : t.changed ≡ differs t.old_state t.new_state
  pub silent_unchanged : t.changed ≡ false → t.signal ≡ none
  pub requeue_right : t.immediate_requeue ≡ (t.changed && is_ended t.new_state)

differs_self : (s : ReconcileState) → differs s s ≡ false
differs_self s = ground arith

into-IsConsistent :
    (t : ReconcileTransition) (old : ReconcileState) (a b c : List Str)
    → Signalled old t
    → IsConsistent (into_cycle_transition t old a b c)
unfolding into_cycle_transition
into-IsConsistent t old a b c h = record {
  changed_right = refl;
  silent_unchanged = λ e. ground arith;
  requeue_right = ground arith;
}

module _ {Instant : Type 0} (chrono : Chrono Instant) where
  summary-Signalled :
      (status : Option ℤ) (s : CoinsetSignalSummary) (ids : List Str) (ctx : CancelSubmittedContext)
      (now : Instant)
      → Signalled cancel_submitted (resolve_with_summary chrono status s ids ctx now)
  unfolding resolve_with_summary apply_open_signal apply_offer_signal
  summary-Signalled none s ids ctx now = ground arith
  summary-Signalled (some code) s ids ctx now =
      ground (arith, dexie-Signalled code cancel_submitted)

  taker-Signalled :
      (taker : Result CoinsetSignalSummary CancelSubmitNonAttributable) (status : Option ℤ)
      (ids : List Str) (ctx : CancelSubmittedContext) (now : Instant)
      → Signalled cancel_submitted (resolve_taker_signals chrono taker status ids ctx now)
  unfolding resolve_taker_signals
  taker-Signalled (ok s) status ids ctx now = summary-Signalled status s ids ctx now
  taker-Signalled (err confirmed_maker_hit) status ids ctx now = inl refl
  taker-Signalled (err kind) status ids ctx now =
      ground (arith, summary-Signalled status no_summary ids ctx now)

  cancel_submitted-Signalled :
      (status : Option ℤ) (signals : CoinsetTxSignals) (ids : List Str)
      (ctx : CancelSubmittedContext) (now : Instant)
      → Signalled cancel_submitted
          (resolve_cancel_submitted_transition chrono status signals ids ctx now)
  unfolding resolve_cancel_submitted_transition dexie_fallback_transition
  cancel_submitted-Signalled status signals ids ctx now = ground (
    arith,
    taker-Signalled (cancel_submit_taker_signals signals ctx.cancel_tx_id) status ids ctx now,
  )

  decision-Signalled :
      (current : ReconcileState) (status : Option ℤ) (signals : CoinsetTxSignals) (ids : List Str)
      (ctx : Option CancelSubmittedContext) (now : Instant)
      → Signalled current (resolve_watched_offer_decision chrono current status signals ids ctx now)
  unfolding resolve_watched_offer_decision
  decision-Signalled cancel_submitted status signals ids none now = inl refl
  decision-Signalled cancel_submitted status signals ids (some ctx) now =
      cancel_submitted-Signalled status signals ids ctx now
  decision-Signalled current status signals ids ctx now =
      dispatch-Signalled (summary signals) status current

  -- What a transition has to do with the stored text, the signals and the decision.
  abbrev pub Transition :
      Str
      → Option ℤ
      → CoinsetTxSignals
      → List Str
      → Option CancelSubmittedContext
      → Instant
      → CycleOfferTransition
      → Type 0
  Transition raw status signals ids ctx now t =
      (parse raw ≡ ok t.old_state)
      × (t.new_state
          ≡ (resolve_watched_offer_decision chrono t.old_state status signals ids ctx
              now).new_state)
      × (t.coinset_tx_ids ≡ signals.tx_ids)
      × (t.coinset_confirmed_tx_ids ≡ signals.confirmed_tx_ids)
      × (t.coinset_mempool_tx_ids ≡ signals.mempool_tx_ids)
      × IsConsistent t

  -- Every transition of a watched offer starts at the state that was stored, ends at the state that
  -- was decided, carries the transaction ids of the signals, and has flags that agree with its two
  -- states.
  pub watched_offer-IsConsistent :
      (raw : Str) (status : Option ℤ) (signals : CoinsetTxSignals) (ids : List Str)
      (ctx : Option CancelSubmittedContext) (now : Instant) (t : CycleOfferTransition)
      → resolve_watched_offer_transition_from_signals chrono raw status signals ids ctx now ≡ ok t
      → Transition raw status signals ids ctx now t
  unfolding resolve_watched_offer_transition_from_signals
  watched_offer-IsConsistent raw status signals ids ctx now t h =
      let (old, parsed, e) = >>=-eq-ok (parse raw) _ h in
      let decision = resolve_watched_offer_decision chrono old status signals ids ctx now in
      subst (Transition raw status signals ids ctx now) (ok-injective e) (
        parsed,
        refl,
        refl,
        refl,
        refl,
        into-IsConsistent decision old signals.tx_ids signals.confirmed_tx_ids
            signals.mempool_tx_ids (decision-Signalled old status signals ids ctx now),
      )

-- The states that an offer keeps when the venue no longer knows it.
abbrev pub is_kept : ReconcileState → Bool
is_kept s = is_terminal s || is_cancel_submitted s

missing-Signalled : (old : ReconcileState) → Signalled old (missing_decision old)
unfolding missing_decision apply_open_signal apply_offer_signal
missing-Signalled old = ground arith

missing_state :
    (old : ReconcileState)
    → (missing_decision old).new_state
      ≡ (if is_kept old then old else lifecycle OfferLifecycleState.expired)
unfolding missing_decision apply_open_signal apply_offer_signal
missing_state old = ground arith

-- What a transition has to do with the stored text when the venue no longer knows the offer.
abbrev pub MissingTransition : Str → CycleOfferTransition → Type 0
MissingTransition raw t =
    (parse raw ≡ ok t.old_state)
    × (t.new_state
        ≡ (if is_kept t.old_state then t.old_state else lifecycle OfferLifecycleState.expired))
    × IsConsistent t

-- An offer that the venue no longer knows expires, unless it is in a terminal state or its
-- cancellation was submitted: then it stays as it is. The flags agree with the states.
pub missing_transition_lem :
    (raw : Str) (t : CycleOfferTransition)
    → resolve_missing_watched_offer_transition raw ≡ ok t
    → MissingTransition raw t
unfolding resolve_missing_watched_offer_transition
missing_transition_lem raw t h =
    let (old, parsed, e) = >>=-eq-ok (parse raw) _ h in
    subst (MissingTransition raw) (ok-injective e) (
      parsed,
      missing_state old,
      into-IsConsistent (missing_decision old) old [] [] [] (missing-Signalled old),
    )
