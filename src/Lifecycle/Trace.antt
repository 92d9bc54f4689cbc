-- ===== src/Lifecycle/Trace.antt =====
-- greenfloor-engine/src/cycle/lifecycle.rs: runs of signals.
use greenfloor.Common.{◌≡◌, refl, ◌≢◌, Bool, true, false, List, [], ◌∷◌, arith, any}
use greenfloor.Lifecycle.{OfferLifecycleState, OfferSignal, apply_offer_signal}
use OfferLifecycleState.{tx_block_confirmed}

-- The state after a sequence of signals.
unfoldable pub run : OfferLifecycleState → List OfferSignal → OfferLifecycleState
run s [] = s
run s (signal ∷ rest) = run (apply_offer_signal s signal).new_state rest

abbrev pub is_tx_confirmed : OfferSignal → Bool
is_tx_confirmed OfferSignal.tx_confirmed = true
is_tx_confirmed _ = false

run-tx_block_confirmed :
    (signals : List OfferSignal) → run tx_block_confirmed signals ≡ tx_block_confirmed
unfolding run apply_offer_signal
run-tx_block_confirmed [] = refl
run-tx_block_confirmed (signal ∷ rest) = ground (arith, run-tx_block_confirmed rest)

run-expired :
    (signals : List OfferSignal)
    → run OfferLifecycleState.expired signals ≡ OfferLifecycleState.expired
unfolding run apply_offer_signal
run-expired [] = refl
run-expired (signal ∷ rest) = ground (arith, run-expired rest)

-- An offer is confirmed after some signals, from whatever state that is not yet confirmed, only
-- if one of them is `tx_confirmed`.
pub run_needs_confirmation :
    (s : OfferLifecycleState) (signals : List OfferSignal)
    → s ≢ tx_block_confirmed
    → run s signals ≡ tx_block_confirmed
    → any is_tx_confirmed signals ≡ true
unfolding run apply_offer_signal
run_needs_confirmation s [] h e = absurd (h e)
run_needs_confirmation s (signal ∷ rest) h e =
    ground (arith, run_needs_confirmation (apply_offer_signal s signal).new_state rest)
