-- ===== src/Reconcile/State/Words.antt =====
-- greenfloor-engine/src/cycle/reconcile/state.rs: the words under which the states are stored.
use greenfloor.Common.{◌≡◌, refl, ap, ◌∙◌, ◌↔◌, Bool, true, ◌||◌, List, some, arith, any, All}
use greenfloor.Common.Str.{Str, codes, str_eq, eq_of_str_eq, trim, trim-twice}
use greenfloor.Common.Result.{ok, err}
use greenfloor.Lifecycle.{OfferLifecycleState}
use greenfloor.Lifecycle
use greenfloor.Reconcile.State.{
  ReconcileState, ReconcileStateError, lifecycle, pending_visibility, cancel_submitted, cancelled,
  maker_claimed, unknown_orphaned, unsupported_venue, parse, parse_trimmed, lifecycle_or_error,
  as_str, binds_unique_maker_coin, counts_toward_ladder_capacity,
  is_timed_ladder_capacity_candidate, ladder_capacity_query_states, binding_maker_query_states,
  state_cancelled, state_maker_claimed, state_unsupported_venue,
}

parse_trimmed-as_str : (s : ReconcileState) → parse_trimmed (as_str s) ≡ ok s
unfolding parse_trimmed Lifecycle.parse trim
parse_trimmed-as_str (lifecycle OfferLifecycleState.«open») = refl
parse_trimmed-as_str (lifecycle OfferLifecycleState.mempool_observed) = refl
parse_trimmed-as_str (lifecycle OfferLifecycleState.tx_block_confirmed) = refl
parse_trimmed-as_str (lifecycle OfferLifecycleState.refresh_due) = refl
parse_trimmed-as_str (lifecycle OfferLifecycleState.expired) = refl
parse_trimmed-as_str pending_visibility = refl
parse_trimmed-as_str cancel_submitted = refl
parse_trimmed-as_str cancelled = refl
parse_trimmed-as_str maker_claimed = refl
parse_trimmed-as_str unknown_orphaned = refl
parse_trimmed-as_str unsupported_venue = refl

lifecycle_words :
    (t : Str) (l : OfferLifecycleState)
    → Lifecycle.parse_trimmed t ≡ some l
    → t ≡ Lifecycle.as_str l
unfolding Lifecycle.parse_trimmed
lifecycle_words t l h = ground (
  arith,
  eq_of_str_eq t (codes "open"),
  eq_of_str_eq t (codes "mempool_observed"),
  eq_of_str_eq t (codes "tx_block_confirmed"),
  eq_of_str_eq t (codes "refresh_due"),
  eq_of_str_eq t (codes "expired"),
)

fallback_words :
    (t : Str) (s : ReconcileState)
    → trim t ≡ t
    → lifecycle_or_error t (Lifecycle.parse t) ≡ ok s
    → t ≡ as_str s
unfolding lifecycle_or_error Lifecycle.parse
fallback_words t (lifecycle l) settled h =
    lifecycle_words t l (ground (arith, ap Lifecycle.parse_trimmed settled))
fallback_words t s settled h = ground arith

parse_trimmed_words :
    (t : Str) (s : ReconcileState) → trim t ≡ t → parse_trimmed t ≡ ok s → t ≡ as_str s
unfolding parse_trimmed
parse_trimmed_words t s settled h = ground (
  arith,
  eq_of_str_eq t state_cancelled,
  eq_of_str_eq t state_maker_claimed,
  eq_of_str_eq t (codes "cancel_submitted"),
  eq_of_str_eq t (codes "pending_visibility"),
  eq_of_str_eq t (codes "unknown_orphaned"),
  eq_of_str_eq t state_unsupported_venue,
  fallback_words t s settled,
)

-- A text is read as a state exactly when it is that state's word, up to blanks around it.
pub parse_iff : (raw : Str) (s : ReconcileState) → (parse raw ≡ ok s) ↔ (trim raw ≡ as_str s)
unfolding parse
parse_iff raw s = (
  unfold parse in parse_trimmed_words (trim raw) s (trim-twice raw),
  λ e. unfold parse in ap parse_trimmed e ∙ parse_trimmed-as_str s,
)

-- A text that is no state's word is an error that names it, trimmed.
pub parse_unknown : (raw : Str) (e : ReconcileStateError) → parse raw ≡ err e → e.state ≡ trim raw
unfolding parse parse_trimmed lifecycle_or_error
parse_unknown raw e h = ground arith

trim-as_str : (s : ReconcileState) → trim (as_str s) ≡ as_str s
unfolding trim
trim-as_str (lifecycle OfferLifecycleState.«open») = refl
trim-as_str (lifecycle OfferLifecycleState.mempool_observed) = refl
trim-as_str (lifecycle OfferLifecycleState.tx_block_confirmed) = refl
trim-as_str (lifecycle OfferLifecycleState.refresh_due) = refl
trim-as_str (lifecycle OfferLifecycleState.expired) = refl
trim-as_str pending_visibility = refl
trim-as_str cancel_submitted = refl
trim-as_str cancelled = refl
trim-as_str maker_claimed = refl
trim-as_str unknown_orphaned = refl
trim-as_str unsupported_venue = refl

pub parse-as_str : (s : ReconcileState) → parse (as_str s) ≡ ok s
parse-as_str s = (parse_iff (as_str s) s).1 (trim-as_str s)

-- The word of a state is among the words.
abbrev queried : List Str → ReconcileState → Bool
queried words s = any (str_eq (as_str s)) words

-- Each word is read as a state with the property.
abbrev Reads : (ReconcileState → Bool) → List Str → Type 0
Reads p words = All (λ word. (s : ReconcileState) × (parse word ≡ ok s) × (p s ≡ true)) words

binding_queried :
    (s : ReconcileState) → queried binding_maker_query_states s ≡ binds_unique_maker_coin s
unfolding binds_unique_maker_coin
binding_queried (lifecycle OfferLifecycleState.«open») = refl
binding_queried (lifecycle OfferLifecycleState.mempool_observed) = refl
binding_queried (lifecycle OfferLifecycleState.tx_block_confirmed) = refl
binding_queried (lifecycle OfferLifecycleState.refresh_due) = refl
binding_queried (lifecycle OfferLifecycleState.expired) = refl
binding_queried pending_visibility = refl
binding_queried cancel_submitted = refl
binding_queried cancelled = refl
binding_queried maker_claimed = refl
binding_queried unknown_orphaned = refl
binding_queried unsupported_venue = refl

-- The words of the maker query are those of the states that bind a maker coin: a state's word is
-- queried exactly when the state binds, and every queried word is read as a state that binds.
pub binding_query_aligned :
    ((s : ReconcileState) → queried binding_maker_query_states s ≡ binds_unique_maker_coin s)
    × Reads binds_unique_maker_coin binding_maker_query_states
unfolding binds_unique_maker_coin
binding_query_aligned = (
  binding_queried,
  (
    (lifecycle OfferLifecycleState.«open», parse-as_str _, refl),
    (
      (lifecycle OfferLifecycleState.refresh_due, parse-as_str _, refl),
      (
        (lifecycle OfferLifecycleState.mempool_observed, parse-as_str _, refl),
        (
          (pending_visibility, parse-as_str _, refl),
          (
            (cancel_submitted, parse-as_str _, refl),
            ((unknown_orphaned, parse-as_str _, refl), ((maker_claimed, parse-as_str _, refl), tt)),
          ),
        ),
      ),
    ),
  ),
)

-- The states that hold ladder capacity, at once or while they are recent.
abbrev holds_capacity : ReconcileState → Bool
holds_capacity s = counts_toward_ladder_capacity s || is_timed_ladder_capacity_candidate s

capacity_queried : (s : ReconcileState) → queried ladder_capacity_query_states s ≡ holds_capacity s
unfolding counts_toward_ladder_capacity is_timed_ladder_capacity_candidate
capacity_queried (lifecycle OfferLifecycleState.«open») = refl
capacity_queried (lifecycle OfferLifecycleState.mempool_observed) = refl
capacity_queried (lifecycle OfferLifecycleState.tx_block_confirmed) = refl
capacity_queried (lifecycle OfferLifecycleState.refresh_due) = refl
capacity_queried (lifecycle OfferLifecycleState.expired) = refl
capacity_queried pending_visibility = refl
capacity_queried cancel_submitted = refl
capacity_queried cancelled = refl
capacity_queried maker_claimed = refl
capacity_queried unknown_orphaned = refl
capacity_queried unsupported_venue = refl

-- The words of the capacity query are those of the states that hold capacity, at once or while
-- they are recent, in the same two directions.
pub capacity_query_aligned :
    ((s : ReconcileState) → queried ladder_capacity_query_states s ≡ holds_capacity s)
    × Reads holds_capacity ladder_capacity_query_states
unfolding counts_toward_ladder_capacity is_timed_ladder_capacity_candidate
capacity_query_aligned = (
  capacity_queried,
  (
    (lifecycle OfferLifecycleState.«open», parse-as_str _, refl),
    (
      (lifecycle OfferLifecycleState.refresh_due, parse-as_str _, refl),
      (
        (maker_claimed, parse-as_str _, refl),
        ((lifecycle OfferLifecycleState.mempool_observed, parse-as_str _, refl), tt),
      ),
    ),
  ),
)
