-- ===== src/Cycle/Sweep.antt =====
-- greenfloor-engine/src/cycle/orchestration.rs: the sweep of offers that the venue has closed.
use greenfloor.Common.{
  ℕ, ◌+◌, max, Bool, true, false, ◌&&◌, ◌||◌, not, List, [], ◌∷◌, ◌++◌, Option, none, some, keep,
  any, is_empty, length, if◌then◌else◌, leb, map, ◌==◌,
}
use greenfloor.Common.Str.{Str, codes, str_eq, trim, to_ascii_lowercase}
use greenfloor.CoinOps.Coin.{contains_id}
use greenfloor.CoinOps.Funding.Combine.{str_less}

pub record StaleSweepCandidate : Type 0 where
  pub market_id : Str
  pub offer_id : Str

pub record StaleSweepHit : Type 0 where
  pub market_id : Str
  pub offer_id : Str
  pub reason : Str

pub record StaleSweepProgress : Type 0 where
  pub checked_offer_count : ℕ
  pub requeue_market_ids : List Str
  pub hits : List StaleSweepHit
  pub truncated : Bool

pub record OfferStateRow : Type 0 where
  pub market_id : Str
  pub offer_id : Str
  pub state : Str

abbrev pub tracked_stale_sweep_states : List Str
tracked_stale_sweep_states = codes "open" ∷ codes "refresh_due" ∷ []

-- A `BTreeMap` from markets to offers, in ascending order of the markets.
abbrev pub OffersByMarket : Type 0
OffersByMarket = List (Str × List Str)

-- The tests on the offers of a market before the push.
unfoldable pub push_offer : ℕ → Str → List Str → List Str
push_offer per_market_limit offer_id market_offer_ids =
    if any (λ existing. str_eq existing offer_id) market_offer_ids
    then market_offer_ids
    else if leb per_market_limit (length market_offer_ids)
    then market_offer_ids
    else market_offer_ids ++ offer_id ∷ []

-- `entry(market_id).or_default()` and what follows.
unfoldable pub add_offer : ℕ → Str → Str → OffersByMarket → OffersByMarket
add_offer per_market_limit market_id offer_id [] =
    (market_id, push_offer per_market_limit offer_id []) ∷ []
add_offer per_market_limit market_id offer_id ((next, offer_ids) ∷ markets) =
    let later = add_offer per_market_limit market_id offer_id markets in
    if str_eq next market_id
    then (next, push_offer per_market_limit offer_id offer_ids) ∷ markets
    else if str_less market_id next
    then (market_id, push_offer per_market_limit offer_id []) ∷ (next, offer_ids) ∷ markets
    else (next, offer_ids) ∷ later

-- The rows that no `continue` passes over.
unfoldable pub is_swept : List Str → OfferStateRow → Bool
is_swept enabled row =
    not (is_empty (trim row.market_id) || not (contains_id enabled (trim row.market_id)))
    && contains_id tracked_stale_sweep_states (to_ascii_lowercase (trim row.state))
    && not (is_empty (trim row.offer_id))

unfoldable pub offers_from : List Str → ℕ → OffersByMarket → List OfferStateRow → OffersByMarket
offers_from enabled per_market_limit offers [] = offers
offers_from enabled per_market_limit offers (row ∷ rows) =
    offers_from enabled per_market_limit
      (if is_swept enabled row
        then add_offer per_market_limit (trim row.market_id) (trim row.offer_id) offers
        else offers)
      rows

-- The loops that flatten the map.
unfoldable pub candidates_of : OffersByMarket → List StaleSweepCandidate
candidates_of [] = []
candidates_of ((market_id, offer_ids) ∷ markets) =
    map (λ offer_id. record { market_id = market_id; offer_id = offer_id }) offer_ids
    ++ candidates_of markets

unfoldable pub collect_stale_sweep_candidates :
    List OfferStateRow → List Str → ℕ → List StaleSweepCandidate
collect_stale_sweep_candidates rows enabled_market_ids per_market_limit =
    let enabled = keep (λ value. not (is_empty value)) enabled_market_ids in
    if is_empty enabled
    then []
    else candidates_of (offers_from enabled (max per_market_limit 1) [] rows)

unfoldable pub starts_with : Str → Str → Bool
starts_with text [] = true
starts_with [] (_ ∷ _) = false
starts_with (x ∷ xs) (y ∷ ys) = (x == y) && starts_with xs ys

-- `str::contains`.
unfoldable pub contains_text : Str → Str → Bool
contains_text [] needle = is_empty needle
contains_text (x ∷ xs) needle = starts_with (x ∷ xs) needle || contains_text xs needle

unfoldable pub is_dexie_offer_missing_error_text : Str → Bool
is_dexie_offer_missing_error_text error_text =
    let normalized = to_ascii_lowercase (trim error_text) in
    if is_empty normalized
    then false
    else (contains_text normalized (codes "dexie_get_offer_error")
        && contains_text normalized (codes "404"))
      || contains_text normalized (codes "dexie_http_error:404")
      || (contains_text normalized (codes "http error 404")
          && contains_text normalized (codes "not found"))

unfoldable pub place_id : Str → List Str → List Str
place_id id [] = id ∷ []
place_id id (next ∷ ids) =
    let later = place_id id ids in if str_less id next then id ∷ next ∷ ids else next ∷ later

-- `sort` on texts, of which equal ones cannot be told apart.
unfoldable pub sort_ids : List Str → List Str
sort_ids [] = []
sort_ids (id ∷ ids) = place_id id (sort_ids ids)

unfoldable pub record_stale_sweep_check :
    StaleSweepProgress → Option StaleSweepHit → StaleSweepProgress
record_stale_sweep_check progress none = record {
  checked_offer_count = progress.checked_offer_count + 1;
  requeue_market_ids = progress.requeue_market_ids;
  hits = progress.hits;
  truncated = progress.truncated;
}
record_stale_sweep_check progress (some hit) = record {
  checked_offer_count = progress.checked_offer_count + 1;
  requeue_market_ids =
      if any (λ market_id. str_eq market_id hit.market_id) progress.requeue_market_ids
      then progress.requeue_market_ids
      else sort_ids (progress.requeue_market_ids ++ hit.market_id ∷ []);
  hits = progress.hits ++ hit ∷ [];
  truncated = progress.truncated;
}
