-- ===== src/Cycle/Orchestration.antt =====
-- greenfloor-engine/src/cycle/orchestration.rs: which markets run next, and the sweep of stale offers.
pub mod Ids
pub mod Selected
pub mod Full
use greenfloor.Common.{
  ℕ, zero, suc, ◌+◌, ◌-◌, ◌%◌, max, Bool, true, false, ◌&&◌, ◌||◌, not, List, [], ◌∷◌, ◌++◌, Option,
  none, some, keep, any, is_empty, length, get_elem?, if◌then◌else◌, leb, ltb,
}
use greenfloor.Common.Int.{ℤ, pos, eqb_ℤ}
use greenfloor.Common.Str.{Str, codes, str_eq, trim, to_ascii_lowercase}
use greenfloor.Common.Run.{Run, returned, in_range, ◌>>=◌}
use greenfloor.CoinOps.Coin.{contains_id}
use greenfloor.CoinOps.Funding.Combine.{str_less}

pub record MarketBatchSelection : Type 0 where
  pub selected_market_ids : List Str
  pub consumed_immediate_requeues : List Str
  pub cursor : ℕ
  pub immediate_requeue_ids : List Str

unfoldable pub enqueue_immediate_requeue : List Str → Str → List Str
enqueue_immediate_requeue immediate_requeue_ids market_id =
    let clean_market_id = trim market_id in
    if is_empty clean_market_id
    then immediate_requeue_ids
    else clean_market_id ∷ keep (λ mid. not (str_eq mid clean_market_id)) immediate_requeue_ids

-- The first loop, with the ids that are in `enabled_set`.
unfoldable pub clean_ids : List Str → List Str → List Str
clean_ids seen [] = []
clean_ids seen (market_id ∷ market_ids) =
    let clean = trim market_id in
    let skips = is_empty clean || contains_id seen clean in
    let rest = clean_ids (if skips then seen else clean ∷ seen) market_ids in
    if skips then rest else clean ∷ rest

-- What the loops change. `selected_set` holds the ids of `selected_ids`.
pub record Batch : Type 0 where
  pub selected_ids : List Str
  pub consumed_requeues : List Str
  pub retained_requeues : List Str

-- One turn of the loop over the requeued ids.
unfoldable pub take_requeue : List Str → ℕ → Batch → Str → Batch
take_requeue enabled_ids max_slots batch market_id =
    if not (contains_id enabled_ids market_id) || contains_id batch.selected_ids market_id
    then batch
    else if ltb (length batch.selected_ids) max_slots
    then record {
      selected_ids = batch.selected_ids ++ market_id ∷ [];
      consumed_requeues = batch.consumed_requeues ++ market_id ∷ [];
      retained_requeues = batch.retained_requeues;
    }
    else record {
      selected_ids = batch.selected_ids;
      consumed_requeues = batch.consumed_requeues;
      retained_requeues = batch.retained_requeues ++ market_id ∷ [];
    }

unfoldable pub take_requeues : List Str → ℕ → Batch → List Str → Batch
take_requeues enabled_ids max_slots batch [] = batch
take_requeues enabled_ids max_slots batch (market_id ∷ market_ids) =
    take_requeues enabled_ids max_slots (take_requeue enabled_ids max_slots batch market_id)
      market_ids

-- The state of the round robin, and whether its loop breaks.
pub record Turn : Type 0 where
  pub selected_ids : List Str
  pub last_rr_idx : Option ℕ
  pub breaks : Bool

-- One turn of the round robin.
unfoldable pub round_robin_turn : ℕ → ℕ → Turn → Str → Turn
round_robin_turn max_slots idx turn market_id =
    let selected = turn.selected_ids ++ market_id ∷ [] in
    if contains_id turn.selected_ids market_id then turn else record {
      selected_ids = selected;
      last_rr_idx = some idx;
      breaks = leb max_slots (length selected);
    }

-- The loop over the steps from `step`, of which `steps` are left.
unfoldable pub round_robin : List Str → ℕ → ℕ → ℕ → ℕ → Turn → Run Turn
round_robin enabled_ids max_slots start_idx zero step turn = returned turn
round_robin enabled_ids max_slots start_idx (suc steps) step turn =
    let idx = (start_idx + step) % length enabled_ids in
    in_range (get_elem? enabled_ids idx) >>= λ market_id.
    let next = round_robin_turn max_slots idx turn market_id in
    let rest = round_robin enabled_ids max_slots start_idx steps (step + 1) next in
    if next.breaks then returned next else rest

-- `next_cursor`.
unfoldable pub next_cursor : ℕ → ℕ → Option ℕ → ℕ
next_cursor cursor total_enabled none = cursor
next_cursor cursor total_enabled (some last_rr_idx) = (last_rr_idx + 1) % total_enabled

-- `if round_robin_slots > 0`.
unfoldable pub fill_slots : List Str → ℕ → ℕ → List Str → Run (List Str × ℕ)
fill_slots enabled_ids max_slots cursor selected_ids =
    if ltb 0 (max_slots - length selected_ids)
    then (round_robin enabled_ids max_slots (cursor % length enabled_ids) (length enabled_ids) 0
          (record { selected_ids = selected_ids; last_rr_idx = none; breaks = false })
        >>= λ turn.
            returned (turn.selected_ids, next_cursor cursor (length enabled_ids) turn.last_rr_idx))
    else returned (selected_ids, cursor)

-- The loops for more enabled markets than slots.
unfoldable pub fill_batch : List Str → ℕ → ℕ → List Str → Run MarketBatchSelection
fill_batch enabled_ids max_slots cursor immediate_requeue_ids =
    let batch =
      take_requeues enabled_ids max_slots
        (record { selected_ids = []; consumed_requeues = []; retained_requeues = [] })
        immediate_requeue_ids in
    fill_slots enabled_ids max_slots cursor batch.selected_ids >>= λ filled. returned (record {
      selected_market_ids = filled.0;
      consumed_immediate_requeues = batch.consumed_requeues;
      cursor = filled.1;
      immediate_requeue_ids = batch.retained_requeues;
    })

unfoldable pub select_of_enabled : List Str → ℕ → ℕ → List Str → Run MarketBatchSelection
select_of_enabled enabled_ids max_slots cursor immediate_requeue_ids =
    if is_empty enabled_ids
    then returned (record {
      selected_market_ids = [];
      consumed_immediate_requeues = [];
      cursor = 0;
      immediate_requeue_ids = [];
    })
    else if leb (length enabled_ids) max_slots
    then returned (record {
      selected_market_ids = enabled_ids;
      consumed_immediate_requeues = [];
      cursor = cursor;
      immediate_requeue_ids = keep (contains_id enabled_ids) immediate_requeue_ids;
    })
    else fill_batch enabled_ids max_slots cursor immediate_requeue_ids

unfoldable pub select_market_batch : List Str → ℕ → ℕ → List Str → Run MarketBatchSelection
select_market_batch enabled_market_ids slot_count cursor immediate_requeue_ids =
    select_of_enabled (clean_ids [] enabled_market_ids) (max slot_count 1) cursor
      immediate_requeue_ids

unfoldable pub should_use_market_slot_dispatch : ℕ → ℕ → Bool
should_use_market_slot_dispatch enabled_market_count slot_count =
    ltb 0 slot_count && ltb slot_count enabled_market_count

-- `BTreeSet::insert`.
unfoldable pub insert_id : Str → List Str → List Str
insert_id id [] = id ∷ []
insert_id id (next ∷ ids) =
    let later = insert_id id ids in
    if str_eq next id
    then next ∷ ids
    else if str_less id next
    then id ∷ next ∷ ids
    else next ∷ later

unfoldable pub dedupe_from : List Str → List Str → List Str
dedupe_from deduped [] = deduped
dedupe_from deduped (market_id ∷ market_ids) =
    let clean = trim market_id in
    dedupe_from (if is_empty clean then deduped else insert_id clean deduped) market_ids

unfoldable pub dedupe_sorted_market_ids : List Str → List Str
dedupe_sorted_market_ids market_ids = dedupe_from [] market_ids

unfoldable pub should_try_cat_inventory_fallback : Bool → Str → Bool
should_try_cat_inventory_fallback coinset_scan_empty base_asset =
    let normalized = to_ascii_lowercase (trim base_asset) in
    if not coinset_scan_empty
    then false
    else not
        (str_eq normalized (codes "xch") || str_eq normalized (codes "1") || is_empty normalized)

unfoldable pub classify_dexie_stale_offer_status : ℤ → Option Str
classify_dexie_stale_offer_status status =
    if eqb_ℤ status (pos 4)
    then some (codes "tx_confirmed")
    else if eqb_ℤ status (pos 6)
    then some (codes "offer_expired")
    else none
