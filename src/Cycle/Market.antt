-- ===== src/Cycle/Market.antt =====
-- greenfloor-engine/src/cycle/market.rs: the phases of a cycle, what it counts, and the sizes that it
-- tracks.
pub mod Tracked
use greenfloor.Common.{
  ℕ, Bool, true, false, ◌&&◌, ◌||◌, not, List, [], ◌∷◌, ◌++◌, Option, none, some, if◌then◌else◌,
  keep, unwrap_or, is_empty,
}
use greenfloor.Common.Int.{ℤ, pos, max_ℤ, ltb_ℤ, leb_ℤ, eqb_ℤ}
use greenfloor.Common.I64.{add_i64}
use greenfloor.Common.Str.{Str, codes, str_eq, trim, to_ascii_lowercase}
use greenfloor.Common.Run.{Sorted, get, put}

pub data MarketCyclePhase : Type 0 where
  reconcile : MarketCyclePhase
  soft_expire : MarketCyclePhase
  inventory : MarketCyclePhase
  strategy : MarketCyclePhase
  cancel : MarketCyclePhase
  coin_ops : MarketCyclePhase

unfoldable pub phase_name : MarketCyclePhase → Str
phase_name reconcile = codes "reconcile"
phase_name soft_expire = codes "soft_expire"
phase_name inventory = codes "inventory"
phase_name strategy = codes "strategy"
phase_name cancel = codes "cancel"
phase_name coin_ops = codes "coin_ops"

abbrev pub post_reconcile_market_cycle_phases : List MarketCyclePhase
post_reconcile_market_cycle_phases = soft_expire ∷ inventory ∷ strategy ∷ cancel ∷ coin_ops ∷ []

abbrev pub market_cycle_phases : List MarketCyclePhase
market_cycle_phases = reconcile ∷ soft_expire ∷ inventory ∷ strategy ∷ cancel ∷ coin_ops ∷ []

pub record MarketCycleResultState : Type 0 where
  pub cycle_errors : ℤ
  pub strategy_planned : ℤ
  pub strategy_executed : ℤ
  pub cancel_triggered : Bool
  pub cancel_planned : ℤ
  pub cancel_executed : ℤ
  pub immediate_requeue_requested : Bool
  pub immediate_requeue_signals : List Str

unfoldable pub record_phase_error : MarketCycleResultState → MarketCycleResultState
record_phase_error s = record {
  cycle_errors = add_i64 s.cycle_errors (pos 1);
  strategy_planned = s.strategy_planned;
  strategy_executed = s.strategy_executed;
  cancel_triggered = s.cancel_triggered;
  cancel_planned = s.cancel_planned;
  cancel_executed = s.cancel_executed;
  immediate_requeue_requested = s.immediate_requeue_requested;
  immediate_requeue_signals = s.immediate_requeue_signals;
}

unfoldable pub merge_strategy_execution : ℤ → ℤ → MarketCycleResultState → MarketCycleResultState
merge_strategy_execution planned executed s = record {
  cycle_errors = s.cycle_errors;
  strategy_planned = add_i64 s.strategy_planned (max_ℤ planned (pos 0));
  strategy_executed = add_i64 s.strategy_executed (max_ℤ executed (pos 0));
  cancel_triggered = s.cancel_triggered;
  cancel_planned = s.cancel_planned;
  cancel_executed = s.cancel_executed;
  immediate_requeue_requested = s.immediate_requeue_requested;
  immediate_requeue_signals = s.immediate_requeue_signals;
}

unfoldable pub merge_cancel_policy : Bool → ℤ → ℤ → MarketCycleResultState → MarketCycleResultState
merge_cancel_policy triggered planned executed s = record {
  cycle_errors = s.cycle_errors;
  strategy_planned = s.strategy_planned;
  strategy_executed = s.strategy_executed;
  cancel_triggered = if triggered then true else s.cancel_triggered;
  cancel_planned = add_i64 s.cancel_planned (max_ℤ planned (pos 0));
  cancel_executed = add_i64 s.cancel_executed (max_ℤ executed (pos 0));
  immediate_requeue_requested = s.immediate_requeue_requested;
  immediate_requeue_signals = s.immediate_requeue_signals;
}

-- The signal that `request_immediate_requeue` pushes.
unfoldable pub push_signal : Option Str → List Str → List Str
push_signal none signals = signals
push_signal (some value) signals =
    let clean = trim value in if not (is_empty clean) then signals ++ (clean ∷ []) else signals

unfoldable pub request_immediate_requeue :
    Option Str → MarketCycleResultState → MarketCycleResultState
request_immediate_requeue signal s = record {
  cycle_errors = s.cycle_errors;
  strategy_planned = s.strategy_planned;
  strategy_executed = s.strategy_executed;
  cancel_triggered = s.cancel_triggered;
  cancel_planned = s.cancel_planned;
  cancel_executed = s.cancel_executed;
  immediate_requeue_requested = true;
  immediate_requeue_signals = push_signal signal s.immediate_requeue_signals;
}

unfoldable pub request_all : List Str → MarketCycleResultState → MarketCycleResultState
request_all [] s = s
request_all (signal ∷ signals) s = request_all signals (request_immediate_requeue (some signal) s)

unfoldable pub merge_immediate_requeue_from_reconcile :
    Bool → List Str → MarketCycleResultState → MarketCycleResultState
merge_immediate_requeue_from_reconcile requested signals s =
    if not requested
    then s
    else if is_empty signals
    then request_immediate_requeue none s
    else request_all signals s

unfoldable pub needs_inventory_fallback : Bool → Bool → Bool
needs_inventory_fallback bucket_counts_available coinset_scan_empty =
    not bucket_counts_available || coinset_scan_empty

unfoldable pub wallet_fallback_source_label : Bool → Str
wallet_fallback_source_label coinset_scan_empty =
    if coinset_scan_empty
    then codes "wallet_adapter_fallback_after_empty_coinset_scan"
    else codes "wallet_adapter"

pub record CoinsetInventoryScanState : Type 0 where
  pub found_coins : Bool
  pub empty : Bool

pub record SupplementalInventoryScanState : Type 0 where
  pub cat_found_coins : Bool
  pub wallet_found_coins : Bool

unfoldable pub resolve_inventory_scan_source :
    CoinsetInventoryScanState → SupplementalInventoryScanState → Str
resolve_inventory_scan_source coinset supplemental =
    if coinset.found_coins
    then codes "coinset"
    else if supplemental.cat_found_coins && coinset.empty
    then codes "coinset_cat_scan_fallback_after_empty_coinset_scan"
    else if supplemental.wallet_found_coins
    then wallet_fallback_source_label coinset.empty
    else codes "config_seed_or_no_asset_scan"

-- `sort_unstable` and `dedup`: equal integers are one after sorting.
unfoldable pub place_size : ℤ → List ℤ → List ℤ
place_size size [] = size ∷ []
place_size size (next ∷ sizes) =
    let later = place_size size sizes in
    if ltb_ℤ next size then next ∷ later else size ∷ next ∷ sizes

unfoldable pub sort_sizes : List ℤ → List ℤ
sort_sizes [] = []
sort_sizes (size ∷ sizes) = place_size size (sort_sizes sizes)

-- `dedup`: the first of each run stays.
unfoldable pub dedup_after : ℤ → List ℤ → List ℤ
dedup_after last [] = []
dedup_after last (size ∷ sizes) =
    let skip = dedup_after last sizes in
    let rest = dedup_after size sizes in if eqb_ℤ size last then skip else size ∷ rest

unfoldable pub dedup : List ℤ → List ℤ
dedup [] = []
dedup (size ∷ sizes) = size ∷ dedup_after size sizes

unfoldable pub positive_sizes : List ℤ → List ℤ
positive_sizes sizes = keep (λ size. ltb_ℤ (pos 0) size) sizes

unfoldable pub resolve_tracked_sizes : List ℤ → List ℤ → List ℤ
resolve_tracked_sizes ladder_sizes strategy_default_sizes =
    let tracked = positive_sizes ladder_sizes in
    dedup (sort_sizes (if is_empty tracked then positive_sizes strategy_default_sizes else tracked))

-- Collecting into a `BTreeMap`, from the entries collected so far.
unfoldable pub aggregate_from : Sorted ℤ → Sorted ℤ → Sorted ℤ → List ℤ → Sorted ℤ
aggregate_from totals buy_counts sell_counts [] = totals
aggregate_from totals buy_counts sell_counts (size ∷ sizes) =
    aggregate_from
      (put size
        (add_i64 (unwrap_or (get size buy_counts) (pos 0))
          (unwrap_or (get size sell_counts) (pos 0)))
        totals)
      buy_counts sell_counts sizes

unfoldable pub aggregate_two_sided_offer_counts : Sorted ℤ → Sorted ℤ → List ℤ → Sorted ℤ
aggregate_two_sided_offer_counts buy_counts sell_counts tracked_sizes =
    aggregate_from [] buy_counts sell_counts tracked_sizes

unfoldable pub one_sided_from : Sorted ℤ → Sorted ℤ → Sorted ℤ → List ℤ → Sorted ℤ × Sorted ℤ
one_sided_from buy sell sell_counts [] = (buy, sell)
one_sided_from buy sell sell_counts (size ∷ sizes) =
    one_sided_from (put size (pos 0) buy) (put size (unwrap_or (get size sell_counts) (pos 0)) sell)
      sell_counts sizes

unfoldable pub one_sided_offer_counts_by_side : Sorted ℤ → List ℤ → Sorted ℤ × Sorted ℤ
one_sided_offer_counts_by_side sell_counts tracked_sizes =
    one_sided_from [] [] sell_counts tracked_sizes

-- `eq_ignore_ascii_case`.
unfoldable pub is_two_sided_market_mode : Str → Bool
is_two_sided_market_mode market_mode =
    str_eq (to_ascii_lowercase (trim market_mode)) (codes "two_sided")
