-- ===== src/Tests/Cycle.antt =====
-- What a cycle plans, at concrete inputs.
use greenfloor.Common.{
  ℕ, ◌+◌, ◌≤◌, ◌<◌, ◌≡◌, ◌≢◌, ◌↔◌, refl, Bool, true, false, ◌&&◌, not, List, [], ◌∷◌, Option, none,
  some, arith, All, if◌then◌else◌, is_empty, length, min, max,
}
use greenfloor.Common.Int.{ℤ, pos, ltb_ℤ, leb_ℤ, eqb_ℤ, ◌-ℤ◌, ◌<ℤ◌, max_ℤ}
use greenfloor.Common.Run.{returned, Returns}
use greenfloor.Common.Str.{Str, codes, str_eq, trim, to_ascii_lowercase}
use greenfloor.Common.Float.{Float, lesser, equal, greater}
use greenfloor.CoinOps.Kind.{split, combine}
use greenfloor.CoinOps.FeeBudget.{projected_coin_ops_fee_mojos}
use greenfloor.CoinOps.Planning.{BucketSpec, deficits_of, plan_coin_ops}
use greenfloor.CoinOps.Planning.Budget.{Keeps, plan_coin_ops-Keeps}
use greenfloor.Cycle.Strategy.{
  MarketState, StrategyConfig, is_priced, is_within, strategy_target_counts, state_count_for_size,
  evaluate_market,
}
use greenfloor.Cycle.Strategy.Gaps.{Fills, is_planned, evaluate_market-Fills}
use greenfloor.Cycle.Reseed.{empty_market_state, plan_reseed_actions_from_gap}
use greenfloor.Cycle.Reseed.Complete.{shortfall}
use greenfloor.Cycle.Reseed.Filled.{Reseeds, reseeding_fills}
use greenfloor.Common.I64.{two_63}
use greenfloor.Cycle.Market.{positive_sizes, resolve_tracked_sizes}
use greenfloor.Cycle.Market.Tracked.{Ascending, occurs, tracked_sizes}
use greenfloor.Cycle.Cancel.{evaluate_cancel_policy_decision}
use greenfloor.Cycle.Cancel.Triggered.{Moves, triggered_iff}
use greenfloor.Cycle.Orchestration.{clean_ids, select_market_batch}
use greenfloor.Cycle.Orchestration.Selected.{Allowed, batch-Allowed}
use greenfloor.Cycle.Orchestration.Full.{batch-Full}
use greenfloor.Cycle.Sweep.{collect_stale_sweep_candidates}
use greenfloor.Cycle.Notifications.{LowInventoryInput, AlertEvent, evaluate_low_inventory_alert}
use greenfloor.Cycle.Notifications.Cooldown.{IsQuiet, no_alert_before_cooldown}

-- Whole numbers in place of f64; the division is not needed exactly.
abbrev whole : Float ℤ
whole = record {
  of_i64 = λ n. n;
  to_i64 = λ n. n;
  less = ltb_ℤ;
  less_equal = leb_ℤ;
  ordering = λ a b. some (if ltb_ℤ a b then lesser else if eqb_ℤ a b then equal else greater);
  plus = λ a b. a;
  minus = ◌-ℤ◌;
  times = λ a b. a;
  divide = λ a b. a;
  absolute = λ a. a;
  larger = max_ℤ;
  ceiling = λ a. a;
  round = λ a. a;
  is_finite = λ a. true;
}

abbrev bucket : BucketSpec ℤ
bucket = record {
  size_base_units = pos 10;
  target_count = pos 3;
  split_buffer_count = pos 1;
  combine_when_excess_factor = pos 2;
  current_count = pos 1;
}

budget_example :
    Keeps 5 7 2 11
      (if is_empty (deficits_of whole (bucket ∷ [])) then combine else split)
      (plan_coin_ops whole (bucket ∷ []) (pos 2) (pos 11) (pos 5) (pos 7)).plans
budget_example =
    plan_coin_ops-Keeps whole (bucket ∷ []) 2 11 5 7 (omega arith) (omega arith) (omega arith)

abbrev state : MarketState ℤ
state = record {
  ones = pos 4;
  tens = pos 2;
  hundreds = pos 0;
  xch_price_usd = some (pos 30);
  bucket_counts_by_size = none;
}

abbrev config : StrategyConfig ℤ
config = record {
  pair = codes "XCH";
  ones_target = pos 5;
  tens_target = pos 2;
  hundreds_target = pos 1;
  target_spread_bps = none;
  min_xch_price_usd = some (pos 20);
  max_xch_price_usd = some (pos 40);
  offer_expiry_minutes = none;
  target_counts_by_size = none;
}

market_example :
    All
      (Fills whole state config (strategy_target_counts whole config))
      (evaluate_market whole state config)
    × (is_planned
          (pos 1)
          (pos 5 -ℤ state_count_for_size whole state (pos 1))
          (evaluate_market whole state config)
        ≡ true)
unfolding is_priced to_ascii_lowercase is_within strategy_target_counts state_count_for_size ◌-ℤ◌
market_example =
    evaluate_market-Fills whole state config (pos 1) (pos 5) refl
      ((omega arith, omega arith), ((omega arith, omega arith), ((omega arith, omega arith), tt)))
      refl (omega arith)

-- A budget of 10 with a fee of 10 lets one plan of 3 operations through, whose fees are 30 when they
-- are charged by the operation.
three_for_one_fee :
    projected_coin_ops_fee_mojos
      (plan_coin_ops whole (bucket ∷ []) (pos 5) (pos 10) (pos 10) (pos 10)).plans
      (pos 10)
      (pos 10)
    ≡ pos 30
unfolding projected_coin_ops_fee_mojos plan_coin_ops deficits_of
    greenfloor.CoinOps.Planning.sort_deficits greenfloor.CoinOps.Planning.deficit_of
    greenfloor.Common.I64.sub_i64 greenfloor.Common.I64.wrap_i64 ◌-ℤ◌ greenfloor.Common.I64.add_i64
    greenfloor.Common.Int.◌+ℤ◌ greenfloor.CoinOps.Planning.place_deficit
    greenfloor.CoinOps.Planning.plan_ops greenfloor.CoinOps.Planning.fee_budget
    greenfloor.Common.I64.mul_i64 greenfloor.Common.Int.◌*ℤ◌
three_for_one_fee = refl

-- 2 of 5 offers of the size 1 are active.
three_short : shortfall ((pos 1, pos 2) ∷ []) ((pos 1, pos 5) ∷ []) < two_63
unfolding shortfall greenfloor.Common.I64.sub_i64 greenfloor.Common.I64.wrap_i64 ◌-ℤ◌
three_short = omega arith

reseed_example :
    Reseeds
      ((pos 1, pos 2) ∷ [])
      ((pos 1, pos 5) ∷ [])
      (evaluate_market whole (empty_market_state whole (some (pos 30))) config)
      (plan_reseed_actions_from_gap whole []
        ((pos 1, pos 2) ∷ [])
        ((pos 1, pos 5) ∷ [])
        config
        (some (pos 30)))
reseed_example =
    reseeding_fills whole ((pos 1, pos 2) ∷ []) ((pos 1, pos 5) ∷ []) config (some (pos 30))
      three_short

tracked_example :
    Ascending (resolve_tracked_sizes (pos 10 ∷ pos 1 ∷ pos 10 ∷ []) [])
    × (occurs (pos 10) (resolve_tracked_sizes (pos 10 ∷ pos 1 ∷ pos 10 ∷ []) []) ≡ (
        ltb_ℤ (pos 0) (pos 10)
        && occurs (pos 10) (
            if is_empty (positive_sizes (pos 10 ∷ pos 1 ∷ pos 10 ∷ []))
            then []
            else pos 10 ∷ pos 1 ∷ pos 10 ∷ [])))
tracked_example = tracked_sizes (pos 10 ∷ pos 1 ∷ pos 10 ∷ []) [] (pos 10)

triggered_example :
    let decision =
      evaluate_cancel_policy_decision whole
        (codes " Unstable")
        true
        (some (pos 900))
        (some (pos 300))
        none
        none in
    (pos 0 <ℤ decision.threshold_bps)
    × ((decision.triggered ≡ true) ↔ (
        (str_eq (to_ascii_lowercase (trim (codes " Unstable"))) (codes "unstable") ≡ true)
        × (true ≡ true)
        × Moves whole (some (pos 900)) (some (pos 300)) decision.threshold_bps))
triggered_example =
    triggered_iff whole (codes " Unstable") true (some (pos 900)) (some (pos 300)) none none

-- An inventory of 3 below a threshold of 5, at a time and from a state.
abbrev low_at : ℕ → Bool → Option ℤ → LowInventoryInput ℤ
low_at now is_low last = record {
  now_unix = pos now;
  low_inventory_enabled = true;
  program_default_threshold = pos 5;
  clear_hysteresis_percent = pos 10;
  dedup_cooldown_seconds = pos 60;
  market_enabled = true;
  market_id = codes "market";
  ticker = codes "T";
  receive_address = codes "xch1";
  market_threshold = none;
  low_watermark = pos 0;
  remaining = pos 3;
  state_is_low = is_low;
  state_last_alert_at_unix = last;
}

abbrev first_alert : AlertEvent
first_alert = record {
  market_id = codes "market";
  ticker = codes "T";
  remaining_amount = pos 3;
  receive_address = codes "xch1";
  reason = codes "low_triggered";
}

abbrev two_more : List (LowInventoryInput ℤ)
two_more = low_at 120 true (some (pos 100)) ∷ low_at 150 true (some (pos 100)) ∷ []

cooldown_example : All (IsQuiet whole) two_more
unfolding evaluate_low_inventory_alert greenfloor.Cycle.Notifications.hysteresis_target
    greenfloor.Pricing.f64_to_i64_round_ladder greenfloor.Pricing.f64_to_i64_round_internal
    greenfloor.Pricing.i64_to_f64 greenfloor.Cycle.Notifications.compute_low_inventory_threshold
    greenfloor.Cycle.Notifications.alert_low greenfloor.Cycle.Notifications.event_for
    greenfloor.Cycle.Notifications.is_reminder greenfloor.Common.I64.saturating_sub ◌-ℤ◌
cooldown_example =
    no_alert_before_cooldown whole (low_at 100 false none) first_alert two_more refl
      (refl, refl, (refl, refl, tt)) ((refl, refl), ((refl, refl), tt))

-- Four markets with two slots, one of them requeued.
abbrev four_markets : List Str
four_markets = codes "m1" ∷ codes "m2" ∷ codes "m3" ∷ codes "m4" ∷ []

requeued_first :
    select_market_batch four_markets 2 0 (codes "m3" ∷ [])
    ≡ returned (record {
      selected_market_ids = codes "m3" ∷ codes "m1" ∷ [];
      consumed_immediate_requeues = codes "m3" ∷ [];
      cursor = 1;
      immediate_requeue_ids = [];
    })
unfolding select_market_batch greenfloor.Cycle.Orchestration.select_of_enabled clean_ids trim
    greenfloor.CoinOps.Coin.contains_id greenfloor.Cycle.Orchestration.fill_batch
    greenfloor.Cycle.Orchestration.fill_slots greenfloor.Cycle.Orchestration.take_requeues
    greenfloor.Cycle.Orchestration.take_requeue greenfloor.Cycle.Orchestration.round_robin
    greenfloor.Cycle.Orchestration.round_robin_turn greenfloor.Cycle.Orchestration.next_cursor
requeued_first = refl

batch_members_example :
    Returns
      (λ end. Allowed (clean_ids [] four_markets) (max 2 1) end.selected_market_ids)
      (select_market_batch four_markets 2 0 (codes "m3" ∷ []))
batch_members_example = batch-Allowed four_markets 2 0 (codes "m3" ∷ [])

full_batch_example :
    Returns
      (λ end. min (max 2 1) (length (clean_ids [] four_markets)) ≤ length end.selected_market_ids)
      (select_market_batch four_markets 2 0 (codes "m3" ∷ []))
full_batch_example = batch-Full four_markets 2 0 (codes "m3" ∷ [])

-- Of two offers of a market the expired one is passed over.
open_offer_swept :
    collect_stale_sweep_candidates
      (record { market_id = codes "m1"; offer_id = codes "o1"; state = codes "open" }
        ∷ record { market_id = codes "m1"; offer_id = codes "o2"; state = codes "expired" }
        ∷ [])
      (codes "m1" ∷ [])
      3
    ≡ record { market_id = codes "m1"; offer_id = codes "o1" } ∷ []
unfolding collect_stale_sweep_candidates greenfloor.Cycle.Sweep.candidates_of
    greenfloor.Cycle.Sweep.offers_from greenfloor.Cycle.Sweep.is_swept
    greenfloor.Cycle.Sweep.add_offer greenfloor.Cycle.Sweep.push_offer trim
    greenfloor.CoinOps.Coin.contains_id to_ascii_lowercase
open_offer_swept = refl
