-- ===== src/Cycle/Strategy.antt =====
-- greenfloor-engine/src/cycle/strategy.rs: the offers that are missing to reach the targets.
pub mod Gaps
use greenfloor.Common.{
  ℕ, Bool, true, false, ◌&&◌, ◌||◌, List, [], ◌∷◌, ◌++◌, Option, none, some, ltb, if◌then◌else◌,
  map, keep, unwrap_or,
}
use greenfloor.Common.Int.{ℤ, pos, ltb_ℤ, leb_ℤ, eqb_ℤ}
use greenfloor.Common.I64.{sub_i64}
use greenfloor.Common.Str.{Str, codes, str_eq, to_ascii_lowercase}
use greenfloor.Common.Float.{Float}
use greenfloor.Common.Run.{Sorted, get}

pub record MarketState (F : Type 0) : Type 0 where
  pub ones : ℤ
  pub tens : ℤ
  pub hundreds : ℤ
  pub xch_price_usd : Option F
  pub bucket_counts_by_size : Option (Sorted ℤ)

pub record StrategyConfig (F : Type 0) : Type 0 where
  pub pair : Str
  pub ones_target : ℤ
  pub tens_target : ℤ
  pub hundreds_target : ℤ
  pub target_spread_bps : Option ℤ
  pub min_xch_price_usd : Option F
  pub max_xch_price_usd : Option F
  pub offer_expiry_minutes : Option ℤ
  pub target_counts_by_size : Option (Sorted ℤ)

pub record PlannedAction : Type 0 where
  pub size : ℤ
  pub repeat : ℤ
  pub pair : Str
  pub expiry_unit : Str
  pub expiry_value : ℤ
  pub cancel_after_create : Bool
  pub reason : Str
  pub target_spread_bps : Option ℤ
  pub side : Str

-- The test of the `filter_map` of `strategy_target_counts`.
unfoldable pub is_target : ℤ × ℤ → Bool
is_target (size, target) = ltb_ℤ (pos 0) size && leb_ℤ (pos 0) target

-- `sort_by_key(|entry| entry.0)`, which is stable.
unfoldable pub place_target : ℤ × ℤ → List (ℤ × ℤ) → List (ℤ × ℤ)
place_target entry [] = entry ∷ []
place_target entry (next ∷ entries) =
    let later = place_target entry entries in
    if ltb_ℤ next.0 entry.0 then next ∷ later else entry ∷ next ∷ entries

unfoldable pub sort_targets : List (ℤ × ℤ) → List (ℤ × ℤ)
sort_targets [] = []
sort_targets (entry ∷ entries) = place_target entry (sort_targets entries)

-- `DEFAULT_OFFER_EXPIRY_MINUTES`, for an option that is missing or not above 0.
unfoldable pub expiry_minutes : Option ℤ → ℤ
expiry_minutes none = pos 10
expiry_minutes (some value) = if ltb_ℤ (pos 0) value then value else pos 10

module _ {F : Type 0} (float : Float F) where
  unfoldable pub strategy_target_counts : StrategyConfig F → List (ℤ × ℤ)
  strategy_target_counts config = elim config.target_counts_by_size [
    | some targets ↦ sort_targets (keep is_target targets)
    | none ↦
        (pos 1, config.ones_target)
        ∷ (pos 10, config.tens_target)
        ∷ (pos 100, config.hundreds_target)
        ∷ []
  ]

  unfoldable pub state_count_for_size : MarketState F → ℤ → ℤ
  state_count_for_size state size = elim state.bucket_counts_by_size [
    | some buckets ↦ unwrap_or (get size buckets) (pos 0)
    | none ↦
        if eqb_ℤ size (pos 1)
        then state.ones
        else if eqb_ℤ size (pos 10)
        then state.tens
        else if eqb_ℤ size (pos 100)
        then state.hundreds
        else pos 0
  ]

  -- The bounds on the price of a market in XCH.
  unfoldable pub is_within : Option F → Option F → F → Bool
  is_within min_price max_price price =
      if float.less_equal price (float.of_i64 (pos 0))
      then false
      else if elim min_price [ none ↦ false | some min ↦ float.less price min ]
      then false
      else if elim max_price [ none ↦ false | some max ↦ float.less max price ]
      then false
      else true

  -- The guards of `evaluate_market`.
  unfoldable pub is_priced : MarketState F → StrategyConfig F → Bool
  is_priced state config =
      if str_eq (to_ascii_lowercase config.pair) (codes "xch")
      then elim state.xch_price_usd [
        | none ↦ false
        | some price ↦ is_within config.min_xch_price_usd config.max_xch_price_usd price
      ]
      else true

  unfoldable pub action_for : StrategyConfig F → ℤ → ℤ → PlannedAction
  action_for config size repeat = record {
    size = size;
    repeat = repeat;
    pair = to_ascii_lowercase config.pair;
    expiry_unit = codes "minutes";
    expiry_value = expiry_minutes config.offer_expiry_minutes;
    cancel_after_create = true;
    reason = codes "below_target";
    target_spread_bps = config.target_spread_bps;
    side = codes "sell";
  }

  -- The loop over the targets.
  unfoldable pub actions_for : MarketState F → StrategyConfig F → List (ℤ × ℤ) → List PlannedAction
  actions_for state config [] = []
  actions_for state config ((size, target) ∷ targets) =
      let current = state_count_for_size state size in
      let rest = actions_for state config targets in
      if ltb_ℤ current target then action_for config size (sub_i64 target current) ∷ rest else rest

  unfoldable pub evaluate_market : MarketState F → StrategyConfig F → List PlannedAction
  evaluate_market state config =
      if is_priced state config
      then actions_for state config (strategy_target_counts config)
      else []

  -- `action.side = side`.
  abbrev pub on_side : Str → PlannedAction → PlannedAction
  on_side side action = record {
    size = action.size;
    repeat = action.repeat;
    pair = action.pair;
    expiry_unit = action.expiry_unit;
    expiry_value = action.expiry_value;
    cancel_after_create = action.cancel_after_create;
    reason = action.reason;
    target_spread_bps = action.target_spread_bps;
    side = side;
  }

  unfoldable pub evaluate_two_sided_market_actions :
      MarketState F → MarketState F → StrategyConfig F → StrategyConfig F → List PlannedAction
  evaluate_two_sided_market_actions buy_state sell_state buy_config sell_config =
      map (on_side (codes "buy")) (evaluate_market buy_state buy_config)
      ++ map (on_side (codes "sell")) (evaluate_market sell_state sell_config)
