-- ===== src/CoinOps/Funding.antt =====
-- greenfloor-engine/src/coin_ops/shape/types.rs and deficit.rs: coins and rows of the ladder in one
-- unit of amount, and the rows that lack coins.
pub mod Combine
pub mod Inputs
pub mod Preserving
pub mod Usable
pub mod Funded
pub mod Lacking
pub mod Plan
pub mod Resolve
use greenfloor.Common.{
  ℕ, Bool, false, ◌&&◌, not, List, [], ◌∷◌, ◌++◌, none, some, if◌then◌else◌, map, replicate,
  is_empty, unwrap_or,
}
use greenfloor.Common.Int.{ℤ, pos, pos_part, max_ℤ, ltb_ℤ, leb_ℤ}
use greenfloor.Common.I64.{sub_i64, add_i64}
use greenfloor.Common.Str.{Str, trim}
use greenfloor.Common.Dict.{Dict, ℤ_key, lookup}
use greenfloor.CoinOps.Shape.{
  LadderShapeContext, required_ladder_row_slot, collect, from_required_rows,
}

pub data AmountUnit : Type 0 where
  plan_units : ℤ → AmountUnit
  mojos : ℤ → AmountUnit

unfoldable pub ladder_conversion_multiplier : AmountUnit → ℤ
ladder_conversion_multiplier (plan_units dust_mojo_multiplier) = pos 1
ladder_conversion_multiplier (mojos base_unit_mojo_multiplier) =
    max_ℤ base_unit_mojo_multiplier (pos 1)

unfoldable pub dust_change_mojo_multiplier : AmountUnit → ℤ
dust_change_mojo_multiplier (plan_units dust_mojo_multiplier) = max_ℤ dust_mojo_multiplier (pos 1)
dust_change_mojo_multiplier (mojos base_unit_mojo_multiplier) = pos 1

pub record ShapeCoin : Type 0 where
  pub id : Str
  pub amount : ℤ

unfoldable pub is_spendable : ShapeCoin → Bool
unfolding trim
is_spendable coin = not (is_empty (trim coin.id)) && ltb_ℤ (pos 0) coin.amount

pub record CombineInputs : Type 0 where
  pub input_coin_ids : List Str
  pub selected_total : ℤ
  pub target_amount : ℤ
  pub exact_match : Bool
  pub cap_applied : Bool
  pub selected_count_before_cap : ℕ
  pub combine_input_cap : ℤ

pub data ShapeFunding : Type 0 where
  single_coin : Str → ℤ → ShapeFunding
  combine_first : CombineInputs → ShapeFunding

unfoldable pub funding_amount : ShapeFunding → ℤ
funding_amount (single_coin coin_id amount) = amount
funding_amount (combine_first inputs) = inputs.selected_total

pub data ShapeFundingResolution : Type 0 where
  funded : ShapeFunding → ShapeFundingResolution
  cannot_fund : ℤ → ShapeFundingResolution

pub record ShapeLadderRow : Type 0 where
  pub size : ℤ
  pub target_count : ℤ
  pub split_buffer_count : ℤ

pub record ShapeDeficit : Type 0 where
  pub size : ℤ
  pub required_count : ℤ
  pub current_count : ℤ

unfoldable pub deficit_count : ShapeDeficit → ℤ
deficit_count deficit = sub_i64 deficit.required_count deficit.current_count

unfoldable pub required_rows : List ShapeLadderRow → List (ℤ × ℤ)
unfolding required_ladder_row_slot
required_rows = map λ row. required_ladder_row_slot row.size row.target_count row.split_buffer_count

unfoldable pub shape_context_for_rows : List ShapeLadderRow → List ℤ → LadderShapeContext
unfolding from_required_rows required_rows
shape_context_for_rows rows spendable_amounts =
    from_required_rows (required_rows rows) spendable_amounts

unfoldable pub protected_slots_for_rows : List ShapeLadderRow → Dict ℤ ℤ
unfolding collect required_rows
protected_slots_for_rows rows = collect [] (required_rows rows)

-- The deficits with the amounts of the coins that they lack.
unfoldable pub collect_shape_deficits :
    List ShapeLadderRow → LadderShapeContext → List ShapeDeficit × List ℤ
collect_shape_deficits [] shape_ctx = ([], [])
collect_shape_deficits (row ∷ sorted_rows) shape_ctx =
    let required = unwrap_or (lookup row.size shape_ctx.protected_slots) (pos 0) in
    let current = unwrap_or (lookup row.size shape_ctx.exact_ladder_counts) (pos 0) in
    let deficit = sub_i64 required current in
    let rest = collect_shape_deficits sorted_rows shape_ctx in
    if leb_ℤ deficit (pos 0) then rest else (
      record { size = row.size; required_count = required; current_count = current } ∷ rest.0,
      replicate (pos_part deficit) row.size ++ rest.1,
    )
