-- ===== src/CoinOps/Target/Choice.antt =====
-- greenfloor-engine/src/coin_ops/selection.rs: the loop over the table chooses a least sum.
use greenfloor.Common.{
  and_true, leb→le, ℕ, zero, suc, ◌+◌, ◌≤◌, ◌<◌, ◌≡◌, refl, true, false, ◌&&◌, List, [], ◌∷◌,
  Option, none, some, arith, leb, if◌then◌else◌, length, get_elem?, All, Bool-cases, inl, inr,
  length-append,
}
use mathlib.Core.Option.{some-injective}
use greenfloor.Common.Int.{ℤ, pos, pos_part, eqb_ℤ, eqb_ℤ-iff}
use greenfloor.Common.I64.{two_63}
use greenfloor.Common.Run.{get}
use greenfloor.Common.Str.{Str}
use greenfloor.CoinOps.Target.{Entry, SubsetMap, is_candidate, beats_chosen, choose_from}
use greenfloor.CoinOps.Target.Subsets.{worth, Positive, Reaches, begin, leave, pick, Reaches-le}
use greenfloor.CoinOps.Target.Table.{IsReached}
use greenfloor.CoinOps.Target.{max_amount, min_overshoot, precedes, overshoot_subset_better}
use greenfloor.Common.I64.{sub_i64-pos}

pub length_le :
    {entries : List Entry} {idx : ℕ} {subset : List ℕ} {sum : ℕ}
    → Reaches entries idx subset sum
    → length subset ≤ sum
length_le begin = omega arith
length_le (leave r) = length_le r
length_le (pick {idx} {subset} id a h r) =
    omega (arith, length_le r, length-append subset (idx ∷ []))

pub length_pos :
    {entries : List Entry} {idx : ℕ} {subset : List ℕ} {sum : ℕ}
    → Reaches entries idx subset sum
    → 0 < sum
    → 1 ≤ length subset
length_pos begin h = absurd (omega (arith, h))
length_pos (leave r) h = length_pos r h
length_pos (pick {idx} {subset} id a e r) h = omega (arith, length-append subset (idx ∷ []))

-- The largest amount bounds the amount at an index.
max_amount-get :
    (entries : List Entry) (idx : ℕ) (id : Str) (a : ℕ)
    → Positive entries
    → get_elem? entries idx ≡ some (id, pos (suc a))
    → suc a ≤ pos_part (max_amount entries)
unfolding max_amount
max_amount-get [] idx id a p h = absurd (ground (arith, h))
max_amount-get ((_, amount) ∷ entries) zero id a ((b, e), p) h = ground (arith, h, e)
max_amount-get ((_, amount) ∷ entries) (suc idx) id a ((b, e), p) h =
    ground (arith, max_amount-get entries idx id a p h)

-- A covering subset has one within it that stays below the target and the largest amount.
pub trimmed :
    {entries : List Entry} {idx : ℕ} {subset : List ℕ} {sum : ℕ} (target : ℕ)
    → Positive entries
    → Reaches entries idx subset sum
    → target ≤ sum
    → (kept : List ℕ) × (total : ℕ) × Reaches entries idx kept total
      × (target ≤ total)
      × (total ≤ sum)
      × (total ≤ target + pos_part (max_amount entries))
trimmed target p begin h = ([], 0, begin, h, omega arith, omega arith)
trimmed target p (leave r) h =
    let (kept, total, q, a, b, c) = trimmed target p r h in (kept, total, leave q, a, b, c)
trimmed {entries} target p (pick {idx} {subset} {sum} id a e r) h =
    elim (Bool-cases (leb target sum)) [
      | inl enough ↦
          let (kept, total, q, low, b, c) = trimmed target p r (leb→le target sum enough) in
          (kept, total, leave q, low, omega (arith, b), c)
      | inr short ↦ (
        _,
        _,
        pick id a e r,
        h,
        omega arith,
        ground (arith, short, max_amount-get entries idx id a p e),
      )
    ]

module _ (r : ℕ) where
  beats :
      (sum : ℤ) (subset : List ℕ) (best_sum : ℤ) (best_subset : List ℕ) (a b : ℕ)
      → sum ≡ pos a
      → best_sum ≡ pos b
      → r ≤ a
      → r ≤ b
      → a < two_63
      → b < two_63
      → let better =
          beats_chosen (pos r) min_overshoot (sum, subset) (some (best_sum, best_subset)) in
        (better ≡ true → a ≤ b) × (better ≡ false → b ≤ a)
  unfolding beats_chosen overshoot_subset_better precedes
  beats sum subset best_sum best_subset a b e f ra rb fa fb =
      rw (e, f, sub_i64-pos a r ra fa, sub_i64-pos b r rb fb) (ground arith)

  -- The chosen sum, at most `n`.
  abbrev pub Low : ℕ → Option (ℤ × List ℕ) → Type 0
  Low n none = ⊥
  Low n (some (sum, _)) = (m : ℕ) × (sum ≡ pos m) × (r ≤ m) × (m ≤ n)

  abbrev pub Fine : Option (ℤ × List ℕ) → Type 0
  Fine none = Unit
  Fine (some (sum, _)) = (m : ℕ) × (sum ≡ pos m) × (r ≤ m) × (m < two_63)

  module _ (entries : List Entry) (fits : worth entries < two_63) where
    -- What the loop keeps of a row.
    abbrev step : Option (ℤ × List ℕ) → ℤ × List ℕ → Option (ℤ × List ℕ)
    step chosen row =
        if is_candidate (pos r) 1 none row && beats_chosen (pos r) min_overshoot row chosen
        then some row
        else chosen

    candidate_ge :
        (sum : ℤ) (m : ℕ) (subset : List ℕ)
        → sum ≡ pos m
        → is_candidate (pos r) 1 none (sum, subset) ≡ true
        → r ≤ m
    unfolding is_candidate
    candidate_ge sum m subset e h = ground (arith, h, e)

    step-Fine :
        (chosen : Option (ℤ × List ℕ)) (row : ℤ × List ℕ)
        → IsReached entries (length entries) row
        → Fine chosen
        → Fine (step chosen row)
    step-Fine chosen (sum, subset) (m, e, reach) g =
        elim (Bool-cases (
          is_candidate (pos r) 1 none (sum, subset)
          && beats_chosen (pos r) min_overshoot (sum, subset) chosen)) [
            | inl better ↦
                let (fit, _) = (and_true _ _).0 better in
                rw better
                  (m, e, candidate_ge sum m subset e fit, omega (arith, Reaches-le reach, fits))
            | inr worse ↦ rw worse g
          ]

    step-Low :
        (n : ℕ) (chosen : Option (ℤ × List ℕ)) (row : ℤ × List ℕ)
        → n < two_63
        → IsReached entries (length entries) row
        → Low n chosen
        → Low n (step chosen row)
    step-Low n none row small reach g = absurd g
    step-Low n (some (best_sum, best_subset)) (sum, subset) small (m, e, reach) (k, f, rk, kn) =
        elim (Bool-cases (
          is_candidate (pos r) 1 none (sum, subset)
          && beats_chosen (pos r) min_overshoot (sum, subset) (some (best_sum, best_subset)))) [
            | inl better ↦
                let (fit, wins) = (and_true _ _).0 better in
                let rm = candidate_ge sum m subset e fit in
                let (less, _) =
                  beats sum subset best_sum best_subset m k e f rm rk
                    (omega (arith, Reaches-le reach, fits)) (omega (arith, kn, small)) in
                rw better (m, e, rm, omega (arith, less wins, kn))
            | inr worse ↦ rw worse (k, f, rk, kn)
          ]

    step_taken :
        (n : ℕ) (chosen : Option (ℤ × List ℕ)) (subset : List ℕ)
        → n < two_63
        → r ≤ n
        → is_candidate (pos r) 1 none (pos n, subset) ≡ true
        → Fine chosen
        → Low n (step chosen (pos n, subset))
    unfolding beats_chosen
    step_taken n none subset small rn fit g = rw fit (n, refl, rn, omega arith)
    step_taken n (some (best_sum, best_subset)) subset small rn fit (k, f, rk, kf) =
        elim (Bool-cases
          (beats_chosen (pos r) min_overshoot (pos n, subset) (some (best_sum, best_subset)))) [
            | inl wins ↦ rw (fit, wins) (n, refl, rn, omega arith)
            | inr loses ↦
                let (_, most) =
                  beats (pos n) subset best_sum best_subset n k refl f rn rk small kf in
                rw (fit, loses) (k, f, rk, most loses)
          ]

    choose_Low :
        (n : ℕ) (best : SubsetMap) (chosen : Option (ℤ × List ℕ))
        → n < two_63
        → All (IsReached entries (length entries)) best
        → Low n chosen
        → Low n (choose_from (pos r) 1 none min_overshoot chosen best)
    unfolding choose_from
    choose_Low n [] chosen small h g = g
    choose_Low n (row ∷ best) chosen small (reach, h) g =
        choose_Low n best _ small h (step-Low n chosen row small reach g)

    pub choose_least :
        (n : ℕ) (subset : List ℕ) (best : SubsetMap) (chosen : Option (ℤ × List ℕ))
        → n < two_63
        → r ≤ n
        → is_candidate (pos r) 1 none (pos n, subset) ≡ true
        → All (IsReached entries (length entries)) best
        → Fine chosen
        → get (pos n) best ≡ some subset
        → Low n (choose_from (pos r) 1 none min_overshoot chosen best)
    unfolding choose_from
    choose_least n subset [] chosen small rn fit h g e = absurd (ground (arith, e))
    choose_least n subset ((sum, v) ∷ best) chosen small rn fit (reach, h) g e =
        elim (Bool-cases (eqb_ℤ sum (pos n))) [
          | inl same ↦
              let row : (v ≡ subset) × (sum ≡ pos n) =
                (some-injective _ _ (rw same at e), (eqb_ℤ-iff sum (pos n)).0 same) in
              choose_Low n best _ small h
                (rw (row.0, row.1) (step_taken n chosen subset small rn fit g))
          | inr other ↦
              choose_least n subset best _ small rn fit h (step-Fine chosen (sum, v) reach g)
                (rw other at e)
        ]
