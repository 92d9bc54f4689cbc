-- ===== src/CoinOps/Target/Subsets.antt =====
-- greenfloor-engine/src/coin_ops/selection.rs: what the table of subset sums holds.
use greenfloor.Common.{ℕ, zero, suc, ◌+◌, ◌≤◌, ◌≡◌, List, [], ◌∷◌, ◌++◌, some, arith, get_elem?}
use greenfloor.Common.Int.{pos, pos_part}
use greenfloor.Common.Str.{Str}
use greenfloor.CoinOps.Target.{Entry}

-- What the entries are worth together.
unfoldable pub worth : List Entry → ℕ
worth [] = 0
worth ((_, amount) ∷ entries) = pos_part amount + worth entries

-- The amounts are above 0.
abbrev pub Positive : List Entry → Type 0
Positive [] = Unit
Positive ((_, amount) ∷ entries) = ((a : ℕ) × (amount ≡ pos (suc a))) × Positive entries

-- The indices `subset`, ascending and all below `idx`, stand for entries that add up to `sum`.
pub data Reaches (entries : List Entry) : ℕ → List ℕ → ℕ → Type 0 where
  begin : Reaches entries 0 [] 0
  leave :
      {idx : ℕ} {subset : List ℕ} {sum : ℕ}
      → Reaches entries idx subset sum
      → Reaches entries (suc idx) subset sum
  pick :
      {idx : ℕ} {subset : List ℕ} {sum : ℕ} (id : Str) (a : ℕ)
      → get_elem? entries idx ≡ some (id, pos (suc a))
      → Reaches entries idx subset sum
      → Reaches entries (suc idx) (subset ++ (idx ∷ [])) (sum + suc a)

-- The worth of the first `n` entries.
unfoldable worth_before : List Entry → ℕ → ℕ
worth_before [] n = 0
worth_before (entry ∷ entries) zero = 0
worth_before ((_, amount) ∷ entries) (suc n) = pos_part amount + worth_before entries n

worth_before-le : (entries : List Entry) (n : ℕ) → worth_before entries n ≤ worth entries
unfolding worth_before worth
worth_before-le [] n = omega arith
worth_before-le (entry ∷ entries) zero = omega arith
worth_before-le ((_, amount) ∷ entries) (suc n) = omega (arith, worth_before-le entries n)

worth_before-suc :
    (entries : List Entry) (n : ℕ) → worth_before entries n ≤ worth_before entries (suc n)
unfolding worth_before
worth_before-suc [] n = omega arith
worth_before-suc (entry ∷ entries) zero = omega arith
worth_before-suc ((_, amount) ∷ entries) (suc n) = omega (arith, worth_before-suc entries n)

worth_before-get :
    (entries : List Entry) (n : ℕ) (id : Str) (a : ℕ)
    → get_elem? entries n ≡ some (id, pos a)
    → worth_before entries (suc n) ≡ worth_before entries n + a
unfolding worth_before
worth_before-get [] n id a h = absurd (ground (arith, h))
worth_before-get ((_, amount) ∷ []) zero id a h = ground (arith, h)
worth_before-get ((_, amount) ∷ (entry ∷ entries)) zero id a h = ground (arith, h)
worth_before-get ((_, amount) ∷ entries) (suc n) id a h =
    omega (arith, worth_before-get entries n id a h)

Reaches-bound :
    {entries : List Entry} {idx : ℕ} {subset : List ℕ} {sum : ℕ}
    → Reaches entries idx subset sum
    → sum ≤ worth_before entries idx
Reaches-bound begin = omega arith
Reaches-bound {entries} (leave {idx} r) =
    omega (arith, Reaches-bound r, worth_before-suc entries idx)
Reaches-bound {entries} (pick {idx} id a h r) =
    omega (arith, Reaches-bound r, worth_before-get entries idx id (suc a) h)

-- A subset is worth no more than all the entries.
pub Reaches-le :
    {entries : List Entry} {idx : ℕ} {subset : List ℕ} {sum : ℕ}
    → Reaches entries idx subset sum
    → sum ≤ worth entries
Reaches-le {entries} {idx} r = omega (arith, Reaches-bound r, worth_before-le entries idx)
