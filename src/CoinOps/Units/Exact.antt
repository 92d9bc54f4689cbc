-- ===== src/CoinOps/Units/Exact.antt =====
-- greenfloor-engine/src/coin_ops/unit_convert.rs: when an amount is a whole number of units.
use greenfloor.Common.{
  ℕ, ◌*◌, ◌/◌, ◌%◌, ◌<◌, ◌≡◌, refl, sym, ◌∙◌, ◌==◌, none, some, arith, max, ◌||◌, not, leb,
  if◌then◌else◌,
}
use greenfloor.Common.Int.{ℤ, pos, negsuc, pos_part, ◌*ℤ◌, max_ℤ}
use greenfloor.Common.I64.{two_63, saturating_mul, clamp_i64, div_i64, rem_i64}
use greenfloor.CoinOps.Units.{
  mojos_from_whole_units, floored_units_from_mojos, exact_whole_units_from_mojos,
}
use native.Mathlib.Nat.{mul-div_cancel, mul-mod_left, mod-add-div', mul-pos}

-- The multiplier in use, as a number that is not 0.
unit_of : ℤ → ℕ
unit_of mojo_multiplier = max (pos_part mojo_multiplier) 1

unit_of-eq : (z : ℤ) → max_ℤ z (pos 1) ≡ pos (unit_of z)
unfolding unit_of
unit_of-eq z = ground arith

unit_of-pos : (z : ℤ) → 0 < unit_of z
unfolding unit_of
unit_of-pos z = ground arith

saturating_mul-pos : (a b : ℕ) → a * b < two_63 → saturating_mul (pos a) (pos b) ≡ pos (a * b)
unfolding saturating_mul clamp_i64 ◌*ℤ◌
saturating_mul-pos a b h = ground arith

floored-pos : (n : ℕ) (z : ℤ) → floored_units_from_mojos (pos n) z ≡ pos (n / unit_of z)
unfolding floored_units_from_mojos div_i64
floored-pos n z = rw (unit_of-eq z) (ground arith)

exact-eq :
    (n : ℕ) (z : ℤ)
    → exact_whole_units_from_mojos (pos n) z
      ≡ (if leb n 0 || not (n % unit_of z == 0) then none else some (pos (n / unit_of z)))
unfolding exact_whole_units_from_mojos div_i64 rem_i64
exact-eq n z = rw (unit_of-eq z) (ground arith)

exact-some :
    (n : ℕ) (z units : ℤ)
    → exact_whole_units_from_mojos (pos n) z ≡ some units
    → (n % unit_of z ≡ 0) × (units ≡ pos (n / unit_of z))
exact-some n z units h =
    let e : (if leb n 0 || not (n % unit_of z == 0) then none else some (pos (n / unit_of z)))
        ≡ some units =
      sym (exact-eq n z) ∙ h in
    ground arith

mojos-pos :
    (units : ℕ) (z : ℤ)
    → units * unit_of z < two_63
    → mojos_from_whole_units (pos units) z ≡ pos (units * unit_of z)
unfolding mojos_from_whole_units
mojos-pos units z h = rw (unit_of-eq z, saturating_mul-pos units (unit_of z) h) refl

-- The round trip: a positive number of whole units whose mojos fit in i64 is read back from them,
-- both exactly and floored.
pub whole_units-mojos :
    (units : ℕ) (mojo_multiplier : ℤ)
    → 0 < units
    → units * max (pos_part mojo_multiplier) 1 < two_63
    → let mojos = mojos_from_whole_units (pos units) mojo_multiplier in
      (exact_whole_units_from_mojos mojos mojo_multiplier ≡ some (pos units))
      × (floored_units_from_mojos mojos mojo_multiplier ≡ pos units)
unfolding unit_of
whole_units-mojos units z h k =
    let d = unit_of z in
    let fits : units * d < two_63 = k in
    let back : units * d / d ≡ units = mul-div_cancel units (unit_of-pos z) in
    let whole : units * d % d ≡ 0 = mul-mod_left units d in
    let positive : 0 < units * d = mul-pos h (unit_of-pos z) in
    rw (mojos-pos units z fits, exact-eq (units * d) z, floored-pos (units * d) z, back, whole)
      (ground arith, refl)

no_exact : (n : ℕ) (z : ℤ) → exact_whole_units_from_mojos (negsuc n) z ≡ none
unfolding exact_whole_units_from_mojos
no_exact n z = ground arith

-- An exact amount of units is the floored one, and it loses no mojo.
pub exact-floored :
    (mojos mojo_multiplier units : ℤ)
    → exact_whole_units_from_mojos mojos mojo_multiplier ≡ some units
    → (floored_units_from_mojos mojos mojo_multiplier ≡ units)
      × (units *ℤ max_ℤ mojo_multiplier (pos 1) ≡ mojos)
unfolding ◌*ℤ◌
exact-floored (pos n) z units h =
    let (whole, e) = exact-some n z units h in
    rw (e, floored-pos n z, unit_of-eq z) (refl, ground (arith, mod-add-div' n (unit_of z)))
exact-floored (negsuc n) z units h = ground (arith, no_exact n z)
