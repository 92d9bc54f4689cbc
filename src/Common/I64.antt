-- ===== src/Common/I64.antt =====
-- The arithmetic of i64: wrapping `+ - *` as in a release build, the saturating operations, and
-- the division that rounds towards zero.
use greenfloor.Common.{
  ℕ, suc, ◌+◌, ◌-◌, ◌*◌, ◌/◌, ◌%◌, ◌≤◌, ◌<◌, ◌≡◌, arith, ltb, leb, if◌then◌else◌,
}
use greenfloor.Common.Int.{ℤ, pos, negsuc, pos_part, neg_part, sub_ℕ, ◌+ℤ◌, ◌-ℤ◌, ◌*ℤ◌}

abbrev pub two_64 : ℕ
two_64 = 18446744073709551616

abbrev pub two_63 : ℕ
two_63 = 9223372036854775808

abbrev pub IsI64 : ℤ → Type 0
IsI64 z = (pos_part z < two_63) × (neg_part z ≤ two_63)

abbrev pub max_i64 : ℤ
max_i64 = pos 9223372036854775807

abbrev pub min_i64 : ℤ
min_i64 = negsuc 9223372036854775807

-- The integer that the low 64 bits stand for.
of_residue : ℕ → ℤ
of_residue r = if ltb r two_63 then pos r else negsuc (two_64 - r - 1)

unfoldable pub wrap_i64 : ℤ → ℤ
unfolding of_residue
wrap_i64 z = of_residue ((pos_part z % two_64 + two_64 - neg_part z % two_64) % two_64)

pub wrap_i64-id : (z : ℤ) → IsI64 z → wrap_i64 z ≡ z
unfolding wrap_i64
wrap_i64-id (pos n) h = ground arith
wrap_i64-id (negsuc n) h = ground arith

pub wrap_i64-IsI64 : (z : ℤ) → IsI64 (wrap_i64 z)
unfolding wrap_i64
wrap_i64-IsI64 z = ground arith

unfoldable pub add_i64 : ℤ → ℤ → ℤ
add_i64 a b = wrap_i64 (a +ℤ b)

unfoldable pub sub_i64 : ℤ → ℤ → ℤ
sub_i64 a b = wrap_i64 (a -ℤ b)

unfoldable pub mul_i64 : ℤ → ℤ → ℤ
mul_i64 a b = wrap_i64 (a *ℤ b)

-- `saturating_*` of an exact result.
unfoldable pub clamp_i64 : ℤ → ℤ
clamp_i64 z =
    if leb two_63 (pos_part z) then max_i64 else if ltb two_63 (neg_part z) then min_i64 else z

unfoldable pub saturating_add : ℤ → ℤ → ℤ
unfolding clamp_i64
saturating_add a b = clamp_i64 (a +ℤ b)

unfoldable pub saturating_sub : ℤ → ℤ → ℤ
unfolding clamp_i64
saturating_sub a b = clamp_i64 (a -ℤ b)

unfoldable pub saturating_mul : ℤ → ℤ → ℤ
unfolding clamp_i64
saturating_mul a b = clamp_i64 (a *ℤ b)

-- `/` on a divisor that is not 0.
unfoldable pub div_i64 : ℤ → ℤ → ℤ
div_i64 (pos a) (pos b) = pos (a / b)
div_i64 (pos a) (negsuc b) = sub_ℕ 0 (a / suc b)
div_i64 (negsuc a) (pos b) = sub_ℕ 0 (suc a / b)
div_i64 (negsuc a) (negsuc b) = wrap_i64 (pos (suc a / suc b))

-- `%` on a divisor that is not 0: the remainder has the sign of the dividend.
unfoldable pub rem_i64 : ℤ → ℤ → ℤ
rem_i64 (pos a) (pos b) = pos (a % b)
rem_i64 (pos a) (negsuc b) = pos (a % suc b)
rem_i64 (negsuc a) (pos b) = sub_ℕ 0 (suc a % b)
rem_i64 (negsuc a) (negsuc b) = sub_ℕ 0 (suc a % suc b)

-- The exact results, where they are in range.
pub add_i64-eq : (a b : ℤ) → IsI64 (a +ℤ b) → add_i64 a b ≡ a +ℤ b
unfolding add_i64
add_i64-eq a b h = wrap_i64-id (a +ℤ b) h

pub sub_i64-eq : (a b : ℤ) → IsI64 (a -ℤ b) → sub_i64 a b ≡ a -ℤ b
unfolding sub_i64
sub_i64-eq a b h = wrap_i64-id (a -ℤ b) h

-- On non-negative numbers.
pub add_i64-pos : (a b : ℕ) → a + b < two_63 → add_i64 (pos a) (pos b) ≡ pos (a + b)
unfolding add_i64 ◌+ℤ◌ wrap_i64
add_i64-pos a b h = ground arith

pub sub_i64-pos : (a b : ℕ) → b ≤ a → a < two_63 → sub_i64 (pos a) (pos b) ≡ pos (a - b)
unfolding sub_i64 ◌-ℤ◌ wrap_i64
sub_i64-pos a b h k = ground arith

pub mul_i64-pos : (a b : ℕ) → a * b < two_63 → mul_i64 (pos a) (pos b) ≡ pos (a * b)
unfolding mul_i64 ◌*ℤ◌ wrap_i64
mul_i64-pos a b h = ground arith
