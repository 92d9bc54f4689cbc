-- ===== src/Common/Float.antt =====
-- The operations of f64 that the code uses, as parameters. The tests are false on values that do not
-- compare; `ordering` is `partial_cmp`, `none` there.
use greenfloor.Common.{Bool, Option}
use greenfloor.Common.Int.{ℤ}

pub data Compared : Type 0 where
  lesser equal greater : Compared

pub record Float (F : Type 0) : Type 0 where
  -- `as f64`.
  pub of_i64 : ℤ → F
  -- `as i64`.
  pub to_i64 : F → ℤ
  pub less : F → F → Bool
  pub less_equal : F → F → Bool
  pub ordering : F → F → Option Compared
  pub plus : F → F → F
  pub minus : F → F → F
  pub times : F → F → F
  pub divide : F → F → F
  pub absolute : F → F
  pub larger : F → F → F
  pub ceiling : F → F
  pub round : F → F
  pub is_finite : F → Bool
