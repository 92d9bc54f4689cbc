-- ===== src/Common/Result.antt =====
-- `Result`: a value or an error.
use greenfloor.Common.{◌≡◌, refl}

pub data Result {ℓ κ} (T : Type ℓ) (Failure : Type κ) : Type (ℓ ⊔ κ) where
  err : Failure → Result T Failure
  ok : T → Result T Failure

module _ {ℓ κ μ} {S : Type ℓ} {T : Type κ} {Failure : Type μ} where
  -- `map`.
  abbrev pub map_ok : (S → T) → Result S Failure → Result T Failure
  map_ok convert (err failure) = err failure
  map_ok convert (ok value) = ok (convert value)

  -- `?`.
  infixl 5 ◌>>=◌
  abbrev pub ◌>>=◌ : Result S Failure → (S → Result T Failure) → Result T Failure
  err failure >>= next = err failure
  ok value >>= next = next value

  -- What a chain that succeeds went through.
  pub >>=-eq-ok :
      (r : Result S Failure) (next : S → Result T Failure) {value : T}
      → (r >>= next) ≡ ok value
      → (s : S) × (r ≡ ok s) × (next s ≡ ok value)
  >>=-eq-ok (err failure) next h = cc
  >>=-eq-ok (ok s) next h = (s, refl, h)

pub ok-injective {ℓ κ} :
    {T : Type ℓ} {Failure : Type κ} {x y : T} → ◌≡◌ {A = Result T Failure} (ok x) (ok y) → x ≡ y
ok-injective h = cc
