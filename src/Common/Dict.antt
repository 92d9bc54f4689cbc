-- ===== src/Common/Dict.antt =====
-- Maps as association lists; the keys come with a test for equality.
use greenfloor.Common.{
  ◌≡◌, refl, arith, ◌↔◌, Bool, true, List, [], ◌∷◌, Option, none, some, if◌then◌else◌,
}
use greenfloor.Common.Int.{ℤ, eqb_ℤ, eqb_ℤ-iff}
use greenfloor.Common.Str.{Str, str_eq, str_eq_iff}

pub record Key {ℓ} (K : Type ℓ) : Type ℓ where
  pub same_key : K → K → Bool
  pub same_key_iff : (k j : K) → (same_key k j ≡ true) ↔ (k ≡ j)

instance abbrev pub str_key : Key Str
str_key = record { same_key = str_eq; same_key_iff = str_eq_iff }

instance abbrev pub ℤ_key : Key ℤ
ℤ_key = record { same_key = eqb_ℤ; same_key_iff = eqb_ℤ-iff }

abbrev pub Dict {ℓ κ} : Type ℓ → Type κ → Type (ℓ ⊔ κ)
Dict K V = List (K × V)

module _ {ℓ κ} {K : Type ℓ} {V : Type κ} ⦃e : Key K⦄ where
  -- `get`.
  abbrev pub lookup : K → Dict K V → Option V
  lookup k [] = none
  lookup k ((j, v) ∷ m) = if e.same_key j k then some v else lookup k m

  -- `insert`: the value of a key is replaced where it stands, a new key goes to the end.
  abbrev pub insert : K → V → Dict K V → Dict K V
  insert k v [] = (k, v) ∷ []
  insert k v ((j, w) ∷ m) = if e.same_key j k then (k, v) ∷ m else (j, w) ∷ insert k v m

  pub lookup-insert :
      (k j : K) (v : V) (m : Dict K V)
      → lookup k (insert j v m) ≡ (if e.same_key j k then some v else lookup k m)
  lookup-insert k j v [] = refl
  lookup-insert k j v ((i, w) ∷ m) =
      ground
        (arith, lookup-insert k j v m, e.same_key_iff i j, e.same_key_iff i k, e.same_key_iff j k)
