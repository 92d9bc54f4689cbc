-- ===== src/Common/Run.antt =====
-- A run that may panic, and maps with i64 keys in ascending order (`BTreeMap<i64, V>`).
use greenfloor.Common.{
  ◌∙◌, false, ◌≡◌, refl, ap, arith, List, [], ◌∷◌, Option, none, some, if◌then◌else◌, All,
  Bool-cases, inl, inr, subst,
}
use mathlib.Core.Option.{some-injective}
use greenfloor.Common.Int.{ℤ, eqb_ℤ, ltb_ℤ, eqb_ℤ-iff}

pub data Run {ℓ} (A : Type ℓ) : Type ℓ where
  panicked : Run A
  returned : A → Run A

pub returned-injective {ℓ} :
    {A : Type ℓ} {x y : A} → ◌≡◌ {A = Run A} (returned x) (returned y) → x ≡ y
returned-injective h = cc

pub returned-not_panicked {ℓ} : {A : Type ℓ} {x : A} → ◌≡◌ {A = Run A} panicked (returned x) → ⊥
returned-not_panicked h = cc

infixl 1 ◌>>=◌
abbrev pub ◌>>=◌ {ℓ κ} : {A : Type ℓ} {B : Type κ} → Run A → (A → Run B) → Run B
panicked >>= f = panicked
returned a >>= f = f a

-- The run returns, with a value that satisfies `P`.
pub record Returns {ℓ κ} {A : Type ℓ} (P : A → Type κ) (run : Run A) : Type (ℓ ⊔ κ) where
  pub value : A
  pub returns : run ≡ returned value
  pub holds : P value

pub Returns-bind {ℓ κ ℓ' κ'} :
    {A : Type ℓ} {B : Type ℓ'} (P : A → Type κ) (Q : B → Type κ') {run : Run A} {next : A → Run B}
    → Returns P run
    → ((a : A) → P a → Returns Q (next a))
    → Returns Q (run >>= next)
Returns-bind P Q {next = next} r then_ =
    let after = then_ r.value r.holds in
    record {
      value = after.value;
      returns = ap (λ x. x >>= next) r.returns ∙ after.returns;
      holds = after.holds;
    }

pub Returns-map {ℓ κ κ'} :
    {A : Type ℓ} (P : A → Type κ) (Q : A → Type κ') {run : Run A}
    → Returns P run
    → ((a : A) → P a → Q a)
    → Returns Q run
Returns-map P Q r f = record { value = r.value; returns = r.returns; holds = f r.value r.holds }

-- An index, which panics out of range.
abbrev pub in_range {ℓ} : {A : Type ℓ} → Option A → Run A
in_range none = panicked
in_range (some a) = returned a

abbrev pub Sorted {ℓ} : Type ℓ → Type ℓ
Sorted V = List (ℤ × V)

module _ {ℓ} {V : Type ℓ} where
  -- `get`.
  abbrev pub get : ℤ → Sorted V → Option V
  get k [] = none
  get k ((j, v) ∷ m) = if eqb_ℤ j k then some v else get k m

  -- `insert`.
  abbrev pub put : ℤ → V → Sorted V → Sorted V
  put k v [] = (k, v) ∷ []
  put k v ((j, w) ∷ m) =
      let rest = put k v m in
      if eqb_ℤ j k then (k, v) ∷ m else if ltb_ℤ k j then (k, v) ∷ (j, w) ∷ m else (j, w) ∷ rest

  pub get-put :
      (k j : ℤ) (v : V) (m : Sorted V) → get k (put j v m) ≡ (if eqb_ℤ j k then some v else get k m)
  get-put k j v [] = refl
  get-put k j v ((i, w) ∷ m) =
      ground (arith, get-put k j v m, eqb_ℤ-iff i j, eqb_ℤ-iff i k, eqb_ℤ-iff j k)

  pub get-put_self : (k : ℤ) (v : V) (m : Sorted V) → get k (put k v m) ≡ some v
  get-put_self k v m = ground (arith, get-put k k v m, eqb_ℤ-iff k k)

  pub get-put_other :
      (k j : ℤ) (v : V) (m : Sorted V) → eqb_ℤ j k ≡ false → get k (put j v m) ≡ get k m
  get-put_other k j v m other = ground (arith, get-put k j v m, other)

  pub All-put {κ} :
      (P : ℤ × V → Type κ) (k : ℤ) (v : V) (m : Sorted V) → P (k, v) → All P m → All P (put k v m)
  All-put P k v [] p h = (p, tt)
  All-put P k v ((j, w) ∷ m) p (q, h) = elim (Bool-cases (eqb_ℤ j k)) [
    | inl same ↦ rw same (p, h)
    | inr other ↦ elim (Bool-cases (ltb_ℤ k j)) [
      | inl less ↦ rw (other, less) (p, (q, h))
      | inr more ↦ rw (other, more) (q, All-put P k v m p h)
    ]
  ]

  pub All-get {κ} :
      (P : ℤ × V → Type κ) (k : ℤ) (v : V) (m : Sorted V) → All P m → get k m ≡ some v → P (k, v)
  All-get P k v [] h e = absurd (ground (arith, e))
  All-get P k v ((j, w) ∷ m) (q, h) e = elim (Bool-cases (eqb_ℤ j k)) [
    | inl same ↦
        let w_is_v : w ≡ v = some-injective _ _ (rw same at e) in
        subst (λ x. P (k, x)) w_is_v (subst (λ i. P (i, w)) ((eqb_ℤ-iff j k).0 same) q)
    | inr other ↦ All-get P k v m h (rw other at e)
  ]
