-- ===== src/Hex/Candidates.antt =====
-- greenfloor-engine/src/hex/mod.rs: the spellings under which an id is looked up.
use greenfloor.Common.{
  ◌≡◌, refl, ◌∙◌, ap, Bool, true, false, ◌&&◌, ◌||◌, not, List, [], ◌∷◌, ◌++◌, Option, none, some,
  arith, if◌then◌else◌, any, All, ◌⊎◌, Option-cases, inl, inr,
}
use greenfloor.Common.Str.{Str, str_eq, str_eq_refl, str_eq_iff, trim, eq_of_str_eq}
use greenfloor.Hex.{
  canonical_tx_id, legacy_prefixed_tx_id, with_legacy, is_prefixed, tx_id_lookup_candidates,
  extend_unique, extend_tx_id_lookup_candidates,
}
use greenfloor.Hex.Normal.{
  IsCanonical, canonical_tx_id_normal, canonical_tx_id-IsCanonical, canonical_prefixed,
}

legacy_eq :
    (id : Str) → canonical_tx_id id ≡ some id → legacy_prefixed_tx_id id ≡ some (b'0' ∷ b'x' ∷ id)
unfolding legacy_prefixed_tx_id
legacy_eq id e = ground arith

with_legacy-same :
    (prefixed : Bool) (id : Str)
    → IsCanonical id
    → canonical_tx_id id ≡ some id
    → All
        (λ candidate. canonical_tx_id candidate ≡ some id)
        (with_legacy prefixed id (legacy_prefixed_tx_id id))
unfolding with_legacy
with_legacy-same true id c e = (e, tt)
with_legacy-same false id c e =
    rw (legacy_eq id e, with_legacy) (ground (arith, canonical_prefixed id c))

abbrev pub contains : List Str → Str → Bool
contains xs x = any (str_eq x) xs

-- What the candidates are for a canonical form: there are none without one; with one it is a
-- candidate itself, and so is its spelling with a prefix unless the text is prefixed, and every
-- candidate has it as its canonical form.
abbrev pub LooksUp : Option Str → Bool → List Str → Type 0
LooksUp none prefixed candidates = candidates ≡ []
LooksUp (some id) prefixed candidates =
    (contains candidates id ≡ true)
    × ((prefixed ≡ true) ⊎ (contains candidates (b'0' ∷ b'x' ∷ id) ≡ true))
    × All (λ candidate. canonical_tx_id candidate ≡ some id) candidates

with_legacy-contains :
    (prefixed : Bool) (id : Str)
    → canonical_tx_id id ≡ some id
    → (contains (with_legacy prefixed id (legacy_prefixed_tx_id id)) id ≡ true)
      × ((prefixed ≡ true)
          ⊎ (contains (with_legacy prefixed id (legacy_prefixed_tx_id id)) (b'0' ∷ b'x' ∷ id)
              ≡ true))
unfolding with_legacy
with_legacy-contains true id e = (ground (arith, str_eq_refl id), inl refl)
with_legacy-contains false id e =
    rw (legacy_eq id e, with_legacy)
      (ground (arith, str_eq_refl id), inr (ground (arith, str_eq_refl (b'0' ∷ b'x' ∷ id))))

-- A text with a canonical form has this form among its lookup candidates, and unless the text is
-- prefixed the form with a prefix too, and all its candidates have this canonical form; a text
-- without a canonical form has no candidates.
pub candidates_same :
    (value : Str)
    → LooksUp (canonical_tx_id value) (is_prefixed (trim value)) (tx_id_lookup_candidates value)
unfolding tx_id_lookup_candidates
candidates_same value = elim (Option-cases (canonical_tx_id value)) [
  | inl e ↦ rw (e, tx_id_lookup_candidates) refl
  | inr (id, e) ↦
      let same = (canonical_tx_id_normal value id e).1 in
      let (here, prefixed) = with_legacy-contains (is_prefixed (trim value)) id same in
      rw (e, tx_id_lookup_candidates)
        (
          here,
          prefixed,
          with_legacy-same (is_prefixed (trim value)) id (canonical_tx_id-IsCanonical value id e)
              same,
        )
]

-- No text stands twice in the list.
unfoldable pub distinct : List Str → Bool
distinct [] = true
distinct (x ∷ xs) = not (any (str_eq x) xs) && distinct xs

contains-snoc :
    (xs : List Str) (x y : Str) → contains (xs ++ y ∷ []) x ≡ (contains xs x || str_eq x y)
contains-snoc [] x y = ground arith
contains-snoc (z ∷ xs) x y = ground (arith, contains-snoc xs x y)

str_eq_comm : (x y : Str) → str_eq x y ≡ str_eq y x
str_eq_comm x y = ground (arith, str_eq_iff x y, str_eq_iff y x, ap {A = Str} (λ s. s))

distinct-snoc :
    (xs : List Str) (y : Str) → distinct (xs ++ y ∷ []) ≡ (distinct xs && not (contains xs y))
unfolding distinct
distinct-snoc [] y = refl
distinct-snoc (x ∷ xs) y = ground (arith, distinct-snoc xs y, contains-snoc xs x y, str_eq_comm x y)

extend_unique-distinct :
    (unique candidates : List Str)
    → distinct unique ≡ true
    → distinct (extend_unique unique candidates) ≡ true
unfolding extend_unique
extend_unique-distinct unique [] h = h
extend_unique-distinct unique (c ∷ rest) h =
    extend_unique-distinct (if any (str_eq c) unique then unique else unique ++ c ∷ []) rest
      (ground (arith, distinct-snoc unique c))

contains_of_eq : (xs : List Str) (x y : Str) → str_eq x y ≡ true → contains xs x ≡ contains xs y
contains_of_eq xs x y e = ap (contains xs) (eq_of_str_eq x y e)

extend_unique-contains :
    (unique candidates : List Str) (x : Str)
    → contains (extend_unique unique candidates) x ≡ (contains unique x || contains candidates x)
unfolding extend_unique
extend_unique-contains unique [] x = ground arith
extend_unique-contains unique (c ∷ rest) x =
    extend_unique-contains (if any (str_eq c) unique then unique else unique ++ c ∷ []) rest x
    ∙ ground (arith, contains_of_eq unique x c, contains-snoc unique x c)

-- Extending a list of distinct texts keeps it distinct, and what the list then holds is what it
-- held and the candidates of the value.
pub extend_tx_id_lookup_candidates_lem :
    (unique : List Str) (value : Str)
    → distinct unique ≡ true
    → (distinct (extend_tx_id_lookup_candidates unique value) ≡ true)
      × ((x : Str)
          → contains (extend_tx_id_lookup_candidates unique value) x
            ≡ (contains unique x || contains (tx_id_lookup_candidates value) x))
unfolding extend_tx_id_lookup_candidates
extend_tx_id_lookup_candidates_lem unique value h =
    let candidates = tx_id_lookup_candidates value in
    (extend_unique-distinct unique candidates h, extend_unique-contains unique candidates)
