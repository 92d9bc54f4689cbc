-- ===== src/Tests/Identifiers.antt =====
-- Transaction identifiers at concrete inputs.
use greenfloor.Common.{◌≡◌, refl, true, ◌||◌, [], ◌∷◌, some, replicate}
use greenfloor.Common.Str.{Str, codes, trim}
use greenfloor.Hex.{
  normalize_hex, canonical_tx_id, is_prefixed, tx_id_lookup_candidates,
  extend_tx_id_lookup_candidates,
}
use greenfloor.Hex.Normal.{IsCanonical, canonical_tx_id_normal}
use greenfloor.Hex.Candidates.{
  LooksUp, distinct, contains, candidates_same, extend_tx_id_lookup_candidates_lem,
}
use greenfloor.Tests.Fixtures.{cancel_id}

-- `0X` and 64 capital letters.
abbrev spelled : Str
spelled = b'0' ∷ b'X' ∷ replicate 64 b'A'

normalised : normalize_hex (codes " 0xAbz-9 ") ≡ codes "ab9"
unfolding normalize_hex
normalised = refl

spelled-canonical : canonical_tx_id spelled ≡ some cancel_id
unfolding canonical_tx_id
spelled-canonical = refl

normal_form_example : IsCanonical cancel_id × (canonical_tx_id cancel_id ≡ some cancel_id)
normal_form_example = canonical_tx_id_normal spelled cancel_id spelled-canonical

candidates_example :
    LooksUp (canonical_tx_id spelled) (is_prefixed (trim spelled)) (tx_id_lookup_candidates spelled)
candidates_example = candidates_same spelled

two_distinct : distinct (cancel_id ∷ []) ≡ true
unfolding distinct
two_distinct = refl

extend_example :
    (distinct (extend_tx_id_lookup_candidates (cancel_id ∷ []) spelled) ≡ true)
    × ((x : Str)
        → contains (extend_tx_id_lookup_candidates (cancel_id ∷ []) spelled) x
          ≡ (contains (cancel_id ∷ []) x || contains (tx_id_lookup_candidates spelled) x))
extend_example = extend_tx_id_lookup_candidates_lem (cancel_id ∷ []) spelled two_distinct
