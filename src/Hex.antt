-- ===== src/Hex.antt =====
-- greenfloor-engine/src/hex/mod.rs: normalisation of hexadecimal identifiers.
pub mod Normal
pub mod Candidates
use greenfloor.Common.{
  ℕ, ◌+◌, Bool, true, false, ◌&&◌, ◌||◌, not, List, [], ◌∷◌, ◌++◌, Option, none, some, ◌==◌,
  if◌then◌else◌, length, keep, any, is_empty,
}
use greenfloor.Common.Str.{
  Str, codes, str_eq, trim, lower, to_ascii_lowercase, is_hexdigit, is_whitespace,
  is_lower_hexdigit,
}

-- The branch of `normalize_hex` that drops one leading `0x`.
strip_0x : Str → Str
strip_0x [] = []
strip_0x (c ∷ []) = c ∷ []
strip_0x (c ∷ d ∷ cs) = if c == b'0' && d == b'x' then cs else c ∷ d ∷ cs

unfoldable pub normalize_hex : Str → Str
unfolding strip_0x trim to_ascii_lowercase is_hexdigit
normalize_hex value = keep is_hexdigit (strip_0x (to_ascii_lowercase (trim value)))

unfoldable pub normalize_hex_id : Str → Str
unfolding normalize_hex
normalize_hex_id value = if length (normalize_hex value) == 64 then normalize_hex value else []

unfoldable pub is_hex_id : Str → Bool
unfolding normalize_hex_id
is_hex_id value = length (normalize_hex_id value) == 64

unfoldable pub canonical_tx_id : Str → Option Str
unfolding normalize_hex_id
canonical_tx_id value =
    if is_empty (normalize_hex_id value) then none else some (normalize_hex_id value)

-- The `format!` with the prefix of the legacy spelling.
unfoldable pub legacy_prefixed_tx_id : Str → Option Str
unfolding canonical_tx_id
legacy_prefixed_tx_id canonical = elim (canonical_tx_id canonical) [
  | none ↦ none
  | some id ↦ some (b'0' ∷ b'x' ∷ id)
]

-- `get(..2)` with `eq_ignore_ascii_case("0x")`.
pub is_prefixed : Str → Bool
unfolding lower
is_prefixed [] = false
is_prefixed (c ∷ []) = false
is_prefixed (c ∷ d ∷ _) = c == b'0' && lower d == b'x'

-- `out` after the canonical form: the legacy one too, unless the input had the prefix.
with_legacy : Bool → Str → Option Str → List Str
with_legacy true canonical legacy = canonical ∷ []
with_legacy false canonical none = canonical ∷ []
with_legacy false canonical (some legacy) =
    if str_eq legacy canonical then canonical ∷ [] else canonical ∷ legacy ∷ []

unfoldable pub tx_id_lookup_candidates : Str → List Str
unfolding canonical_tx_id legacy_prefixed_tx_id is_prefixed with_legacy
tx_id_lookup_candidates value = elim (canonical_tx_id value) [
  | none ↦ []
  | some canonical ↦
      with_legacy (is_prefixed (trim value)) canonical (legacy_prefixed_tx_id canonical)
]

-- The loop of `extend_tx_id_lookup_candidates` over the candidates.
unfoldable pub extend_unique : List Str → List Str → List Str
extend_unique unique [] = unique
extend_unique unique (candidate ∷ rest) =
    extend_unique (if any (str_eq candidate) unique then unique else unique ++ candidate ∷ []) rest

unfoldable pub extend_tx_id_lookup_candidates : List Str → Str → List Str
unfolding tx_id_lookup_candidates extend_unique
extend_tx_id_lookup_candidates unique value = extend_unique unique (tx_id_lookup_candidates value)
