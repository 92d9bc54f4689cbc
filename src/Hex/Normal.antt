-- ===== src/Hex/Normal.antt =====
-- greenfloor-engine/src/hex/mod.rs: what a normalised identifier looks like.
use greenfloor.Common.{
  ℕ, ◌≡◌, refl, Bool, true, ◌&&◌, not, [], ◌∷◌, some, arith, leb, length, keep, all, keep-all,
}
use greenfloor.Common.Str.{
  Str, trim, trim-solid, lower, to_ascii_lowercase, is_hexdigit, is_lower_hexdigit, is_whitespace,
  is_solid, hexdigit_solid,
}
use greenfloor.Hex.{normalize_hex, canonical_tx_id, strip_0x}

hexdigit_of_lower : (c : ℕ) → is_lower_hexdigit c ≡ true → is_hexdigit c ≡ true
unfolding is_lower_hexdigit is_hexdigit
hexdigit_of_lower c h = ground arith

lower_of_lower : (c : ℕ) → is_lower_hexdigit c ≡ true → lower c ≡ c
unfolding is_lower_hexdigit lower
lower_of_lower c h = ground arith

pub all-hexdigit : (s : Str) → all is_lower_hexdigit s ≡ true → all is_hexdigit s ≡ true
all-hexdigit [] h = refl
all-hexdigit (c ∷ cs) h = ground (arith, hexdigit_of_lower c, all-hexdigit cs)

all-solid : (s : Str) → all is_hexdigit s ≡ true → all is_solid s ≡ true
all-solid [] h = refl
all-solid (c ∷ cs) h = ground (arith, hexdigit_solid c, all-solid cs)

lowercase-hex : (s : Str) → all is_lower_hexdigit s ≡ true → to_ascii_lowercase s ≡ s
unfolding to_ascii_lowercase
lowercase-hex [] h = refl
lowercase-hex (c ∷ cs) h = ground (arith, lower_of_lower c, lowercase-hex cs)

strip-hex : (s : Str) → all is_lower_hexdigit s ≡ true → strip_0x s ≡ s
unfolding strip_0x is_lower_hexdigit
strip-hex [] h = refl
strip-hex (c ∷ []) h = refl
strip-hex (c ∷ d ∷ cs) h = ground arith

-- A text of lower-case digits is its own normal form.
pub normalize_hex-solid : (s : Str) → all is_lower_hexdigit s ≡ true → normalize_hex s ≡ s
unfolding normalize_hex
normalize_hex-solid s h =
    rw (trim-solid s (all-solid s (all-hexdigit s h)), lowercase-hex s h, strip-hex s h)
      (keep-all is_hexdigit s (all-hexdigit s h))

-- Characters outside A-Z.
is_lowered : ℕ → Bool
is_lowered c = not (leb 65 c && leb c 90)

all-lowered : (s : Str) → all is_lowered (to_ascii_lowercase s) ≡ true
unfolding to_ascii_lowercase is_lowered lower
all-lowered [] = refl
all-lowered (c ∷ cs) = ground (arith, all-lowered cs)

strip-lowered : (s : Str) → all is_lowered s ≡ true → all is_lowered (strip_0x s) ≡ true
unfolding strip_0x
strip-lowered [] h = refl
strip-lowered (c ∷ []) h = h
strip-lowered (c ∷ d ∷ cs) h = ground arith

keep-lowered :
    (s : Str) → all is_lowered s ≡ true → all is_lower_hexdigit (keep is_hexdigit s) ≡ true
unfolding is_lowered is_hexdigit is_lower_hexdigit
keep-lowered [] h = refl
keep-lowered (c ∷ cs) h = ground (arith, keep-lowered cs)

pub normalize_hex-digits : (s : Str) → all is_lower_hexdigit (normalize_hex s) ≡ true
unfolding normalize_hex
normalize_hex-digits s = keep-lowered _ (strip-lowered _ (all-lowered (trim s)))

-- `normalize_hex` is idempotent on every text, whatever prefixes, blanks or foreign characters
-- it holds.
pub normalize_hex-idempotent : (s : Str) → normalize_hex (normalize_hex s) ≡ normalize_hex s
normalize_hex-idempotent s = normalize_hex-solid (normalize_hex s) (normalize_hex-digits s)

pub canonical_of_digits :
    (s : Str) → all is_lower_hexdigit s ≡ true → length s ≡ 64 → canonical_tx_id s ≡ some s
unfolding canonical_tx_id
canonical_of_digits [] h n = absurd (omega arith)
canonical_of_digits (c ∷ cs) h n = ground (arith, normalize_hex-solid (c ∷ cs) h)

-- 64 lower-case hexadecimal digits.
abbrev pub IsCanonical : Str → Type 0
IsCanonical id = (length id ≡ 64) × (all is_lower_hexdigit id ≡ true)

canonical-eq :
    (s id : Str) → canonical_tx_id s ≡ some id → (id ≡ normalize_hex s) × (length id ≡ 64)
unfolding canonical_tx_id
canonical-eq s id h = ground arith

pub canonical_tx_id-IsCanonical :
    (value id : Str) → canonical_tx_id value ≡ some id → IsCanonical id
canonical_tx_id-IsCanonical value id h =
    let (e, n) = canonical-eq value id h in (n, rw e (normalize_hex-digits value))

-- A canonical id has 64 lower-case hexadecimal digits, and it is its own canonical form.
pub canonical_tx_id_normal :
    (value id : Str)
    → canonical_tx_id value ≡ some id
    → IsCanonical id × (canonical_tx_id id ≡ some id)
canonical_tx_id_normal value id h =
    let (n, d) = canonical_tx_id-IsCanonical value id h in ((n, d), canonical_of_digits id d n)

solid_prefixed :
    (id : Str) → all is_lower_hexdigit id ≡ true → all is_solid (b'0' ∷ b'x' ∷ id) ≡ true
unfolding is_whitespace
solid_prefixed id d = ground (arith, all-solid id (all-hexdigit id d))

normalize_prefixed :
    (id : Str) → all is_lower_hexdigit id ≡ true → normalize_hex (b'0' ∷ b'x' ∷ id) ≡ id
unfolding normalize_hex
normalize_prefixed id d =
    rw (trim-solid (b'0' ∷ b'x' ∷ id) (solid_prefixed id d))
      (rw (lowercase-hex id d) (keep-all is_hexdigit id (all-hexdigit id d)))

-- The legacy spelling of a canonical id has that id as its canonical form.
pub canonical_prefixed : (id : Str) → IsCanonical id → canonical_tx_id (b'0' ∷ b'x' ∷ id) ≡ some id
unfolding canonical_tx_id
canonical_prefixed [] (n, d) = absurd (omega arith)
canonical_prefixed (c ∷ cs) (n, d) = ground (arith, normalize_prefixed (c ∷ cs) d)
