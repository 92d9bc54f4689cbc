-- ===== src/Common/Str.antt =====
-- Texts as lists of code points, with the standard library's operations on them.
use Prim.Native.Char.{code}
use Prim.Native.String.{String}
use greenfloor.Common.{
  ℕ, ◌+◌, ◌≡◌, refl, ◌↔◌, Bool, true, false, ◌&&◌, ◌||◌, not, List, [], ◌∷◌, map, arith, leb, ◌==◌,
  if◌then◌else◌, all, any, keep, Bool-cases, inl, inr, ap, ◌∙◌,
}

abbrev pub Str : Type 0
Str = List ℕ

-- The code points of a literal.
abbrev pub codes : String → Str
codes String.[] = []
codes (String.◌∷◌ c s) = code c ∷ codes s

abbrev pub str_eq : Str → Str → Bool
str_eq [] [] = true
str_eq [] (_ ∷ _) = false
str_eq (_ ∷ _) [] = false
str_eq (x ∷ xs) (y ∷ ys) = x == y && str_eq xs ys

pub str_eq_refl : (s : Str) → str_eq s s ≡ true
str_eq_refl [] = refl
str_eq_refl (x ∷ xs) = ground (arith, str_eq_refl xs)

pub eq_of_str_eq : (s t : Str) → str_eq s t ≡ true → s ≡ t
eq_of_str_eq [] [] h = refl
eq_of_str_eq [] (y ∷ ys) h = cc
eq_of_str_eq (x ∷ xs) [] h = cc
eq_of_str_eq (x ∷ xs) (y ∷ ys) h = ground (arith, eq_of_str_eq xs ys)

pub str_eq_of_eq : (s t : Str) → s ≡ t → str_eq s t ≡ true
str_eq_of_eq s t e = rw (← e) (str_eq_refl s)

pub str_eq_iff : (s t : Str) → (str_eq s t ≡ true) ↔ (s ≡ t)
str_eq_iff s t = (eq_of_str_eq s t, str_eq_of_eq s t)

test_of_eq : (x y : Str) (p : Str → Bool) → str_eq x y ≡ true → p x ≡ p y
test_of_eq x y p e = ap p (eq_of_str_eq x y e)

-- A text stands among the kept ones when it stood there and passes the test.
pub any-kept :
    (ids : List Str) (id : Str) (p : Str → Bool)
    → any (str_eq id) (keep p ids) ≡ (any (str_eq id) ids && p id)
any-kept [] id p = refl
any-kept (x ∷ ids) id p = ground (arith, any-kept ids id p, test_of_eq id x p)

-- `char::is_whitespace`: the code points with the property White_Space.
unfoldable pub is_whitespace : ℕ → Bool
is_whitespace c =
    (leb 9 c && leb c 13)
    || c == 32
    || c == 133
    || c == 160
    || c == 5760
    || (leb 8192 c && leb c 8202)
    || c == 8232
    || c == 8233
    || c == 8239
    || c == 8287
    || c == 12288

-- `str::trim_start`.
unfoldable pub trim_start : Str → Str
unfolding is_whitespace
trim_start [] = []
trim_start (c ∷ cs) = if is_whitespace c then trim_start cs else c ∷ cs

-- Adds a character in front of a text whose end is trimmed.
keep_unless_blank : ℕ → Str → Str
unfolding is_whitespace
keep_unless_blank c [] = if is_whitespace c then [] else c ∷ []
keep_unless_blank c (d ∷ ds) = c ∷ d ∷ ds

-- `str::trim_end`.
unfoldable pub trim_end : Str → Str
unfolding keep_unless_blank
trim_end [] = []
trim_end (c ∷ cs) = keep_unless_blank c (trim_end cs)

-- `str::trim`.
unfoldable pub trim : Str → Str
unfolding trim_start trim_end
trim s = trim_end (trim_start s)

-- `char::to_ascii_lowercase`.
unfoldable pub lower : ℕ → ℕ
lower c = if leb 65 c && leb c 90 then c + 32 else c

-- `str::to_ascii_lowercase`.
unfoldable pub to_ascii_lowercase : Str → Str
unfolding lower
to_ascii_lowercase s = map lower s

-- `char::is_ascii_hexdigit`.
unfoldable pub is_hexdigit : ℕ → Bool
is_hexdigit c = (leb 48 c && leb c 57) || (leb 65 c && leb c 70) || (leb 97 c && leb c 102)

-- The hexadecimal digits that lowercasing leaves alone.
unfoldable pub is_lower_hexdigit : ℕ → Bool
is_lower_hexdigit c = (leb 48 c && leb c 57) || (leb 97 c && leb c 102)

trim_start-solid : (c : ℕ) (cs : Str) → is_whitespace c ≡ false → trim_start (c ∷ cs) ≡ c ∷ cs
unfolding trim_start
trim_start-solid c cs h = rw (h, trim_start)

-- No blank.
abbrev pub is_solid : ℕ → Bool
is_solid c = not (is_whitespace c)

pub hexdigit_solid : (c : ℕ) → is_hexdigit c ≡ true → is_solid c ≡ true
unfolding is_hexdigit is_whitespace
hexdigit_solid c h = ground arith

trim_end-solid : (s : Str) → all is_solid s ≡ true → trim_end s ≡ s
unfolding trim_end
trim_end-solid [] h = refl
trim_end-solid (c ∷ []) h = ground arith
trim_end-solid (c ∷ d ∷ ds) h = ground (arith, trim_end-solid (d ∷ ds))

-- A text without blanks is its own trimming.
pub trim-solid : (s : Str) → all is_solid s ≡ true → trim s ≡ s
unfolding trim
trim-solid [] h = refl
trim-solid (c ∷ cs) h = ground (arith, trim_start-solid c cs, trim_end-solid (c ∷ cs))

trim_end-cons : (c : ℕ) (cs : Str) → is_whitespace c ≡ false → trim_end (c ∷ cs) ≡ c ∷ trim_end cs
unfolding trim_end
trim_end-cons c cs h = solid_kept (trim_end cs)
  where
    solid_kept : (r : Str) → keep_unless_blank c r ≡ c ∷ r
    solid_kept [] = rw h
    solid_kept (d ∷ ds) = refl

trim_end-twice : (s : Str) → trim_end (trim_end s) ≡ trim_end s
unfolding trim_end
trim_end-twice [] = refl
trim_end-twice (c ∷ cs) = kept (trim_end cs) (trim_end-twice cs)
  where
    kept : (r : Str) → trim_end r ≡ r → trim_end (keep_unless_blank c r) ≡ keep_unless_blank c r
    kept [] e = ground arith
    kept (d ∷ ds) e = rw e

trim-cons : (c : ℕ) (cs : Str) → is_whitespace c ≡ false → trim (c ∷ cs) ≡ c ∷ trim_end cs
unfolding trim
trim-cons c cs h = ap trim_end (trim_start-solid c cs h) ∙ trim_end-cons c cs h

trim_end-settled :
    (c : ℕ) (cs : Str) → is_whitespace c ≡ false → trim (trim_end (c ∷ cs)) ≡ trim_end (c ∷ cs)
trim_end-settled c cs h =
    rw (trim_end-cons c cs h) (trim-cons c (trim_end cs) h ∙ ap (◌∷◌ c) (trim_end-twice cs))

trim-trim_start : (s : Str) → trim (trim_end (trim_start s)) ≡ trim_end (trim_start s)
unfolding trim_start
trim-trim_start [] = unfold trim trim_start trim_end in refl
trim-trim_start (c ∷ cs) = elim (Bool-cases (is_whitespace c)) [
  | inl blank ↦ rw blank (trim-trim_start cs)
  | inr solid ↦ rw solid (trim_end-settled c cs solid)
]

-- Trimming twice is trimming once.
pub trim-twice : (s : Str) → trim (trim s) ≡ trim s
unfolding trim
trim-twice s = unfold trim in trim-trim_start s
