-- ===== src/Cycle/Orchestration/Ids.antt =====
-- Lists of ids, for greenfloor-engine/src/cycle/orchestration.rs.
use greenfloor.Common.{
  ◌≤◌, ◌<◌, ◌≡◌, refl, true, false, ◌||◌, not, List, [], ◌∷◌, ◌++◌, keep, All, All-map, length,
  length-keep, arith,
}
use greenfloor.Common.Str.{Str, str_eq, str_eq_refl, any-kept}
use greenfloor.CoinOps.Coin.{contains_id}

-- No id stands twice in the list.
abbrev pub Unique : List Str → Type 0
Unique [] = Unit
Unique (x ∷ xs) = (contains_id xs x ≡ false) × Unique xs

pub str_eq_sym : (s t : Str) → str_eq s t ≡ str_eq t s
str_eq_sym [] [] = refl
str_eq_sym [] (y ∷ ys) = refl
str_eq_sym (x ∷ xs) [] = refl
str_eq_sym (x ∷ xs) (y ∷ ys) = ground (arith, str_eq_sym xs ys)

pub contains-push :
    (xs : List Str) (y x : Str) → contains_id (xs ++ y ∷ []) x ≡ (contains_id xs x || str_eq x y)
unfolding contains_id
contains-push [] y x = ground arith
contains-push (z ∷ xs) y x = ground (arith, contains-push xs y x)

pub Unique-push :
    (xs : List Str) (y : Str) → Unique xs → contains_id xs y ≡ false → Unique (xs ++ y ∷ [])
unfolding contains_id
Unique-push [] y u new = (refl, tt)
Unique-push (x ∷ xs) y (h, u) new =
    let other : str_eq y x ≡ false = ground arith in
    let later : contains_id xs y ≡ false = ground arith in
    (ground (arith, contains-push xs y x, str_eq_sym x y), Unique-push xs y u later)

pub All-push {κ} :
    (P : Str → Type κ) (xs : List Str) (y : Str) → All P xs → P y → All P (xs ++ y ∷ [])
All-push P [] y h p = (p, tt)
All-push P (x ∷ xs) y (q, h) p = (q, All-push P xs y h p)

pub contains_self : (ids : List Str) → All (λ id. contains_id ids id ≡ true) ids
unfolding contains_id
contains_self [] = tt
contains_self (x ∷ xs) =
    (ground (arith, str_eq_refl x), All-map _ _ xs (λ id h. ground (arith, h)) (contains_self xs))

pub absent :
    (ids : List Str) (id : Str)
    → All (λ x. contains_id (id ∷ []) x ≡ false) ids
    → contains_id ids id ≡ false
unfolding contains_id
absent [] id h = refl
absent (x ∷ xs) id (p, h) = ground (arith, str_eq_sym id x, absent xs id h)

length-without :
    (x : Str) (ids : List Str)
    → contains_id ids x ≡ true
    → length (keep (λ y. not (str_eq x y)) ids) < length ids
unfolding contains_id
length-without x [] h = cc
length-without x (y ∷ ids) h =
    ground (arith, length-without x ids, length-keep (λ y. not (str_eq x y)) ids)

contains-without :
    (x : Str) (ids xs : List Str)
    → contains_id xs x ≡ false
    → All (λ y. contains_id ids y ≡ true) xs
    → All (λ y. contains_id (keep (λ z. not (str_eq x z)) ids) y ≡ true) xs
unfolding contains_id
contains-without x ids [] new h = tt
contains-without x ids (y ∷ xs) new (p, h) = (
  ground (arith, any-kept ids y (λ z. not (str_eq x z)), p),
  contains-without x ids xs (ground arith) h,
)

-- Different ids that all stand in a list are no more than the list has.
pub length-Unique :
    (xs ids : List Str)
    → Unique xs
    → All (λ x. contains_id ids x ≡ true) xs
    → length xs ≤ length ids
length-Unique [] ids u h = omega arith
length-Unique (x ∷ xs) ids (new, u) (p, h) = omega (
  arith,
  length-without x ids p,
  length-Unique xs (keep (λ z. not (str_eq x z)) ids) u (contains-without x ids xs new h),
)
