-- ===== src/CoinOps/Target/Pointed.antt =====
-- greenfloor-engine/src/coin_ops/selection.rs: the entries that a subset of indices stands for.
use greenfloor.Common.{
  ℕ, zero, suc, ◌+◌, ◌≤◌, ◌≡◌, refl, subst, Bool, false, List, [], ◌∷◌, ◌++◌, Option, none, some,
  arith, if◌then◌else◌, length, get_elem?, length-append, map, take,
}
use greenfloor.Common.Int.{ℤ, pos, eqb_ℤ, ◌≤ℤ◌}
use greenfloor.Common.Run.{
  panicked, returned-injective, returned-not_panicked, Run, returned, ◌>>=◌, in_range,
}
use greenfloor.CoinOps.Target.{Entry, Selection, entry_id, entries_at, is_over}
use greenfloor.CoinOps.Target.Subsets.{worth, Positive, Reaches, begin, leave, pick}

-- How many entries a test picks.
unfoldable pub picked_by : (Entry → Bool) → List Entry → ℕ
picked_by q [] = 0
picked_by q (entry ∷ entries) = (if q entry then 1 else 0) + picked_by q entries

-- A list of entries, none more often than it is there.
abbrev pub ArePicked : List Entry → List Entry → Type 0
ArePicked entries picked = (q : Entry → Bool) → picked_by q picked ≤ picked_by q entries

-- The ids, total and count of entries that cover the target.
pub record Covers (entries : List Entry) (required : ℤ) (min_count : ℕ) (max_count : Option ℕ)
    (selection : Selection) : Type 0 where
  pub picked : List Entry
  pub from_entries : ArePicked entries picked
  pub same_ids : selection.ids ≡ map entry_id picked
  pub same_total : selection.total ≡ pos (worth picked)
  pub covered : required ≤ℤ selection.total
  pub exact_iff : selection.exact ≡ eqb_ℤ selection.total required
  pub enough : min_count ≤ length picked
  pub not_over : is_over max_count (length picked) ≡ false

pub picked_by-append :
    (q : Entry → Bool) (xs ys : List Entry)
    → picked_by q (xs ++ ys) ≡ picked_by q xs + picked_by q ys
unfolding picked_by
picked_by-append q [] ys = omega arith
picked_by-append q (x ∷ xs) ys = omega (arith, picked_by-append q xs ys)

pub Positive-append : (xs ys : List Entry) → Positive xs → Positive ys → Positive (xs ++ ys)
Positive-append [] ys p q = q
Positive-append ((_, amount) ∷ xs) ys (a, p) q = (a, Positive-append xs ys p q)

pub worth-append : (xs ys : List Entry) → worth (xs ++ ys) ≡ worth xs + worth ys
unfolding worth
worth-append [] ys = omega arith
worth-append ((_, amount) ∷ xs) ys = omega (arith, worth-append xs ys)

picked_by-take_get :
    (q : Entry → Bool) (entries : List Entry) (n : ℕ) (entry : Entry)
    → get_elem? entries n ≡ some entry
    → picked_by q (take (suc n) entries) ≡ picked_by q (take n entries) + picked_by q (entry ∷ [])
unfolding picked_by
picked_by-take_get q [] n entry h = absurd (ground (arith, h))
picked_by-take_get q (e ∷ []) zero entry h = ground (arith, h)
picked_by-take_get q (e ∷ (d ∷ entries)) zero entry h = ground (arith, h)
picked_by-take_get q (e ∷ entries) (suc n) entry h =
    omega (arith, picked_by-take_get q entries n entry h)

pub picked_by-take :
    (q : Entry → Bool) (entries : List Entry) (n : ℕ)
    → picked_by q (take n entries) ≤ picked_by q entries
unfolding picked_by
picked_by-take q [] n = omega arith
picked_by-take q (e ∷ entries) zero = omega arith
picked_by-take q (e ∷ entries) (suc n) = omega (arith, picked_by-take q entries n)

picked_by-take-suc :
    (q : Entry → Bool) (entries : List Entry) (n : ℕ)
    → picked_by q (take n entries) ≤ picked_by q (take (suc n) entries)
unfolding picked_by
picked_by-take-suc q [] n = omega arith
picked_by-take-suc q (e ∷ entries) zero = omega arith
picked_by-take-suc q (e ∷ entries) (suc n) = omega (arith, picked_by-take-suc q entries n)

entries_at-append :
    (entries : List Entry) (subset : List ℕ) (idx : ℕ) (entry : Entry) (picked : List Entry)
    → entries_at entries subset ≡ returned picked
    → get_elem? entries idx ≡ some entry
    → entries_at entries (subset ++ (idx ∷ [])) ≡ returned (picked ++ (entry ∷ []))
unfolding entries_at
entries_at-append entries [] idx entry picked h here =
    let none_yet : [] ≡ picked = returned-injective h in
    rw here (subst (λ xs. returned (entry ∷ []) ≡ returned (xs ++ (entry ∷ []))) none_yet refl)
entries_at-append entries (i ∷ subset) idx entry picked h here =
    push (get_elem? entries i) (entries_at entries subset) _ picked
      (λ rest e. entries_at-append entries subset idx entry rest e here) h
  where
    push :
        (o : Option Entry) (before after : Run (List Entry)) (xs : List Entry)
        → ((rest : List Entry) → before ≡ returned rest → after ≡ returned (rest ++ (entry ∷ [])))
        → (in_range o >>= λ e. before >>= λ rest. returned (e ∷ rest)) ≡ returned xs
        → (in_range o >>= λ e. after >>= λ rest. returned (e ∷ rest))
          ≡ returned (xs ++ (entry ∷ []))
    push none before after xs f g = absurd (returned-not_panicked g)
    push (some e) panicked after xs f g = absurd (returned-not_panicked g)
    push (some e) (returned rest) after xs f g =
        let all_of : (e ∷ rest) ≡ xs = returned-injective g in
        rw (f rest refl) (
          subst (λ ys. returned (e ∷ (rest ++ (entry ∷ []))) ≡ returned (ys ++ (entry ∷ []))) all_of
            refl)

-- The entries of a subset that the table stands for.
pub record ArePointed (entries : List Entry) (idx : ℕ) (subset : List ℕ) (sum : ℕ) : Type 0 where
  pub picked : List Entry
  pub found : entries_at entries subset ≡ returned picked
  pub as_many : length picked ≡ length subset
  pub positive : Positive picked
  pub as_much : worth picked ≡ sum
  pub apart : (q : Entry → Bool) → picked_by q picked ≤ picked_by q (take idx entries)

pub Reaches-ArePointed :
    {entries : List Entry} {idx : ℕ} {subset : List ℕ} {sum : ℕ}
    → Reaches entries idx subset sum
    → ArePointed entries idx subset sum
unfolding entries_at worth picked_by
Reaches-ArePointed begin = record {
  picked = [];
  found = refl;
  as_many = refl;
  positive = tt;
  as_much = refl;
  apart = λ q. omega arith;
}
Reaches-ArePointed {entries} (leave {idx} r) =
    let p = Reaches-ArePointed r in
    record {
      picked = p.picked;
      found = p.found;
      as_many = p.as_many;
      positive = p.positive;
      as_much = p.as_much;
      apart = λ q. omega (arith, p.apart q, picked_by-take-suc q entries idx);
    }
Reaches-ArePointed {entries} (pick {idx} {subset} id a here r) =
    let p = Reaches-ArePointed r in
    let entry : Entry = (id, pos (suc a)) in
    record {
      picked = p.picked ++ (entry ∷ []);
      found = entries_at-append entries subset idx entry p.picked p.found here;
      as_many =
          omega (
            arith,
            length-append p.picked (entry ∷ []),
            length-append subset (idx ∷ []),
            p.as_many,
          );
      positive = Positive-append p.picked (entry ∷ []) p.positive ((a, refl), tt);
      as_much = omega (arith, worth-append p.picked (entry ∷ []), p.as_much);
      apart = λ q. omega (
        arith,
        p.apart q,
        picked_by-append q p.picked (entry ∷ []),
        picked_by-take_get q entries idx entry here,
      );
    }
