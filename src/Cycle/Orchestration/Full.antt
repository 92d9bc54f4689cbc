-- ===== src/Cycle/Orchestration/Full.antt =====
-- greenfloor-engine/src/cycle/orchestration.rs: no slot of a batch stays empty.
use greenfloor.Common.{
  ℕ, zero, suc, ◌+◌, ◌-◌, ◌%◌, ◌≤◌, ◌<◌, ◌≡◌, refl, sym, ap, ◌∙◌, min, max, true, List, [], ◌∷◌,
  ◌++◌, some, All, length, get_elem?, leb, ltb, ltb→lt, subst, Bool-cases, inl, inr, ◌⊎◌, arith,
}
use greenfloor.Common.Str.{Str, str_eq_refl}
use greenfloor.Common.Run.{in_range, Returns, Returns-bind, Returns-map}
use greenfloor.CoinOps.Coin.{contains_id}
use greenfloor.Cycle.Orchestration.Ids.{Unique, contains-push, length-Unique}
use greenfloor.Cycle.Orchestration.Selected.{if-Returns, clean_ids-Unique}
use greenfloor.Cycle.Orchestration.{
  clean_ids, Turn, round_robin_turn, round_robin, fill_slots, fill_batch, select_of_enabled,
  select_market_batch,
}
use mathlib.Core.Option.{some-injective}
use native.Mathlib.Nat.{mod-eq_of_lt, add-mod_right}

-- Every place comes up in a round, from whatever place it starts.
comes_round : (start i n : ℕ) → start < n → i < n → (j : ℕ) × (j < n) × ((start + j) % n ≡ i)
comes_round start i n s h = elim (Bool-cases (leb start i)) [
  | inl after ↦
      let same : start + (i - start) ≡ i = ground (arith, after) in
      (i - start, ground (arith, after), ap (λ m. m % n) same ∙ mod-eq_of_lt h)
  | inr before ↦
      let same : start + (i + n - start) ≡ i + n = ground (arith, before) in
      (
        i + n - start,
        ground (arith, before),
        ap (λ m. m % n) same ∙ add-mod_right i n ∙ mod-eq_of_lt h,
      )
]

-- The ids at the places that the first steps came to.
abbrev Visited : List Str → ℕ → ℕ → List Str → Type 0
Visited enabled start steps ids =
    (j : ℕ)
    → j < steps
    → (id : Str) → get_elem? enabled ((start + j) % length enabled) ≡ some id
    → contains_id ids id ≡ true

at_every_place :
    (P : Str → Type 0) (ids : List Str)
    → ((i : ℕ) → i < length ids → (id : Str) → get_elem? ids i ≡ some id → P id)
    → All P ids
at_every_place P [] f = tt
at_every_place P (x ∷ xs) f =
    (f 0 (omega arith) x refl, at_every_place P xs λ i h id e. f (suc i) (omega arith) id e)

every_place_contained :
    (enabled ids : List Str) (start : ℕ)
    → start < length enabled
    → Visited enabled start (length enabled) ids
    → All (λ id. contains_id ids id ≡ true) enabled
every_place_contained enabled ids start s v =
    at_every_place (λ id. contains_id ids id ≡ true) enabled
      λ i h id e.
        let (j, below, here) = comes_round start i (length enabled) s h in
        v j below id (ap (get_elem? enabled) here ∙ e)

place_filled :
    (ids : List Str) (i : ℕ)
    → i < length ids
    → Returns (λ id. get_elem? ids i ≡ some id) (in_range (get_elem? ids i))
place_filled [] i h = absurd (omega arith)
place_filled (x ∷ xs) zero h = record { value = x; returns = refl; holds = refl }
place_filled (x ∷ xs) (suc i) h =
    let later = place_filled xs i (omega arith) in
    record { value = later.value; returns = later.returns; holds = later.holds }

-- The selected ids hold what was visited, and a break tells that the slots are full.
pub record Going (enabled : List Str) (slots start steps : ℕ) (turn : Turn) : Type 0 where
  pub visited : Visited enabled start steps turn.selected_ids
  pub stops : turn.breaks ≡ true → slots ≤ length turn.selected_ids

one_more :
    (enabled : List Str) (start step : ℕ) (ids after : List Str) (id : Str)
    → Visited enabled start step ids
    → ((x : Str) → contains_id ids x ≡ true → contains_id after x ≡ true)
    → contains_id after id ≡ true
    → get_elem? enabled ((start + step) % length enabled) ≡ some id
    → Visited enabled start (step + 1) after
one_more enabled start step ids after id v grows new here j h x e = elim (Bool-cases (ltb j step)) [
  | inl less ↦ grows x (v j (ltb→lt j step less) x e)
  | inr last ↦
      let j_is : j ≡ step = ground (arith, last) in
      let here_too =
        sym here ∙ ap (λ k. get_elem? enabled ((start + k) % length enabled)) (sym j_is) ∙ e in
      subst (λ y. contains_id after y ≡ true) (some-injective _ _ here_too) new
]

pushed_contains :
    (ids : List Str) (y : Str)
    → ((x : Str) → contains_id ids x ≡ true → contains_id (ids ++ y ∷ []) x ≡ true)
      × (contains_id (ids ++ y ∷ []) y ≡ true)
pushed_contains ids y = (
  (λ x h. ground (arith, contains-push ids y x, h)),
  ground (arith, contains-push ids y y, str_eq_refl y),
)

turn-Going :
    (enabled : List Str) (slots start step : ℕ) (turn : Turn) (id : Str)
    → Going enabled slots start step turn
    → get_elem? enabled ((start + step) % length enabled) ≡ some id
    → Going enabled slots start
        (step + 1)
        (round_robin_turn slots ((start + step) % length enabled) turn id)
unfolding round_robin_turn
turn-Going enabled slots start step turn id g here =
    elim (Bool-cases (contains_id turn.selected_ids id)) [
      | inl old ↦ rw old (record {
        visited =
            one_more enabled start step turn.selected_ids turn.selected_ids id g.visited (λ x h. h)
              old here;
        stops = g.stops;
      })
      | inr new ↦
          let (grows, pushed) = pushed_contains turn.selected_ids id in
          rw new (record {
            visited =
                one_more enabled start step turn.selected_ids _ id g.visited grows pushed here;
            stops = λ e. ground (arith, e);
          })
    ]

round_robin-Full :
    (enabled : List Str) (slots start steps step : ℕ) (turn : Turn)
    → 0 < length enabled
    → Going enabled slots start step turn
    → Returns
        (λ end.
          (slots ≤ length end.selected_ids) ⊎ Visited enabled start (step + steps) end.selected_ids)
        (round_robin enabled slots start steps step turn)
unfolding round_robin
round_robin-Full enabled slots start zero step turn some_id g = record {
  value = turn;
  returns = refl;
  holds = inr (λ j h. g.visited j (omega arith));
}
round_robin-Full enabled slots start (suc steps) step turn some_id g =
    Returns-bind (λ id. get_elem? enabled ((start + step) % length enabled) ≡ some id) _
      (place_filled enabled ((start + step) % length enabled) (omega arith))
      λ id here.
        let next = round_robin_turn slots ((start + step) % length enabled) turn id in
        let h = turn-Going enabled slots start step turn id g here in
        if-Returns _ next.breaks
          (λ stops. record { value = next; returns = refl; holds = inl (h.stops stops) })
          λ goes.
            Returns-map _ _ (round_robin-Full enabled slots start steps (step + 1) next some_id h)
              later
  where
    later :
        (end : Turn)
        → (slots ≤ length end.selected_ids)
          ⊎ Visited enabled start (step + 1 + steps) end.selected_ids
        → (slots ≤ length end.selected_ids)
          ⊎ Visited enabled start (step + suc steps) end.selected_ids
    later end (inl full) = inl full
    later end (inr v) = inr (λ j h. v j (omega arith))

fill_slots-Full :
    (enabled : List Str) (slots cursor : ℕ) (ids : List Str)
    → 0 < length enabled
    → Unique enabled
    → slots < length enabled
    → Returns (λ end. slots ≤ length end.0) (fill_slots enabled slots cursor ids)
unfolding fill_slots
fill_slots-Full enabled slots cursor ids some_id u fewer =
    if-Returns (λ end. slots ≤ length end.0) (ltb 0 (slots - length ids))
      (λ room.
        Returns-bind _ (λ end. slots ≤ length end.0)
          (round_robin-Full enabled slots start (length enabled) 0 _ some_id
            (record { visited = λ j h. absurd (omega arith); stops = λ e. absurd cc }))
          λ turn b. record { value = _; returns = refl; holds = full turn b })
      λ none_left. record { value = _; returns = refl; holds = ground (arith, none_left) }
  where
    start : ℕ
    start = cursor % length enabled

    full :
        (end : Turn)
        → (slots ≤ length end.selected_ids)
          ⊎ Visited enabled start (0 + length enabled) end.selected_ids
        → slots ≤ length end.selected_ids
    full end (inl h) = h
    full end (inr v) = omega (
      arith,
      length-Unique enabled end.selected_ids u (
          every_place_contained enabled end.selected_ids start (omega arith)
            λ j h. v j (omega arith)),
    )

fill_batch-Full :
    (enabled : List Str) (slots cursor : ℕ) (requeues : List Str)
    → 0 < length enabled
    → Unique enabled
    → slots < length enabled
    → Returns
        (λ end. slots ≤ length end.selected_market_ids)
        (fill_batch enabled slots cursor requeues)
unfolding fill_batch
fill_batch-Full enabled slots cursor requeues some_id u fewer =
    Returns-bind (λ end. slots ≤ length end.0) (λ end. slots ≤ length end.selected_market_ids)
      (fill_slots-Full enabled slots cursor _ some_id u fewer)
      λ end b. record { value = _; returns = refl; holds = b }

select-Full :
    (enabled : List Str) (slots cursor : ℕ) (requeues : List Str)
    → Unique enabled
    → Returns
        (λ end. min slots (length enabled) ≤ length end.selected_market_ids)
        (select_of_enabled enabled slots cursor requeues)
unfolding select_of_enabled
select-Full [] slots cursor requeues u = record { value = _; returns = refl; holds = omega arith }
select-Full (x ∷ xs) slots cursor requeues u =
    if-Returns (λ end. min slots (length (x ∷ xs)) ≤ length end.selected_market_ids)
      (leb (length (x ∷ xs)) slots)
      (λ fits. record { value = _; returns = refl; holds = omega arith })
      λ fewer.
        Returns-map _ _
          (fill_batch-Full (x ∷ xs) slots cursor requeues (omega arith) u (ground (arith, fewer)))
          λ end b. omega (arith, b)

-- The choice of the next markets leaves no slot empty while an enabled market is not selected: it
-- returns at least as many markets as there are slots, of which there is at least one, or all of the
-- enabled ones.
pub batch-Full :
    (enabled_market_ids : List Str) (slot_count cursor : ℕ) (requeues : List Str)
    → Returns
        (λ end.
          min (max slot_count 1) (length (clean_ids [] enabled_market_ids))
          ≤ length end.selected_market_ids)
        (select_market_batch enabled_market_ids slot_count cursor requeues)
unfolding select_market_batch
batch-Full enabled_market_ids slot_count cursor requeues =
    select-Full (clean_ids [] enabled_market_ids) (max slot_count 1) cursor requeues
      (clean_ids-Unique [] enabled_market_ids).0
