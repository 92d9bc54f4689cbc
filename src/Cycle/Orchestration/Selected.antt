-- ===== src/Cycle/Orchestration/Selected.antt =====
-- greenfloor-engine/src/cycle/orchestration.rs: what a batch of markets holds.
use greenfloor.Common.{
  ℕ, zero, suc, ◌+◌, ◌-◌, ◌%◌, ◌≤◌, ◌<◌, ◌≡◌, refl, max, Bool, true, false, ◌||◌, List, [], ◌∷◌,
  ◌++◌, All, All-map, is_empty, length, length-append, get_elem?, if◌then◌else◌, leb, ltb, ltb→lt,
  Bool-cases, inl, inr, arith,
}
use greenfloor.Common.Str.{Str, str_eq_refl, trim}
use greenfloor.Common.Run.{Run, in_range, Returns, Returns-bind}
use greenfloor.CoinOps.Coin.{contains_id}
use greenfloor.Cycle.Orchestration.Ids.{Unique, Unique-push, All-push, contains_self, absent}
use greenfloor.Cycle.Orchestration.{
  clean_ids, Batch, take_requeue, take_requeues, Turn, round_robin_turn, round_robin, fill_slots,
  fill_batch, select_of_enabled, select_market_batch,
}

-- The ids are among the enabled ones, each once, and no more than the slots.
pub record Allowed (enabled : List Str) (slots : ℕ) (ids : List Str) : Type 0 where
  pub enabled_only : All (λ id. contains_id enabled id ≡ true) ids
  pub once : Unique ids
  pub within : length ids ≤ slots

Allowed-push :
    (enabled : List Str) (slots : ℕ) (ids : List Str) (id : Str)
    → Allowed enabled slots ids
    → contains_id enabled id ≡ true
    → contains_id ids id ≡ false
    → length ids < slots
    → Allowed enabled slots (ids ++ id ∷ [])
Allowed-push enabled slots ids id a is_enabled new room = record {
  enabled_only = All-push _ ids id a.enabled_only is_enabled;
  once = Unique-push ids id a.once new;
  within = omega (arith, length-append ids (id ∷ []));
}

pub if-Returns {ℓ κ} :
    {A : Type ℓ} (P : A → Type κ) (b : Bool) {x y : Run A}
    → (b ≡ true → Returns P x)
    → (b ≡ false → Returns P y)
    → Returns P (if b then x else y)
if-Returns P true f g = f refl
if-Returns P false f g = g refl

requeue-Allowed :
    (enabled : List Str) (slots : ℕ) (batch : Batch) (id : Str)
    → Allowed enabled slots batch.selected_ids
    → Allowed enabled slots (take_requeue enabled slots batch id).selected_ids
unfolding take_requeue
requeue-Allowed enabled slots batch id a = elim (Bool-cases (contains_id enabled id)) [
  | inr foreign ↦ rw foreign a
  | inl is_enabled ↦ elim (Bool-cases (contains_id batch.selected_ids id)) [
    | inl old ↦ rw (is_enabled, old) a
    | inr new ↦ elim (Bool-cases (ltb (length batch.selected_ids) slots)) [
      | inr full ↦ rw (is_enabled, new, full) a
      | inl room ↦
          rw (is_enabled, new, room)
            (Allowed-push enabled slots batch.selected_ids id a is_enabled new (ltb→lt _ _ room))
    ]
  ]
]

requeues-Allowed :
    (enabled : List Str) (slots : ℕ) (batch : Batch) (ids : List Str)
    → Allowed enabled slots batch.selected_ids
    → Allowed enabled slots (take_requeues enabled slots batch ids).selected_ids
unfolding take_requeues
requeues-Allowed enabled slots batch [] a = a
requeues-Allowed enabled slots batch (id ∷ ids) a =
    requeues-Allowed enabled slots (take_requeue enabled slots batch id) ids
      (requeue-Allowed enabled slots batch id a)

elem_at :
    (ids : List Str) (i : ℕ)
    → i < length ids
    → Returns (λ id. contains_id ids id ≡ true) (in_range (get_elem? ids i))
unfolding contains_id
elem_at [] i h = absurd (omega arith)
elem_at (x ∷ xs) zero h = record {
  value = x;
  returns = refl;
  holds = ground (arith, str_eq_refl x);
}
elem_at (x ∷ xs) (suc i) h =
    let later = elem_at xs i (omega arith) in
    record { value = later.value; returns = later.returns; holds = ground (arith, later.holds) }

-- A turn before the break has room for one more.
abbrev Going : List Str → ℕ → Turn → Type 0
Going enabled slots turn =
    Allowed enabled slots turn.selected_ids
    × (turn.breaks ≡ false → length turn.selected_ids < slots)

turn-Going :
    (enabled : List Str) (slots idx : ℕ) (turn : Turn) (id : Str)
    → Allowed enabled slots turn.selected_ids
    → length turn.selected_ids < slots
    → contains_id enabled id ≡ true
    → Going enabled slots (round_robin_turn slots idx turn id)
unfolding round_robin_turn
turn-Going enabled slots idx turn id a room is_enabled =
    elim (Bool-cases (contains_id turn.selected_ids id)) [
      | inl old ↦ rw old (a, λ _. room)
      | inr new ↦ rw new (
        Allowed-push enabled slots turn.selected_ids id a is_enabled new room,
        λ going. ground (arith, going),
      )
    ]

round_robin-Allowed :
    (enabled : List Str) (slots start steps step : ℕ) (turn : Turn)
    → 0 < length enabled
    → Allowed enabled slots turn.selected_ids
    → length turn.selected_ids < slots
    → Returns
        (λ end. Allowed enabled slots end.selected_ids)
        (round_robin enabled slots start steps step turn)
unfolding round_robin
round_robin-Allowed enabled slots start zero step turn some_id a room = record {
  value = turn;
  returns = refl;
  holds = a;
}
round_robin-Allowed enabled slots start (suc steps) step turn some_id a room =
    Returns-bind (λ id. contains_id enabled id ≡ true)
      (λ end. Allowed enabled slots end.selected_ids)
      (elem_at enabled ((start + step) % length enabled) (omega arith))
      λ id is_enabled.
        let next = round_robin_turn slots ((start + step) % length enabled) turn id in
        let (b, more) = turn-Going enabled slots _ turn id a room is_enabled in
        if-Returns (λ end. Allowed enabled slots end.selected_ids) next.breaks
          (λ stops. record { value = next; returns = refl; holds = b })
          λ goes.
            round_robin-Allowed enabled slots start steps (step + 1) next some_id b (more goes)

fill_slots-Allowed :
    (enabled : List Str) (slots cursor : ℕ) (ids : List Str)
    → 0 < length enabled
    → Allowed enabled slots ids
    → Returns (λ end. Allowed enabled slots end.0) (fill_slots enabled slots cursor ids)
unfolding fill_slots
fill_slots-Allowed enabled slots cursor ids some_id a =
    if-Returns (λ end. Allowed enabled slots end.0) (ltb 0 (slots - length ids))
      (λ room.
        Returns-bind (λ end. Allowed enabled slots end.selected_ids)
          (λ end. Allowed enabled slots end.0)
          (round_robin-Allowed enabled slots (cursor % length enabled) (length enabled) 0 _ some_id
            a (ground (arith, ltb→lt _ _ room)))
          λ turn b. record { value = _; returns = refl; holds = b })
      λ full. record { value = _; returns = refl; holds = a }

fill_batch-Allowed :
    (enabled : List Str) (slots cursor : ℕ) (requeues : List Str)
    → 0 < length enabled
    → Returns
        (λ end. Allowed enabled slots end.selected_market_ids)
        (fill_batch enabled slots cursor requeues)
unfolding fill_batch
fill_batch-Allowed enabled slots cursor requeues some_id =
    Returns-bind (λ end. Allowed enabled slots end.0)
      (λ end. Allowed enabled slots end.selected_market_ids)
      (fill_slots-Allowed enabled slots cursor _ some_id (
        requeues-Allowed enabled slots _ requeues
          (record { enabled_only = tt; once = tt; within = omega arith })))
      λ end b. record { value = _; returns = refl; holds = b }

neither :
    (y : Str) (seen : List Str) (id : Str)
    → contains_id (y ∷ seen) id ≡ false
    → (contains_id (y ∷ []) id ≡ false) × (contains_id seen id ≡ false)
unfolding contains_id
neither y seen id h = (ground arith, ground arith)

pub clean_ids-Unique :
    (seen ids : List Str)
    → Unique (clean_ids seen ids) × All (λ id. contains_id seen id ≡ false) (clean_ids seen ids)
unfolding clean_ids
clean_ids-Unique seen [] = (tt, tt)
clean_ids-Unique seen (x ∷ xs) =
    elim (Bool-cases (is_empty (trim x) || contains_id seen (trim x))) [
      | inl skips ↦ rw skips (clean_ids-Unique seen xs)
      | inr new ↦
          let (u, fresh) = clean_ids-Unique (trim x ∷ seen) xs in
          rw new (
            (absent _ (trim x) (All-map _ _ _ (λ id h. (neither (trim x) seen id h).0) fresh), u),
            (ground (arith, new), All-map _ _ _ (λ id h. (neither (trim x) seen id h).1) fresh),
          )
    ]

select-Allowed :
    (enabled : List Str) (slots cursor : ℕ) (requeues : List Str)
    → Unique enabled
    → Returns
        (λ end. Allowed enabled slots end.selected_market_ids)
        (select_of_enabled enabled slots cursor requeues)
unfolding select_of_enabled
select-Allowed [] slots cursor requeues u = record {
  value = _;
  returns = refl;
  holds = record { enabled_only = tt; once = tt; within = omega arith };
}
select-Allowed (x ∷ xs) slots cursor requeues u =
    if-Returns (λ end. Allowed (x ∷ xs) slots end.selected_market_ids) (leb (length (x ∷ xs)) slots)
      (λ fits. record {
        value = _;
        returns = refl;
        holds = record {
          enabled_only = contains_self (x ∷ xs);
          once = u;
          within = ground (arith, fits);
        };
      })
      λ _. fill_batch-Allowed (x ∷ xs) slots cursor requeues (omega arith)

-- The choice of the next markets returns for every cursor; the markets that it selects are among the
-- enabled ones, each once, and no more than the slots, of which there is at least one.
pub batch-Allowed :
    (enabled_market_ids : List Str) (slot_count cursor : ℕ) (requeues : List Str)
    → Returns
        (λ end.
          Allowed (clean_ids [] enabled_market_ids) (max slot_count 1) end.selected_market_ids)
        (select_market_batch enabled_market_ids slot_count cursor requeues)
unfolding select_market_batch
batch-Allowed enabled_market_ids slot_count cursor requeues =
    select-Allowed (clean_ids [] enabled_market_ids) (max slot_count 1) cursor requeues
      (clean_ids-Unique [] enabled_market_ids).0
