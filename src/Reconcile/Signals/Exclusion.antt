-- ===== src/Reconcile/Signals/Exclusion.antt =====
-- greenfloor-engine/src/cycle/reconcile/coinset_signals.rs: the spend of a cancellation is no sign
-- of a taker.
use greenfloor.Common.{◌≡◌, refl, Bool, false, ◌&&◌, not, List, [], ◌∷◌, some, arith, any}
use greenfloor.Common.Str.{Str, str_eq, any-kept}
use greenfloor.Hex.{canonical_tx_id}
use greenfloor.Reconcile.Signals.{CoinsetTxSignals, is_id, drop_cancel, excluding_cancel_tx}

-- Some id of the list is the cancel's.
abbrev pub names_cancel : Str → List Str → Bool
names_cancel cancel ids = any (λ id. is_id cancel (canonical_tx_id id)) ids

drop_cancel-names :
    (cancel : Str) (ids : List Str) → names_cancel cancel (drop_cancel cancel ids) ≡ false
drop_cancel-names cancel [] = refl
drop_cancel-names cancel (x ∷ ids) = ground (arith, drop_cancel-names cancel ids)

-- The list `after` is `before` without the ids of the cancel.
abbrev pub Purged : Str → List Str → List Str → Type 0
Purged cancel before after =
    (names_cancel cancel after ≡ false)
    × ((id : Str)
        → any (str_eq id) after
          ≡ (any (str_eq id) before && not (is_id cancel (canonical_tx_id id))))

-- After the exclusion no list names the cancel's transaction, under whatever spelling, each list
-- has kept every other id, and the hit on the maker coin is the same.
pub excluding_cancel_tx_lem :
    (signals : CoinsetTxSignals) (raw cancel : Str)
    → canonical_tx_id raw ≡ some cancel
    → let after = excluding_cancel_tx signals (some raw) in
      Purged cancel signals.tx_ids after.tx_ids
      × Purged cancel signals.confirmed_tx_ids after.confirmed_tx_ids
      × Purged cancel signals.mempool_tx_ids after.mempool_tx_ids
      × (after.maker_hit ≡ signals.maker_hit)
unfolding excluding_cancel_tx
excluding_cancel_tx_lem signals raw cancel h =
    rw h
      (purged signals.tx_ids, purged signals.confirmed_tx_ids, purged signals.mempool_tx_ids, refl)
  where
    purged : (ids : List Str) → Purged cancel ids (drop_cancel cancel ids)
    purged ids = (
      drop_cancel-names cancel ids,
      λ id. any-kept ids id (λ id. not (is_id cancel (canonical_tx_id id))),
    )
