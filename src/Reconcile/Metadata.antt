-- ===== src/Reconcile/Metadata.antt =====
-- greenfloor-engine/src/cycle/reconcile/metadata.rs: the words of the audit.
use greenfloor.Common.Str.{Str, codes}

abbrev pub signal_source_none : Str
signal_source_none = codes "none"

abbrev pub signal_source_coinset_websocket : Str
signal_source_coinset_websocket = codes "coinset_websocket"

abbrev pub signal_source_coinset_mempool : Str
signal_source_coinset_mempool = codes "coinset_mempool"

abbrev pub signal_source_dexie_status_fallback : Str
signal_source_dexie_status_fallback = codes "dexie_status_fallback"

abbrev pub signal_source_dexie_get_offer_404 : Str
signal_source_dexie_get_offer_404 = codes "dexie_get_offer_404"

abbrev pub signal_source_cancel_tx_chain : Str
signal_source_cancel_tx_chain = codes "cancel_tx_chain"

abbrev pub reason_ok : Str
reason_ok = codes "ok"

abbrev pub reason_cancel_submit_stale_orphan : Str
reason_cancel_submit_stale_orphan = codes "cancel_submitted_stale_orphan"

abbrev pub reason_cancel_submit_context_missing : Str
reason_cancel_submit_context_missing = codes "cancel_submitted_context_missing"

abbrev pub reason_cancel_tx_chain_confirmed : Str
reason_cancel_tx_chain_confirmed = codes "cancel_tx_chain_confirmed"

abbrev pub reason_cancel_submit_watch_hit_ignored : Str
reason_cancel_submit_watch_hit_ignored = codes "cancel_submitted_watch_hit_ignored"

abbrev pub reason_cancel_submit_confirmed_maker_hit_ignored : Str
reason_cancel_submit_confirmed_maker_hit_ignored =
    codes "cancel_submitted_confirmed_maker_hit_ignored"

abbrev pub reason_cancel_submit_cancel_tx_mempool_ignored : Str
reason_cancel_submit_cancel_tx_mempool_ignored = codes "cancel_submitted_cancel_tx_mempool_ignored"

abbrev pub reason_missing_status : Str
reason_missing_status = codes "missing_status"

abbrev pub reason_coinset_unavailable : Str
reason_coinset_unavailable = codes "coinset_signal_unavailable_for_offer"

abbrev pub reason_coinset_confirmed : Str
reason_coinset_confirmed = codes "coinset_tx_block_websocket_confirmed"

abbrev pub reason_coinset_mempool : Str
reason_coinset_mempool = codes "coinset_mempool_observed"

abbrev pub reason_dexie_offer_not_found : Str
reason_dexie_offer_not_found = codes "dexie_offer_not_found"

abbrev pub reason_dexie_offer_not_found_preserved_terminal : Str
reason_dexie_offer_not_found_preserved_terminal = codes "dexie_offer_not_found_preserved_terminal"

abbrev pub taker_none : Str
taker_none = codes "none"

abbrev pub taker_coinset_tx_block_websocket : Str
taker_coinset_tx_block_websocket = codes "coinset_tx_block_websocket"

abbrev pub taker_diagnostic_coinset_confirmed : Str
taker_diagnostic_coinset_confirmed = codes "coinset_tx_block_confirmed"

abbrev pub taker_diagnostic_coinset_mempool : Str
taker_diagnostic_coinset_mempool = codes "coinset_mempool_observed"

abbrev pub taker_diagnostic_dexie_pattern_fallback : Str
taker_diagnostic_dexie_pattern_fallback = codes "dexie_status_pattern_fallback"

abbrev pub taker_diagnostic_cancel_tx_chain_confirmed : Str
taker_diagnostic_cancel_tx_chain_confirmed = codes "cancel_tx_chain_confirmed"
