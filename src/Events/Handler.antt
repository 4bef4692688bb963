-- ===== src/Events/Handler.antt =====
-- `handleEvent` and `createEventHandler` of src/ldk/traits/event-handler.ts: which function handles
-- which event, and what can happen to the handler.
pub mod Funding
mod Tests
use browser_wallet.Prelude.{
  ℕ, ◌+◌, ◌*◌, ◌/◌, min, String, Bool, true, false, not, ◌&&◌, Option, none, some, List, [], ◌∷◌,
  if◌then◌else◌, str_eq,
}
use browser_wallet.Prelude.Map
use browser_wallet.Prelude.Map.{Map}
use browser_wallet.Events.Sockets.{parse_first_socket_address}
use browser_wallet.Events.Node.{
  Event, payment_claimable, payment_claimed, payment_sent, payment_failed,
  pending_htlcs_forwardable, channel_pending, channel_ready, channel_closed, spendable_outputs,
  connection_needed, funding_generation_ready, funding_tx_broadcast_safe, bump_transaction,
  discard_funding, payment_path_event, open_channel_request, htlc_handling_failed, unhandled_event,
  PaymentEvent, sent, failed_payment, claimed, Call, claim_funds, on_payment_event, set_timeout,
  clear_timeout, process_pending_htlc_forwards, on_channel_closed, on_sync_needed,
  sweep_spendable_outputs, on_connection_needed, stores_funding_tx, funding_transaction_generated,
  broadcast_with_retry, on_recovery_needed, bump_handle_event, accept_inbound_channel_0conf,
  capture_error, ForceCloseInfo, State, init, Config, Answers, call, call_if, truthy, or_text,
}
use browser_wallet.Events.Outcomes.{
  signed, on_payment_claimable, on_payment_claimed, update_status, on_payment_sent, failure_text,
  on_payment_failed, max_forward_delay_ms, on_pending_htlcs_forwardable,
}
use browser_wallet.Events.Channels.{
  on_channel_pending, local_balance, has_peer, on_channel_closed_event, on_spendable_outputs,
  on_connection_needed_event, on_funding_built, on_broadcast_safe, recovery, known_info, has_true,
  has_confirmed_utxo, after_bump, no_utxo_reason, on_bump_transaction, discard, read,
  user_channel_id, on_open_channel_request,
}

pub handle_event : Config → Answers → Event → State → State
handle_event c a (payment_claimable preimage) s = on_payment_claimable preimage s
handle_event c a (payment_claimed hash amount) s = on_payment_claimed c a hash amount s
handle_event c a (payment_sent hash id preimage fee) s = on_payment_sent c a hash id preimage fee s
handle_event c a (payment_failed id reason) s = on_payment_failed c a id reason s
handle_event c a (pending_htlcs_forwardable time) s = on_pending_htlcs_forwardable time s
handle_event c a (channel_pending id temp_id) s = on_channel_pending a id temp_id s
handle_event c a channel_ready s = s
handle_event c a (channel_closed id reason balance capacity peer) s =
    on_channel_closed_event c a id reason balance capacity peer s
handle_event c a (spendable_outputs outputs) s = on_spendable_outputs a outputs s
handle_event c a (connection_needed id addresses) s =
    on_connection_needed_event c id (parse_first_socket_address addresses) s
handle_event c a (funding_generation_ready temp_id peer) s = on_funding_built a temp_id a.built s
handle_event c a (funding_tx_broadcast_safe temp_id) s =
    if a.get_ok
    then on_broadcast_safe a temp_id (truthy (Map.get temp_id s.funding_txs)) s
    else call (capture_error "FundingTxBroadcastSafe: broadcast failed") s
handle_event c a (bump_transaction id) s = on_bump_transaction c a id s
handle_event c a (discard_funding id) s = discard a id (read a id s.channel_id_map) s
handle_event c a payment_path_event s = s
handle_event c a (open_channel_request temp_id peer) s = on_open_channel_request c a temp_id peer s
handle_event c a htlc_handling_failed s = call (capture_error "HTLCHandlingFailed") s
handle_event c a unhandled_event s = s

-- What can happen to the handler: an event, the timer, `cleanup`.
pub data Step : Type 0 where
  receives : Answers → Event → Step
  fires cleans_up : Step

pub step : Config → Step → State → State
step c (receives a e) s = handle_event c a e s
step c fires s = call process_pending_htlc_forwards s
step c cleans_up s = record (call_if s.forward_timer clear_timeout s) { forward_timer = false }

pub run : Config → List Step → State → State
run c [] s = s
run c (x ∷ xs) s = run c xs (step c x s)
