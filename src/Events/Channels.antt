-- ===== src/Events/Channels.antt =====
-- The events about channels of `handleEvent`, src/ldk/traits/event-handler.ts.
pub mod Sound
use browser_wallet.Prelude.{
  ℕ, ◌+◌, ◌*◌, ◌/◌, min, String, Bool, true, false, not, ◌&&◌, Option, none, some, List, [], ◌∷◌,
  if◌then◌else◌, str_eq,
}
use browser_wallet.Prelude.Map
use browser_wallet.Prelude.Map.{Map}
use browser_wallet.Events.Reasons.{ClosureReason, is_force_close}
use browser_wallet.Events.Sockets.{SocketAddress, parse_first_socket_address}
use browser_wallet.Events.Node.{
  Event, payment_claimable, payment_claimed, payment_sent, payment_failed,
  pending_htlcs_forwardable, channel_pending, channel_ready, channel_closed, spendable_outputs,
  connection_needed, funding_generation_ready, funding_tx_broadcast_safe, bump_transaction,
  discard_funding, payment_path_event, open_channel_request, htlc_handling_failed, unhandled_event,
  PaymentEvent, sent, failed_payment, claimed, Call, claim_funds, on_payment_event, set_timeout,
  clear_timeout, process_pending_htlc_forwards, on_channel_closed, on_sync_needed,
  sweep_spendable_outputs, on_connection_needed, stores_funding_tx, funding_transaction_generated,
  broadcast_with_retry, on_recovery_needed, bump_handle_event, accept_inbound_channel_0conf,
  capture_error, ForceCloseInfo, State, init, Config, Answers, call, call_if, truthy, or_text,
}

pub on_channel_pending : Answers → String → String → State → State
on_channel_pending a channel_id temp_id s =
    if a.put_ok
    then record s { channel_id_map = Map.set channel_id temp_id s.channel_id_map }
    else s

abbrev pub local_balance : Option ℕ → Option ℕ → ℕ
local_balance (some msat) _ = msat / 1_000
local_balance none (some capacity) = capacity
local_balance none none = 0

pub has_peer : String → List String → Bool
has_peer peer [] = false
has_peer peer (p ∷ ps) = let rest = has_peer peer ps in if str_eq p peer then true else rest

pub on_channel_closed_event :
    Config → Answers → String → ClosureReason → Option ℕ → Option ℕ → String → State → State
on_channel_closed_event c a channel_id reason balance capacity peer s =
    let info : ForceCloseInfo = record {
      channel_id = channel_id;
      local_balance_sat = local_balance balance capacity;
    } in
    let noted : State =
      if is_force_close reason
      then record s { force_close_info = Map.set channel_id info s.force_close_info }
      else s in
    let told =
      call_if (not (has_peer peer a.channel_peers) && c.has_channel_closed) (on_channel_closed peer)
        noted in
    let synced = call_if c.has_sync_needed on_sync_needed told in
    if a.delete_ok
    then record synced { channel_id_map = Map.delete channel_id s.channel_id_map }
    else synced

pub on_spendable_outputs : Answers → List String → State → State
on_spendable_outputs a outputs s =
    if a.put_ok
    then call_if (not a.sweep_ok) (capture_error "Failed to persist/sweep outputs")
        (call sweep_spendable_outputs (record s { spendable = Map.set a.uuid outputs s.spendable }))
    else call (capture_error "Failed to persist/sweep outputs") s

-- What `parseFirstSocketAddress` made of the addresses is passed on.
abbrev pub on_connection_needed_event : Config → String → Option (List ℕ × ℕ) → State → State
on_connection_needed_event c node_id none s = s
on_connection_needed_event c node_id (some (host, port)) s =
    call_if c.has_connection_needed (on_connection_needed node_id host port) s

-- The transaction is built, stored, and only then given to LDK.
pub on_funding_built : Answers → String → Option String → State → State
on_funding_built a temp_id none s =
    call (capture_error "FundingGenerationReady: failed to build funding tx") s
on_funding_built a temp_id (some tx) s =
    if not a.put_ok
    then call (capture_error "Failed to persist funding tx — aborting channel") s
    else (let stored =
          call (stores_funding_tx temp_id tx)
            (record s { funding_txs = Map.set temp_id tx s.funding_txs }) in
        let told = call (funding_transaction_generated temp_id tx) stored in
        if not a.funding_ok
        then call (capture_error "FundingGenerationReady: funding_transaction_generated failed")
            told
        else call_if (not a.changeset_ok)
            (capture_error "Failed to persist changeset after funding tx") told)

-- `broadcastPersistedFundingTx`
pub on_broadcast_safe : Answers → String → Option String → State → State
on_broadcast_safe a temp_id none s = s
on_broadcast_safe a temp_id (some tx) s =
    let tried = call (broadcast_with_retry tx) s in
    if not a.broadcast_ok
    then call (capture_error "FundingTxBroadcastSafe: broadcast failed") tried
    else if a.delete_ok
    then record tried { funding_txs = Map.delete temp_id s.funding_txs }
    else tried

-- `onRecoveryNeeded`, where there is one and the force close is on record.
abbrev pub recovery : Config → Option ForceCloseInfo → String → State → State
recovery c none reason s = s
recovery c (some info) reason s =
    call_if c.has_recovery_needed (on_recovery_needed info.channel_id info.local_balance_sat reason)
      s

abbrev pub known_info : Option String → Map ForceCloseInfo → Option ForceCloseInfo
known_info none infos = none
known_info (some id) infos = Map.get id infos

pub has_true : List Bool → Bool
has_true [] = false
has_true (true ∷ bs) = true
has_true (false ∷ bs) = has_true bs

abbrev pub has_confirmed_utxo : Option (List Bool) → Bool
has_confirmed_utxo none = false
has_confirmed_utxo (some bs) = has_true bs

abbrev pub after_bump : Config → Option ForceCloseInfo → Option String → State → State
after_bump c info none s = s
after_bump c info (some error) s =
    recovery c info error (call (capture_error "CPFP handling failed") s)

abbrev pub no_utxo_reason : String
no_utxo_reason =
    "No confirmed on-chain UTXOs available for CPFP fee bump — deposit funds to complete force-close recovery"

pub on_bump_transaction : Config → Answers → Option String → State → State
on_bump_transaction c a channel_id s =
    let info = known_info (truthy channel_id) s.force_close_info in
    if c.has_bump_handler
    then (let warned =
          if has_confirmed_utxo a.unspent then s else recovery c info no_utxo_reason s in
        after_bump c info a.bump_error (call (bump_handle_event channel_id) warned))
    else recovery c info "No BumpTransactionEventHandler configured"
        (call (capture_error "No handler configured — force-close tx may be stuck") s)

abbrev pub discard : Answers → String → Option String → State → State
discard a channel_id none s = s
discard a channel_id (some temp_id) s =
    if not a.delete_ok
    then s
    else if a.delete_again_ok
    then record s {
      funding_txs = Map.delete temp_id s.funding_txs;
      channel_id_map = Map.delete channel_id s.channel_id_map;
    }
    else record s { funding_txs = Map.delete temp_id s.funding_txs }

-- The value that `idbGet` finds under a key, where it does.
abbrev pub read : Answers → String → Map String → Option String
read a key store = if a.get_ok then truthy (Map.get key store) else none

-- `randomBytes.reduce((acc, byte) => (acc << 8n) | BigInt(byte), 0n)`
pub user_channel_id : ℕ → List ℕ → ℕ
user_channel_id acc [] = acc
user_channel_id acc (b ∷ bs) = user_channel_id (acc * 256 + b) bs

pub on_open_channel_request : Config → Answers → String → String → State → State
on_open_channel_request c a temp_id counterparty s =
    if str_eq counterparty c.lsp_node_id && not (str_eq c.lsp_node_id "")
    then call_if (not a.accept_ok)
        (capture_error "OpenChannelRequest: failed to accept 0-conf from LSP")
        (call (accept_inbound_channel_0conf temp_id counterparty (user_channel_id 0 a.random_bytes))
          s)
    else s
