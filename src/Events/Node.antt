-- ===== src/Events/Node.antt =====
-- The handler of src/ldk/traits/event-handler.ts from outside: the events, the calls it makes, what it
-- keeps. Identifiers, keys and transactions are their hexadecimal texts. `Answers` holds what the
-- stores, LDK, BDK and the clock answer while one event is handled; the asynchronous part of a handler
-- runs to its end before the next event. `calls` are the calls made, the newest first; what is only
-- logged is left out.
use browser_wallet.Prelude.{
  ℕ, String, Bool, false, Option, none, some, List, [], ◌∷◌, if◌then◌else◌, str_eq,
}
use browser_wallet.Prelude.Map.{Map}
use browser_wallet.Events.Reasons.{ClosureReason, PaymentFailureReason}
use browser_wallet.Events.Sockets.{SocketAddress}
use browser_wallet.Events.History.{SerializedPayment}

pub data Event : Type 0 where
  payment_claimable : Option String → Event
  payment_claimed : String → ℕ → Event
  payment_sent : String → Option String → String → Option ℕ → Event
  payment_failed : String → Option PaymentFailureReason → Event
  pending_htlcs_forwardable : ℕ → Event
  channel_pending : String → String → Event
  channel_ready : Event
  channel_closed : String → ClosureReason → Option ℕ → Option ℕ → String → Event
  spendable_outputs : List String → Event
  connection_needed : String → List SocketAddress → Event
  funding_generation_ready : String → String → Event
  funding_tx_broadcast_safe : String → Event
  bump_transaction : Option String → Event
  discard_funding : String → Event
  payment_path_event : Event
  open_channel_request : String → String → Event
  htlc_handling_failed : Event
  unhandled_event : Event

pub data PaymentEvent : Type 0 where
  sent : String → String → Option ℕ → PaymentEvent
  failed_payment : String → String → PaymentEvent
  claimed : String → ℕ → PaymentEvent

pub data Call : Type 0 where
  claim_funds : String → Call
  on_payment_event : PaymentEvent → Call
  set_timeout : ℕ → Call
  clear_timeout process_pending_htlc_forwards : Call
  on_channel_closed : String → Call
  on_sync_needed sweep_spendable_outputs : Call
  on_connection_needed : String → List ℕ → ℕ → Call
  stores_funding_tx funding_transaction_generated : String → String → Call
  broadcast_with_retry : String → Call
  on_recovery_needed : String → ℕ → String → Call
  bump_handle_event : Option String → Call
  accept_inbound_channel_0conf : String → String → ℕ → Call
  capture_error : String → Call

pub record ForceCloseInfo : Type 0 where
  pub channel_id : String
  pub local_balance_sat : ℕ

pub record State : Type 0 where
  pub forward_timer : Bool
  pub force_close_info : Map ForceCloseInfo
  pub channel_id_map : Map String
  pub funding_txs : Map String
  pub spendable : Map (List String)
  pub history : Map SerializedPayment
  pub calls : List Call

abbrev pub init : State
init = record {
  forward_timer = false;
  force_close_info = [];
  channel_id_map = [];
  funding_txs = [];
  spendable = [];
  history = [];
  calls = [];
}

-- The arguments of `createEventHandler`: the LSP, and which of the optional ones are there.
pub record Config : Type 0 where
  pub lsp_node_id : String
  pub has_payment_event : Bool
  pub has_channel_closed : Bool
  pub has_sync_needed : Bool
  pub has_connection_needed : Bool
  pub has_recovery_needed : Bool
  pub has_bump_handler : Bool

-- `put`, `get`, `delete`: whether IndexedDB carries out the call. `built`: the signed transaction,
-- where BDK builds one. `unspent`: for each unspent output whether it is confirmed, if BDK lists them.
pub record Answers : Type 0 where
  pub put_ok : Bool
  pub get_ok : Bool
  pub delete_ok : Bool
  pub delete_again_ok : Bool
  pub now : ℕ
  pub uuid : String
  pub random_bytes : List ℕ
  pub channel_peers : List String
  pub built : Option String
  pub funding_ok : Bool
  pub changeset_ok : Bool
  pub accept_ok : Bool
  pub broadcast_ok : Bool
  pub sweep_ok : Bool
  pub unspent : Option (List Bool)
  pub bump_error : Option String

abbrev pub call : Call → State → State
call c s = record s { calls = c ∷ s.calls }

abbrev pub call_if : Bool → Call → State → State
call_if b c s = if b then call c s else s

-- A text that is there and not empty.
abbrev pub truthy : Option String → Option String
truthy none = none
truthy (some t) = if str_eq t "" then none else some t

abbrev pub or_text : String → Option String → String
or_text t none = t
or_text _ (some t) = t
