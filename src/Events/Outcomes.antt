-- ===== src/Events/Outcomes.antt =====
-- The events about payments and forwards of `handleEvent`, src/ldk/traits/event-handler.ts.
pub mod Sound
use browser_wallet.Prelude.{
  ℕ, ◌+◌, ◌*◌, ◌/◌, min, String, Bool, true, false, not, ◌&&◌, Option, none, some, List, [], ◌∷◌,
  if◌then◌else◌, str_eq,
}
use browser_wallet.Prelude.Map
use browser_wallet.Prelude.Map.{Map}
use browser_wallet.Prelude.BigInt.{ℤ, pos}
use browser_wallet.Events.Reasons.{PaymentFailureReason, describe_payment_failure}
use browser_wallet.Events.History.{
  SerializedPayment, Status, inbound, succeeded, failed, persist_payment, update_payment_status,
}
use browser_wallet.Events.Node.{
  Event, payment_claimable, payment_claimed, payment_sent, payment_failed,
  pending_htlcs_forwardable, channel_pending, channel_ready, channel_closed, spendable_outputs,
  connection_needed, funding_generation_ready, funding_tx_broadcast_safe, bump_transaction,
  discard_funding, payment_path_event, open_channel_request, htlc_handling_failed, unhandled_event,
  PaymentEvent, sent, failed_payment, claimed, Call, claim_funds, on_payment_event, set_timeout,
  clear_timeout, process_pending_htlc_forwards, on_channel_closed, on_sync_needed,
  sweep_spendable_outputs, on_connection_needed, stores_funding_tx, funding_transaction_generated,
  broadcast_with_retry, on_recovery_needed, bump_handle_event, accept_inbound_channel_0conf,
  capture_error, ForceCloseInfo, State, init, Config, Answers, call, call_if, truthy, or_text,
}

abbrev pub signed : Option ℕ → Option ℤ
signed none = none
signed (some n) = some (pos n)

abbrev pub on_payment_claimable : Option String → State → State
on_payment_claimable none s = s
on_payment_claimable (some preimage) s = call (claim_funds preimage) s

pub on_payment_claimed : Config → Answers → String → ℕ → State → State
on_payment_claimed c a hash amount s =
    let stored =
      persist_payment
        (record {
          payment_hash = hash;
          direction = inbound;
          amount_msat = pos amount;
          status = succeeded;
          fee_paid_msat = none;
          created_at = a.now;
          failure_reason = none;
        })
        s.history in
    let s' : State =
      if a.put_ok
      then record s { history = stored }
      else call (capture_error "Failed to persist inbound payment") s in
    call_if c.has_payment_event (on_payment_event (claimed hash amount)) s'

-- `updatePaymentStatus` reads the entry and writes it back.
pub update_status : Answers → String → String → Status → Option ℤ → Option String → State → State
update_status a message id status fee reason s =
    if a.get_ok && a.put_ok
    then record s { history = update_payment_status id status fee reason s.history }
    else call (capture_error message) s

pub on_payment_sent : Config → Answers → String → Option String → String → Option ℕ → State → State
on_payment_sent c a hash payment_id preimage fee s =
    let id = or_text hash payment_id in
    call_if c.has_payment_event (on_payment_event (sent id preimage fee))
      (update_status a "Failed to update outbound payment status" id succeeded (signed fee) none s)

abbrev pub failure_text : Option PaymentFailureReason → String
failure_text none = "Payment failed"
failure_text (some r) = describe_payment_failure r

pub on_payment_failed : Config → Answers → String → Option PaymentFailureReason → State → State
on_payment_failed c a id reason s =
    let text = failure_text reason in
    call_if c.has_payment_event (on_payment_event (failed_payment id text))
      (update_status a "Failed to update failed payment status" id failed none (some text) s)

abbrev pub max_forward_delay_ms : ℕ
max_forward_delay_ms = 10_000

-- `setForwardTimer` behind a new timer.
pub on_pending_htlcs_forwardable : ℕ → State → State
on_pending_htlcs_forwardable time_forwardable s =
    let armed = call (set_timeout (min (time_forwardable * 1_000) max_forward_delay_ms)) s in
    record (call_if s.forward_timer clear_timeout armed) { forward_timer = true }
