-- ===== src/Events/Reasons.antt =====
-- The reasons that LDK's events carry, and what src/ldk/traits/event-handler.ts makes of them.
use browser_wallet.Prelude.{String, Bool, true, false}

pub data ClosureReason : Type 0 where
  counterparty_force_closed holder_force_closed legacy_cooperative_closure : ClosureReason
  counterparty_initiated_cooperative_closure locally_initiated_cooperative_closure : ClosureReason
  commitment_tx_confirmed funding_timed_out processing_error disconnected_peer : ClosureReason
  outdated_channel_manager counterparty_coop_closed_unfunded_channel : ClosureReason
  funding_batch_closure htlcs_timed_out peer_feerate_too_low other_closure : ClosureReason

-- `isForceClose`
pub is_force_close : ClosureReason → Bool
is_force_close counterparty_force_closed = true
is_force_close commitment_tx_confirmed = true
is_force_close holder_force_closed = true
is_force_close htlcs_timed_out = true
is_force_close _ = false

-- `describeClosureReason`
pub describe_closure_reason : ClosureReason → String
describe_closure_reason counterparty_force_closed = "Counterparty force closed"
describe_closure_reason holder_force_closed = "Force closed by you"
describe_closure_reason legacy_cooperative_closure = "Cooperative close"
describe_closure_reason counterparty_initiated_cooperative_closure =
    "Cooperative close (initiated by peer)"
describe_closure_reason locally_initiated_cooperative_closure = "Cooperative close"
describe_closure_reason commitment_tx_confirmed = "Commitment transaction confirmed"
describe_closure_reason funding_timed_out = "Funding timed out"
describe_closure_reason processing_error = "Processing error"
describe_closure_reason disconnected_peer = "Peer disconnected"
describe_closure_reason outdated_channel_manager = "Outdated channel manager"
describe_closure_reason counterparty_coop_closed_unfunded_channel =
    "Counterparty closed unfunded channel"
describe_closure_reason funding_batch_closure = "Funding batch closure"
describe_closure_reason htlcs_timed_out = "HTLCs timed out"
describe_closure_reason peer_feerate_too_low = "Peer feerate too low"
describe_closure_reason other_closure = "Channel closed"

pub data PaymentFailureReason : Type 0 where
  recipient_rejected user_abandoned retries_exhausted payment_expired : PaymentFailureReason
  route_not_found unexpected_error unknown_required_features : PaymentFailureReason
  invoice_request_expired invoice_request_rejected other_failure : PaymentFailureReason

-- `describePaymentFailure`
pub describe_payment_failure : PaymentFailureReason → String
describe_payment_failure recipient_rejected = "Payment was rejected by the recipient"
describe_payment_failure user_abandoned = "Payment was cancelled"
describe_payment_failure retries_exhausted = "No route found after multiple attempts"
describe_payment_failure payment_expired = "Payment expired"
describe_payment_failure route_not_found = "No route found to the recipient"
describe_payment_failure unexpected_error = "An unexpected error occurred"
describe_payment_failure unknown_required_features = "Recipient requires unsupported features"
describe_payment_failure invoice_request_expired =
    "Invoice request timed out — recipient may be offline"
describe_payment_failure invoice_request_rejected = "Invoice request was rejected by the recipient"
describe_payment_failure other_failure = "Payment failed"
