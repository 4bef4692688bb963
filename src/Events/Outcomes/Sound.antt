-- ===== src/Events/Outcomes/Sound.antt =====
-- The handlers of payments and forwards keep the order of calls.
use browser_wallet.Prelude.{ℕ, ◌*◌, min, String, ◌&&◌, Option, none, some, arith}
use browser_wallet.Events.Reasons.{PaymentFailureReason}
use browser_wallet.Events.History.{Status, succeeded, failed}
use browser_wallet.Prelude.BigInt.{ℤ}
use browser_wallet.Events.Node.{
  claimed, claim_funds, on_payment_event, set_timeout, clear_timeout, capture_error, State, Config,
  Answers, or_text,
}
use browser_wallet.Events.Outcomes.{
  on_payment_claimable, on_payment_claimed, update_status, signed, failure_text, on_payment_sent,
  on_payment_failed, max_forward_delay_ms, on_pending_htlcs_forwardable,
}
use browser_wallet.Events.Sound.{IsSound, call-IsSound, call_if-IsSound, if-IsSound}

pub claimed-IsSound :
    (c : Config) (a : Answers) (hash : String) (amount : ℕ) (s : State)
    → IsSound c s
    → IsSound c (on_payment_claimed c a hash amount s)
unfolding on_payment_claimed
claimed-IsSound c a hash amount s h =
    call_if-IsSound c c.has_payment_event (on_payment_event (claimed hash amount)) _ tt
      (if-IsSound c a.put_ok _ _ (λ _. h) (λ _. call-IsSound c _ s tt h))

pub update_status-IsSound :
    (c : Config) (a : Answers) (message id : String) (status : Status) (fee : Option ℤ)
    (reason : Option String) (s : State)
    → IsSound c s
    → IsSound c (update_status a message id status fee reason s)
unfolding update_status
update_status-IsSound c a message id status fee reason s h =
    if-IsSound c (a.get_ok && a.put_ok) _ _ (λ _. h)
      (λ _. call-IsSound c (capture_error message) s tt h)

pub sent-IsSound :
    (c : Config) (a : Answers) (hash : String) (id : Option String) (preimage : String)
    (fee : Option ℕ) (s : State)
    → IsSound c s
    → IsSound c (on_payment_sent c a hash id preimage fee s)
unfolding on_payment_sent
sent-IsSound c a hash id preimage fee s h =
    call_if-IsSound c c.has_payment_event _ _ tt
      (update_status-IsSound c a _ (or_text hash id) succeeded (signed fee) none s h)

pub failed-IsSound :
    (c : Config) (a : Answers) (id : String) (reason : Option PaymentFailureReason) (s : State)
    → IsSound c s
    → IsSound c (on_payment_failed c a id reason s)
unfolding on_payment_failed
failed-IsSound c a id reason s h =
    call_if-IsSound c c.has_payment_event _ _ tt
      (update_status-IsSound c a _ id failed none (some (failure_text reason)) s h)

pub forwardable-IsSound :
    (c : Config) (time : ℕ) (s : State)
    → IsSound c s
    → IsSound c (on_pending_htlcs_forwardable time s)
unfolding on_pending_htlcs_forwardable
forwardable-IsSound c time s h =
    call_if-IsSound c s.forward_timer clear_timeout _ tt
      (call-IsSound c (set_timeout (min (time * 1_000) max_forward_delay_ms)) s (omega arith) h)

pub claimable-IsSound :
    (c : Config) (preimage : Option String) (s : State)
    → IsSound c s
    → IsSound c (on_payment_claimable preimage s)
claimable-IsSound c none s h = h
claimable-IsSound c (some p) s h = call-IsSound c (claim_funds p) s tt h
