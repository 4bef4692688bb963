-- ===== src/Events/Handler/Funding.antt =====
-- The order of the event handler's calls (src/ldk/traits/event-handler.ts), over every run.
use browser_wallet.Prelude.{List, [], ◌∷◌}
use browser_wallet.Prelude.Map
use browser_wallet.Prelude.Map.{Map, get-set, get-delete}
use browser_wallet.Events.Sockets.{parse_first_socket_address}
use browser_wallet.Events.Node.{
  Event, payment_claimable, payment_claimed, payment_sent, payment_failed,
  pending_htlcs_forwardable, channel_pending, channel_ready, channel_closed, spendable_outputs,
  connection_needed, funding_generation_ready, funding_tx_broadcast_safe, bump_transaction,
  discard_funding, payment_path_event, open_channel_request, htlc_handling_failed, unhandled_event,
  clear_timeout, process_pending_htlc_forwards, capture_error, State, init, Config, Answers,
}
use browser_wallet.Events.Handler.{handle_event, Step, receives, fires, cleans_up, step, run}
use browser_wallet.Events.Sound.{
  IsSafe, AreStored, IsSound, call-IsSound, call_if-IsSound, if-IsSound,
}
use browser_wallet.Events.Outcomes.Sound.{
  claimable-IsSound, claimed-IsSound, sent-IsSound, failed-IsSound, forwardable-IsSound,
}
use browser_wallet.Events.Channels.Sound.{
  bump-IsSound, closed-IsSound, funding-IsSound, safe_to_broadcast-IsSound, discard-IsSound,
  open-IsSound, spendable-IsSound, pending-IsSound, needed-IsSound,
}
use browser_wallet.Events.Channels.{read}

handle_event-IsSound :
    (c : Config) (a : Answers) (e : Event) (s : State)
    → IsSound c s
    → IsSound c (handle_event c a e s)
unfolding handle_event
handle_event-IsSound c a (payment_claimable preimage) s h = claimable-IsSound c preimage s h
handle_event-IsSound c a (payment_claimed hash amount) s h = claimed-IsSound c a hash amount s h
handle_event-IsSound c a (payment_sent hash id preimage fee) s h =
    sent-IsSound c a hash id preimage fee s h
handle_event-IsSound c a (payment_failed id reason) s h = failed-IsSound c a id reason s h
handle_event-IsSound c a (pending_htlcs_forwardable time) s h = forwardable-IsSound c time s h
handle_event-IsSound c a (channel_pending id temp_id) s h = pending-IsSound c a id temp_id s h
handle_event-IsSound c a channel_ready s h = h
handle_event-IsSound c a (channel_closed id reason balance capacity peer) s h =
    closed-IsSound c a id reason balance capacity peer s h
handle_event-IsSound c a (spendable_outputs outputs) s h = spendable-IsSound c a outputs s h
handle_event-IsSound c a (connection_needed id addresses) s h =
    needed-IsSound c id (parse_first_socket_address addresses) s h
handle_event-IsSound c a (funding_generation_ready temp_id peer) s h =
    funding-IsSound c a temp_id a.built s h
handle_event-IsSound c a (funding_tx_broadcast_safe temp_id) s h =
    if-IsSound c a.get_ok _ _ (λ _. safe_to_broadcast-IsSound c a temp_id s h)
      (λ _. call-IsSound c (capture_error "FundingTxBroadcastSafe: broadcast failed") s tt h)
handle_event-IsSound c a (bump_transaction id) s h = bump-IsSound c a id s h
handle_event-IsSound c a (discard_funding id) s h =
    discard-IsSound c a id (read a id s.channel_id_map) s h
handle_event-IsSound c a payment_path_event s h = h
handle_event-IsSound c a (open_channel_request temp_id peer) s h = open-IsSound c a temp_id peer s h
handle_event-IsSound c a htlc_handling_failed s h =
    call-IsSound c (capture_error "HTLCHandlingFailed") s tt h
handle_event-IsSound c a unhandled_event s h = h

run-IsSound : (c : Config) (xs : List Step) (s : State) → IsSound c s → IsSound c (run c xs s)
unfolding run step
run-IsSound c [] s h = h
run-IsSound c (receives a e ∷ xs) s h = run-IsSound c xs _ (handle_event-IsSound c a e s h)
run-IsSound c (fires ∷ xs) s h =
    run-IsSound c xs _ (call-IsSound c process_pending_htlc_forwards s tt h)
run-IsSound c (cleans_up ∷ xs) s h =
    run-IsSound c xs _ (call_if-IsSound c s.forward_timer clear_timeout s tt h)

empty-AreStored : AreStored init
unfolding Map.get
empty-AreStored temp_id tx e = cc

-- Over every run of events, timers and clean-ups, with any answers of the stores, LDK and BDK: a funding
-- transaction is given to LDK only after that transaction was stored under that channel, only a funding
-- transaction that was stored is broadcast, a channel is accepted without confirmations only from the
-- configured LSP, which is not the empty text, and no timer for forwards is set to more than ten seconds
-- (this bounds each timer, and not the time for which a forward waits).
pub run-IsSafe : (c : Config) (xs : List Step) → IsSafe c (run c xs init).calls
run-IsSafe c xs = (run-IsSound c xs init (tt, empty-AreStored)).0
