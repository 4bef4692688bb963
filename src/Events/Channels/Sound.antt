-- ===== src/Events/Channels/Sound.antt =====
-- The handlers of channel events keep the order of calls.
use browser_wallet.Prelude.{
  ℕ, String, ◌≡◌, refl, not, ◌&&◌, inl, inr, Option, none, some, List, ◌∷◌, arith, eq_iff,
  if◌then◌else◌, str_eq, Bool-cases, Option-cases,
}
use browser_wallet.Prelude.Map
use browser_wallet.Prelude.Map.{Map, get-set, get-delete}
use browser_wallet.Events.Reasons.{ClosureReason, is_force_close}
use browser_wallet.Events.Node.{
  on_channel_closed, on_sync_needed, sweep_spendable_outputs, stores_funding_tx,
  funding_transaction_generated, broadcast_with_retry, bump_handle_event, capture_error,
  ForceCloseInfo, State, Config, Answers, call, call_if, truthy,
}
use browser_wallet.Events.Channels.{
  on_channel_pending, on_channel_closed_event, on_spendable_outputs, on_connection_needed_event,
  on_funding_built, on_broadcast_safe, recovery, local_balance, has_peer, known_info,
  has_confirmed_utxo, after_bump, on_bump_transaction, discard, on_open_channel_request,
}
use browser_wallet.Events.Sound.{
  Made, IsSound, call-IsSound, call_if-IsSound, if-IsSound, forget-AreStored,
}

pub recovery-IsSound :
    (c : Config) (info : Option ForceCloseInfo) (reason : String) (s : State)
    → IsSound c s
    → IsSound c (recovery c info reason s)
recovery-IsSound c none reason s h = h
recovery-IsSound c (some info) reason s h = call_if-IsSound c c.has_recovery_needed _ s tt h

after-IsSound :
    (c : Config) (id : Option String) (info : Option ForceCloseInfo) (error : Option String)
    (s : State)
    → IsSound c s
    → IsSound c (after_bump c info error (call (bump_handle_event id) s))
after-IsSound c id info none s h = call-IsSound c (bump_handle_event id) s tt h
after-IsSound c id info (some e) s h = recovery-IsSound c info e failed_bump (
    call-IsSound c (capture_error "CPFP handling failed") bumped tt
      (call-IsSound c (bump_handle_event id) s tt h))
  where
    bumped : State
    bumped = call (bump_handle_event id) s

    failed_bump : State
    failed_bump = call (capture_error "CPFP handling failed") bumped

pub bump-IsSound :
    (c : Config) (a : Answers) (id : Option String) (s : State)
    → IsSound c s
    → IsSound c (on_bump_transaction c a id s)
unfolding on_bump_transaction
bump-IsSound c a id s h =
    if-IsSound c c.has_bump_handler _ _
      (λ _. after-IsSound c id info a.bump_error _ (
        if-IsSound c (has_confirmed_utxo a.unspent) _ _ (λ _. h)
          (λ _. recovery-IsSound c info _ s h)))
      (λ _. recovery-IsSound c info _ _ (
        call-IsSound c (capture_error "No handler configured — force-close tx may be stuck") s tt
          h))
  where
    info : Option ForceCloseInfo
    info = known_info (truthy id) s.force_close_info

pub closed-IsSound :
    (c : Config) (a : Answers) (id : String) (reason : ClosureReason) (balance capacity : Option ℕ)
    (peer : String) (s : State)
    → IsSound c s
    → IsSound c (on_channel_closed_event c a id reason balance capacity peer s)
unfolding on_channel_closed_event
closed-IsSound c a id reason balance capacity peer s h =
    if-IsSound c a.delete_ok _ _ (λ _. synced) (λ _. synced)
  where
    synced : IsSound c (
        call_if c.has_sync_needed on_sync_needed (
          call_if
            (not (has_peer peer a.channel_peers) && c.has_channel_closed)
            (on_channel_closed peer)
            (if is_force_close reason
              then record s {
                force_close_info =
                    Map.set id
                      (record {
                        channel_id = id;
                        local_balance_sat = local_balance balance capacity;
                      })
                      s.force_close_info;
              }
              else s)))
    synced = call_if-IsSound c c.has_sync_needed on_sync_needed _ tt (
        call_if-IsSound c (not (has_peer peer a.channel_peers) && c.has_channel_closed)
          (on_channel_closed peer) _ tt
          (if-IsSound c (is_force_close reason) _ _ (λ _. h) (λ _. h)))

pub funding-IsSound :
    (c : Config) (a : Answers) (temp_id : String) (built : Option String) (s : State)
    → IsSound c s
    → IsSound c (on_funding_built a temp_id built s)
unfolding on_funding_built
funding-IsSound c a temp_id none s h = call-IsSound c _ s tt h
funding-IsSound c a temp_id (some tx) s h =
    if-IsSound c (not a.put_ok) _ _ (λ _. call-IsSound c _ s tt h)
      (λ _.
        if-IsSound c (not a.funding_ok) _ _ (λ _. call-IsSound c _ told tt told-IsSound)
          (λ _. call_if-IsSound c (not a.changeset_ok) _ told tt told-IsSound))
  where
    stored : State
    stored =
        call (stores_funding_tx temp_id tx)
          (record s { funding_txs = Map.set temp_id tx s.funding_txs })

    told : State
    told = call (funding_transaction_generated temp_id tx) stored

    put :
        (t x : String)
        → Map.get t (Map.set temp_id tx s.funding_txs) ≡ some x
        → Made (stores_funding_tx t x) (stores_funding_tx temp_id tx ∷ s.calls)
    put t x e = elim (Bool-cases (str_eq temp_id t)) [
      | inl p ↦ inl (
          let same : temp_id ≡ t = ground (arith, eq_iff temp_id t) in
          let new : tx ≡ x = ground (arith, get-set temp_id t tx s.funding_txs) in cc)
      | inr p ↦ inr (h.1 t x (ground (arith, get-set temp_id t tx s.funding_txs)))
    ]

    told-IsSound : IsSound c told
    told-IsSound = call-IsSound c _ stored (inl refl) ((tt, h.0), put)

broadcast_tx-IsSound :
    (c : Config) (a : Answers) (temp_id tx : String) (s : State)
    → Map.get temp_id s.funding_txs ≡ some tx
    → IsSound c s
    → IsSound c (on_broadcast_safe a temp_id (some tx) s)
unfolding on_broadcast_safe
broadcast_tx-IsSound c a temp_id tx s e h =
    if-IsSound c (not a.broadcast_ok) _ _ (λ _. call-IsSound c _ tried tt tried-IsSound)
      (λ _.
        if-IsSound c a.delete_ok _ tried
          (λ _. (tried-IsSound.0, forget-AreStored temp_id tried tried-IsSound.1))
          (λ _. tried-IsSound))
  where
    tried : State
    tried = call (broadcast_with_retry tx) s

    tried-IsSound : IsSound c tried
    tried-IsSound = call-IsSound c (broadcast_with_retry tx) s (temp_id, h.1 temp_id tx e) h

truthy-some : (o : Option String) (t : String) → truthy o ≡ some t → o ≡ some t
truthy-some none t e = e
truthy-some (some x) t e = ground arith

pub safe_to_broadcast-IsSound :
    (c : Config) (a : Answers) (temp_id : String) (s : State)
    → IsSound c s
    → IsSound c (on_broadcast_safe a temp_id (truthy (Map.get temp_id s.funding_txs)) s)
unfolding on_broadcast_safe
safe_to_broadcast-IsSound c a temp_id s h =
    elim (Option-cases (truthy (Map.get temp_id s.funding_txs))) [
      | inl e ↦ rw e h
      | inr (tx, e) ↦ rw e (
          broadcast_tx-IsSound c a temp_id tx s (truthy-some (Map.get temp_id s.funding_txs) tx e)
            h)
    ]

pub discard-IsSound :
    (c : Config) (a : Answers) (id : String) (temp_id : Option String) (s : State)
    → IsSound c s
    → IsSound c (discard a id temp_id s)
discard-IsSound c a id none s h = h
discard-IsSound c a id (some temp_id) s h =
    if-IsSound c (not a.delete_ok) s _ (λ _. h)
      (λ _.
        if-IsSound c a.delete_again_ok _ _ (λ _. (h.0, forget-AreStored temp_id s h.1))
          (λ _. (h.0, forget-AreStored temp_id s h.1)))

pub open-IsSound :
    (c : Config) (a : Answers) (temp_id peer : String) (s : State)
    → IsSound c s
    → IsSound c (on_open_channel_request c a temp_id peer s)
unfolding on_open_channel_request
open-IsSound c a temp_id peer s h =
    if-IsSound c (str_eq peer c.lsp_node_id && not (str_eq c.lsp_node_id "")) _ _
      (λ e. call_if-IsSound c (not a.accept_ok) _ _ tt (
        call-IsSound c _ s
          (ground (arith, eq_iff peer c.lsp_node_id), ground (arith, eq_iff c.lsp_node_id "")) h))
      (λ _. h)

pub spendable-IsSound :
    (c : Config) (a : Answers) (outputs : List String) (s : State)
    → IsSound c s
    → IsSound c (on_spendable_outputs a outputs s)
unfolding on_spendable_outputs
spendable-IsSound c a outputs s h =
    if-IsSound c a.put_ok _ _
      (λ _.
        call_if-IsSound c (not a.sweep_ok) _ _ tt (call-IsSound c sweep_spendable_outputs s tt h))
      (λ _. call-IsSound c _ s tt h)

pub pending-IsSound :
    (c : Config) (a : Answers) (id temp_id : String) (s : State)
    → IsSound c s
    → IsSound c (on_channel_pending a id temp_id s)
unfolding on_channel_pending
pending-IsSound c a id temp_id s h = if-IsSound c a.put_ok _ _ (λ _. h) (λ _. h)

pub needed-IsSound :
    (c : Config) (id : String) (address : Option (List ℕ × ℕ)) (s : State)
    → IsSound c s
    → IsSound c (on_connection_needed_event c id address s)
needed-IsSound c id none s h = h
needed-IsSound c id (some (host, port)) s h = call_if-IsSound c c.has_connection_needed _ s tt h
