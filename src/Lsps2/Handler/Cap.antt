-- ===== src/Lsps2/Handler/Cap.antt =====
-- The cap on pending requests per peer (src/ldk/lsps2/message-handler.ts).
use browser_wallet.Prelude.{
  ℕ, ◌≤◌, ap, String, true, Bool-cases, inl, inr, Option, none, some, Option-cases, List, [], ◌∷◌,
  arith, ltb,
}
use browser_wallet.Prelude.Map
use browser_wallet.Prelude.Map.{Map}
use browser_wallet.Prelude.Hex.{bytes_to_hex, list_eq, list_eq→eq}
use browser_wallet.Lsps2.Json.{Json, deserialize_response}
use browser_wallet.Lsps2.Handler.{
  is_overdue, PendingRequest, Handler, Payload, Incoming, Event, sends, tick, message, disconnects,
  destroys, init, peer_count, send_request, reap, deliver, receive, handle_custom_message,
  get_and_clear_pending_msg, peer_disconnected, destroy, set_flush_callback, step, run,
  max_pending_per_peer,
}
use browser_wallet.Lsps2.Handler.Counts.{
  peer_count-keep-le, peer_count-delete-le, peer_count-set-le,
}

send-capped :
    (peer : List ℕ) (payload : Payload) (now : ℕ) (h : Handler) (p : List ℕ)
    → peer_count p h.pending ≤ max_pending_per_peer
    → peer_count p (send_request peer payload now h).1.pending ≤ max_pending_per_peer
unfolding send_request
send-capped peer payload now h p c =
    let entry : PendingRequest = record {
      promise = h.next;
      created_at = now;
      peer_hex = bytes_to_hex peer;
    } in
    elim (Bool-cases (list_eq (bytes_to_hex peer) p)) [
      | inl same ↦
          let e = list_eq→eq (bytes_to_hex peer) p same in
          ground (
            arith,
            peer_count-set-le p payload.id entry h.pending,
            ap (λ q. peer_count q h.pending) e,
          )
      | inr other ↦ ground (arith, peer_count-set-le p payload.id entry h.pending)
    ]

message-le :
    (msg : Incoming) (sender : List ℕ) (h : Handler) (p : List ℕ)
    → peer_count p (handle_custom_message msg sender h).pending ≤ peer_count p h.pending
unfolding handle_custom_message receive
message-le msg sender h p = elim (Bool-cases (ltb 65536 msg.size)) [
  | inl b ↦ rw b (omega arith)
  | inr b ↦ rw b (elim (Option-cases (deserialize_response msg.parsed)) [
    | inl e ↦ rw e (omega arith)
    | inr ((id, response), e) ↦ rw e (delivered id response (Map.get id h.pending))
  ])
]
  where
    delivered :
        (id : String) (response : Json) (o : Option PendingRequest)
        → peer_count p (deliver id response sender o h).pending ≤ peer_count p h.pending
    delivered id response none = unfold deliver in omega arith
    delivered id response (some v) =
        unfold deliver in ground (arith, peer_count-delete-le p id h.pending)

step-capped :
    (e : Event) (h : Handler) (p : List ℕ)
    → peer_count p h.pending ≤ max_pending_per_peer
    → peer_count p (step e h).pending ≤ max_pending_per_peer
unfolding step reap get_and_clear_pending_msg peer_disconnected destroy set_flush_callback
step-capped (sends peer payload now) h p c = send-capped peer payload now h p c
step-capped (tick now) h p c = ground (arith, peer_count-keep-le p (is_overdue now) h.pending)
step-capped (message msg sender) h p c = omega (arith, message-le msg sender h p)
step-capped (disconnects peer) h p c =
    omega
      (arith, peer_count-keep-le p (λ entry. list_eq entry.peer_hex (bytes_to_hex peer)) h.pending)
step-capped destroys h p c = omega (arith, peer_count-keep-le p (λ _. true) h.pending)
step-capped _ h p c = c

run-capped :
    (es : List Event) (h : Handler) (p : List ℕ)
    → peer_count p h.pending ≤ max_pending_per_peer
    → peer_count p (run es h).pending ≤ max_pending_per_peer
unfolding run
run-capped [] h p c = c
run-capped (e ∷ es) h p c = run-capped es (step e h) p (step-capped e h p c)

-- Whatever happens, no peer ever has more than ten pending requests.
pub pending_capped :
    (es : List Event) (peer : List ℕ) → peer_count peer (run es init).pending ≤ max_pending_per_peer
unfolding peer_count
pending_capped es peer = run-capped es init peer (omega arith)
