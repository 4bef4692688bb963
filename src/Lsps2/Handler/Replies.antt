-- ===== src/Lsps2/Handler/Replies.antt =====
-- Who is answered, who times out and who is cut off (src/ldk/lsps2/message-handler.ts).
use browser_wallet.Prelude.{
  ℕ, ◌+◌, ◌≤◌, ◌≡◌, ◌≢◌, ◌↔◌, ◌⊎◌, refl, ap, sym, ◌∙◌, String, Bool, true, false, Bool-cases, inl,
  inr, Option, none, some, Option-cases, List, ◌∷◌, arith, eq_iff, ltb,
}
use browser_wallet.Prelude.Map
use browser_wallet.Prelude.Map.{Map, get-delete}
use browser_wallet.Prelude.Hex.{bytes_to_hex, list_eq, list_eq→eq, list_eq_self}
use browser_wallet.Lsps2.Json.{Json, deserialize_response}
use browser_wallet.Lsps2.Handler.{
  PendingRequest, resolved, Handler, Incoming, is_overdue, keep, reap, deliver, receive,
  handle_custom_message, peer_disconnected, max_lsps_message_bytes, request_timeout_ms,
}
use browser_wallet.Lsps2.Handler.Counts.{Distinct, sift, get-keep}

-- The message answers this entry: it is small enough, it is a JSON-RPC 2.0 response with the
-- entry's id, and it comes from the peer that was asked.
pub record Answers (msg : Incoming) (sender : List ℕ) (h : Handler) (id : String) (response : Json)
    (entry : PendingRequest) : Type 0 where
  pub small : msg.size ≤ max_lsps_message_bytes
  pub valid : deserialize_response msg.parsed ≡ some (id, response)
  pub asked : Map.get id h.pending ≡ some entry
  pub same_peer : bytes_to_hex sender ≡ entry.peer_hex

-- The entry's promise is resolved with the response, and the entry is gone.
pub record Resolves (h h' : Handler) (id : String) (response : Json) (entry : PendingRequest)
    : Type 0 where
  pub newly : h'.settled ≡ (entry.promise, resolved response) ∷ h.settled
  pub gone : Map.get id h'.pending ≡ none
  pub others : (j : String) → j ≢ id → Map.get j h'.pending ≡ Map.get j h.pending

module _ (msg : Incoming) (sender : List ℕ) (h : Handler) where
  abbrev after : Handler
  after = handle_custom_message msg sender h

  answered :
      (id : String) (response : Json) (entry : PendingRequest)
      → Answers msg sender h id response entry
      → Resolves h after id response entry
  unfolding handle_custom_message receive deliver
  answered id response entry a =
      let big : ltb 65536 msg.size ≡ false = ground (arith, a.small) in
      let peer : list_eq (bytes_to_hex sender) entry.peer_hex ≡ true =
        rw a.same_peer (list_eq_self _) in
      rw (big) (
        rw (a.valid) (
          rw (a.asked) (
            rw peer (record {
              newly = refl;
              gone = get-delete id id h.pending ∙ ground (arith, eq_iff id id);
              others = λ j n. get-delete id j h.pending ∙ ground (arith, eq_iff id j);
            }))))

  delivered :
      (id : String) (response : Json)
      → msg.size ≤ max_lsps_message_bytes
      → deserialize_response msg.parsed ≡ some (id, response)
      → ((after.pending ≡ h.pending) × (after.settled ≡ h.settled))
        ⊎ ((entry : PendingRequest) × Answers msg sender h id response entry)
  unfolding handle_custom_message receive deliver
  delivered id response small valid =
      let big : ltb 65536 msg.size ≡ false = ground arith in
      rw big (
        rw valid (elim (Option-cases (Map.get id h.pending)) [
          | inl e ↦ rw e (inl (refl, refl))
          | inr (entry, e) ↦ elim (Bool-cases (list_eq (bytes_to_hex sender) entry.peer_hex)) [
            | inl p ↦ inr (
              entry,
              record { small = small; valid = valid; asked = e; same_peer = list_eq→eq _ _ p },
            )
            | inr p ↦ rw e (rw p (inl (refl, refl)))
          ]
        ]))

  abbrev pub Unchanged : Type 0
  Unchanged = (after.pending ≡ h.pending) × (after.settled ≡ h.settled)

  unanswered :
      Unchanged
      ⊎ ((id : String) × (response : Json) × (entry : PendingRequest) × Answers msg sender h id
            response entry)
  unanswered = elim (Bool-cases (ltb 65536 msg.size)) [
    | inl big ↦ unfold handle_custom_message in rw big (inl (refl, refl))
    | inr small ↦ elim (Option-cases (deserialize_response msg.parsed)) [
      | inl e ↦ unfold handle_custom_message receive in rw small (rw e (inl (refl, refl)))
      | inr ((id, response), e) ↦ elim (delivered id response (ground arith) e) [
        | inl same ↦ inl same
        | inr (entry, a) ↦ inr (id, response, entry, a)
      ]
    ]
  ]

  -- A message either changes no request, or it is an answer: then the request's promise is resolved
  -- with it and the request is gone, and no other request is touched. Every answer has this effect:
  -- a response of at most 65536 bytes, with the id of a pending request, from the peer that was asked.
  pub message-Resolves :
      (Unchanged
        ⊎ ((id : String) × (response : Json) × (entry : PendingRequest) × Answers msg sender h id
              response entry
            × Resolves h after id response entry))
      × ((id : String) (response : Json) (entry : PendingRequest)
          → Answers msg sender h id response entry
          → Resolves h after id response entry)
  message-Resolves = (
    elim unanswered [
      | inl same ↦ inl same
      | inr (id, response, entry, a) ↦ inr (id, response, entry, a, answered id response entry a)
    ],
    answered,
  )

same_entry : {v w : PendingRequest} → some w ≡ some v → w ≡ v
same_entry e = cc

-- What a sweep leaves.
sift_iff :
    (test : PendingRequest → Bool) (v : PendingRequest) (o : Option PendingRequest)
    → (sift test o ≡ some v) ↔ ((o ≡ some v) × (test v ≡ false))
sift_iff test v none = (λ e. cc, λ (e, _). cc)
sift_iff test v (some w) = elim (Bool-cases (test w)) [
  | inl p ↦ rw p (λ e. cc, λ (e, q). cc (ap test (same_entry e)))
  | inr p ↦ rw p (λ e. (e, ap test (sym (same_entry e)) ∙ p), λ (e, q). e)
]

get-keep_iff :
    (test : PendingRequest → Bool) (m : Map PendingRequest) (id : String) (v : PendingRequest)
    → Distinct m
    → (Map.get id (keep test m) ≡ some v) ↔ ((Map.get id m ≡ some v) × (test v ≡ false))
get-keep_iff test m id v d = rw (get-keep test id m d) (sift_iff test v (Map.get id m))

-- While the reaper runs, a tick at time `now` leaves exactly the requests that were made at most 30
-- seconds before, as they were.
pub reap_iff :
    (now : ℕ) (h : Handler) (id : String) (v : PendingRequest)
    → Distinct h.pending
    → h.reaper_running ≡ true
    → (Map.get id (reap now h).pending ≡ some v)
      ↔ ((Map.get id h.pending ≡ some v) × (now ≤ v.created_at + request_timeout_ms))
unfolding reap
reap_iff now h id v d run =
    let (to, from) = get-keep_iff (is_overdue now) h.pending id v d in
    rw run (λ e. ((to e).0, recent (to e).1), λ (e, n). from (e, overdue n))
  where
    recent : is_overdue now v ≡ false → now ≤ v.created_at + request_timeout_ms
    recent p = ground arith

    overdue : now ≤ v.created_at + request_timeout_ms → is_overdue now v ≡ false
    overdue n = ground arith

-- A disconnect leaves exactly the requests of the other peers, as they were.
pub disconnect_iff :
    (peer : List ℕ) (h : Handler) (id : String) (v : PendingRequest)
    → Distinct h.pending
    → (Map.get id (peer_disconnected peer h).pending ≡ some v)
      ↔ ((Map.get id h.pending ≡ some v) × (v.peer_hex ≢ bytes_to_hex peer))
unfolding peer_disconnected
disconnect_iff peer h id v d =
    let hex = bytes_to_hex peer in
    let (to, from) = get-keep_iff (λ entry. list_eq entry.peer_hex hex) h.pending id v d in
    (
      λ e. ((to e).0, λ q. cc ((to e).1, ap (λ x. list_eq x hex) q, list_eq_self hex)),
      λ (e, n). from (e, differs n),
    )
  where
    differs : v.peer_hex ≢ bytes_to_hex peer → list_eq v.peer_hex (bytes_to_hex peer) ≡ false
    differs n = elim (Bool-cases (list_eq v.peer_hex (bytes_to_hex peer))) [
      | inl p ↦ absurd (n (list_eq→eq _ _ p))
      | inr p ↦ p
    ]
