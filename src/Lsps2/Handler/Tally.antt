-- ===== src/Lsps2/Handler/Tally.antt =====
-- What each callback of src/ldk/lsps2/message-handler.ts does to the count of a promise.
use browser_wallet.Prelude.{
  ℕ, ◌+◌, ◌≡◌, refl, String, Bool, true, Bool-cases, inl, inr, Option, none, some, Option-cases,
  List, arith, ltb, if◌then◌else◌,
}
use browser_wallet.Prelude.Map
use browser_wallet.Prelude.Map.{Map}
use browser_wallet.Prelude.Hex.{bytes_to_hex}
use browser_wallet.Lsps2.Json.{Json, deserialize_response}
use browser_wallet.Lsps2.Handler.{
  is_overdue, timed_out, disconnected, destroyed, PendingRequest, Outcome, Handler, Incoming, Event,
  sends, tick, message, drain, disconnects, destroys, sets_flush, rejected, reject_all,
  send_request, reap, deliver, receive, handle_custom_message, get_and_clear_pending_msg,
  peer_disconnected, destroy, set_flush_callback, step,
}
use browser_wallet.Lsps2.Handler.Counts.{
  waiting, times_settled, times_settled-append, Distinct, waiting-keep, waiting-delete,
  keep-Distinct, set-Distinct, delete-Distinct,
}

-- How often a promise is pending or settled.
abbrev pub tally : ℕ → Handler → ℕ
tally t h = waiting t h.pending + times_settled t h.settled

abbrev pub issued : ℕ → Handler → ℕ
issued t h = if ltb t h.next then 1 else 0

tally-reject_all :
    (t : ℕ) (test : PendingRequest → Bool) (why : Outcome) (h : Handler)
    → tally t (reject_all test why h) ≡ tally t h
tally-reject_all t test why h = omega (
  arith,
  waiting-keep t test why h.pending,
  times_settled-append t (rejected test why h.pending) h.settled,
)

tally-deliver :
    (t : ℕ) (id : String) (response : Json) (sender : List ℕ) (o : Option PendingRequest)
    (h : Handler)
    → Distinct h.pending
    → Map.get id h.pending ≡ o
    → tally t (deliver id response sender o h) ≡ tally t h
unfolding deliver
tally-deliver t id response sender none h d e = refl
tally-deliver t id response sender (some v) h d e =
    ground (arith, waiting-delete t id v h.pending d e)

next-deliver :
    (id : String) (response : Json) (sender : List ℕ) (o : Option PendingRequest) (h : Handler)
    → (deliver id response sender o h).next ≡ h.next
unfolding deliver
next-deliver id response sender none h = refl
next-deliver id response sender (some v) h = ground arith

-- Only sending changes the count, and only that of the promise that it makes.
abbrev pub Keeps : (Handler → Handler) → Handler → Type 0
Keeps f h = (t : ℕ) → (tally t (f h) ≡ tally t h) × ((f h).next ≡ h.next)

message-Keeps :
    (msg : Incoming) (sender : List ℕ) (h : Handler)
    → Distinct h.pending
    → Keeps (handle_custom_message msg sender) h
unfolding handle_custom_message receive
message-Keeps msg sender h d t = elim (Bool-cases (ltb 65536 msg.size)) [
  | inl p ↦ rw p (refl, refl)
  | inr p ↦ rw p (elim (Option-cases (deserialize_response msg.parsed)) [
    | inl e ↦ rw e (refl, refl)
    | inr ((id, response), e) ↦
        rw e (tally-deliver t id response sender _ h d refl, next-deliver id response sender _ h)
  ])
]

deliver-Distinct :
    (id : String) (response : Json) (sender : List ℕ) (o : Option PendingRequest) (h : Handler)
    → Distinct h.pending
    → Distinct (deliver id response sender o h).pending
unfolding deliver
deliver-Distinct id response sender none h d = d
deliver-Distinct id response sender (some v) h d = ground (arith, delete-Distinct id h.pending d)

message-Distinct :
    (msg : Incoming) (sender : List ℕ) (h : Handler)
    → Distinct h.pending
    → Distinct (handle_custom_message msg sender h).pending
unfolding handle_custom_message receive
message-Distinct msg sender h d = elim (Bool-cases (ltb 65536 msg.size)) [
  | inl p ↦ rw p d
  | inr p ↦ rw p (elim (Option-cases (deserialize_response msg.parsed)) [
    | inl e ↦ rw e d
    | inr ((id, response), e) ↦
        rw e (deliver-Distinct id response sender (Map.get id h.pending) h d)
  ])
]

-- The map's keys stay different, whatever happens.
pub step-Distinct : (e : Event) (h : Handler) → Distinct h.pending → Distinct (step e h).pending
unfolding step send_request reap get_and_clear_pending_msg peer_disconnected destroy
    set_flush_callback
step-Distinct (sends peer payload now) h d = ground (
  arith,
  set-Distinct payload.id
      (record { promise = h.next; created_at = now; peer_hex = bytes_to_hex peer }) h.pending d,
)
step-Distinct (tick now) h d = ground (arith, keep-Distinct (is_overdue now) h.pending d)
step-Distinct (message msg sender) h d = message-Distinct msg sender h d
step-Distinct drain h d = d
step-Distinct (disconnects peer) h d = keep-Distinct _ h.pending d
step-Distinct destroys h d = keep-Distinct _ h.pending d
step-Distinct sets_flush h d = d

-- Every event but a request leaves each promise where it is, or settles it.
reap-Keeps : (now : ℕ) (h : Handler) → Keeps (reap now) h
unfolding reap
reap-Keeps now h t = ground (arith, tally-reject_all t (is_overdue now) timed_out h)

destroy-Keeps : (h : Handler) → Keeps destroy h
unfolding destroy
destroy-Keeps h t = (tally-reject_all t (λ _. true) destroyed h, refl)

disconnect-Keeps : (peer : List ℕ) (h : Handler) → Keeps (peer_disconnected peer) h
unfolding peer_disconnected
disconnect-Keeps peer h t = (tally-reject_all t _ disconnected h, refl)

abbrev pub IsSend : Event → Type 0
IsSend (sends peer payload now) = Unit
IsSend _ = ⊥

pub step-Keeps : (e : Event) (h : Handler) → Distinct h.pending → ¬ IsSend e → Keeps (step e) h
unfolding step get_and_clear_pending_msg set_flush_callback
step-Keeps (sends peer payload now) h d n = absurd (n tt)
step-Keeps (tick now) h d n = reap-Keeps now h
step-Keeps (message msg sender) h d n = message-Keeps msg sender h d
step-Keeps drain h d n = λ t. (refl, refl)
step-Keeps (disconnects peer) h d n = disconnect-Keeps peer h
step-Keeps destroys h d n = destroy-Keeps h
step-Keeps sets_flush h d n = λ t. (refl, refl)
