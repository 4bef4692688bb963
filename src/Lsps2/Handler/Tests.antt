-- ===== src/Lsps2/Handler/Tests.antt =====
-- A session of the handler, and the theorems about it at concrete inputs.
use browser_wallet.Prelude.{ℕ, ◌≤◌, ◌≡◌, ◌⊎◌, refl, String, some, List, [], ◌∷◌}
use browser_wallet.Prelude.Map
use browser_wallet.Prelude.Hex.{bytes_to_hex, list_eq}
use browser_wallet.Lsps2.Json.{Json, null, str, obj, end, field, deserialize_response}
use browser_wallet.Lsps2.Handler.{
  PendingRequest, Handler, Payload, Incoming, Event, sends, tick, message, drain, init, peer_count,
  keep, rejected, send_request, reap, deliver, receive, handle_custom_message,
  get_and_clear_pending_msg, step, run, max_pending_per_peer, resolved, timed_out,
}
use browser_wallet.Lsps2.Handler.Tally.{tally, issued}
use browser_wallet.Lsps2.Handler.Promises.{FreshRun, none_lost}
use browser_wallet.Lsps2.Handler.Cap.{pending_capped}
use browser_wallet.Lsps2.Handler.Replies.{Answers, Resolves, Unchanged, message-Resolves}

abbrev lsp : List ℕ
lsp = 0x02 ∷ 0xab ∷ []

abbrev other : List ℕ
other = 0x03 ∷ 0xcd ∷ []

abbrev request : String → Payload
request id = record { id = id; text = [] }

abbrev reply : String → Json
reply id = obj (field "jsonrpc" (str "2.0") (field "id" (str id) (field "result" null end)))

abbrev incoming : String → Incoming
incoming id = record { size = 50; parsed = some (reply id) }

-- Two requests; another peer's answer to the first is ignored; the second times out.
abbrev events : List Event
events =
    sends lsp (request "a") 0
    ∷ sends lsp (request "b") 1000
    ∷ drain
    ∷ message (incoming "a") other
    ∷ message (incoming "a") lsp
    ∷ tick 31001
    ∷ []

history : (run events init).settled ≡ (1, timed_out) ∷ (0, resolved (reply "a")) ∷ []
unfolding run step send_request peer_count handle_custom_message receive deliver reap keep rejected
    get_and_clear_pending_msg Map.get Map.set Map.delete bytes_to_hex list_eq deserialize_response
history = refl

events-FreshRun : FreshRun events init
unfolding step send_request peer_count handle_custom_message receive deliver reap keep rejected
    get_and_clear_pending_msg Map.get Map.set Map.delete bytes_to_hex list_eq deserialize_response
events-FreshRun = (refl, (refl, (tt, (tt, (tt, (tt, tt))))))

none_lost_example : tally 1 (run events init) ≡ issued 1 (run events init)
none_lost_example = none_lost events 1 events-FreshRun

pending_capped_example :
    peer_count (bytes_to_hex lsp) (run events init).pending ≤ max_pending_per_peer
pending_capped_example = pending_capped events (bytes_to_hex lsp)

abbrev entry : PendingRequest
entry = record { promise = 0; created_at = 0; peer_hex = bytes_to_hex lsp }

abbrev waiting_one : Handler
waiting_one = record init { pending = ("a", entry) ∷ []; next = 1 }

message-Resolves_example :
    (Unchanged (incoming "a") lsp waiting_one
      ⊎ ((id : String) × (response : Json) × (e : PendingRequest) × Answers
            (incoming "a")
            lsp
            waiting_one
            id
            response
            e
          × Resolves waiting_one
              (handle_custom_message (incoming "a") lsp waiting_one)
              id
              response
              e))
    × ((id : String) (response : Json) (e : PendingRequest)
        → Answers (incoming "a") lsp waiting_one id response e
        → Resolves waiting_one (handle_custom_message (incoming "a") lsp waiting_one) id response e)
message-Resolves_example = message-Resolves (incoming "a") lsp waiting_one
