-- ===== src/Lsps2/Handler.antt =====
-- src/ldk/lsps2/message-handler.ts: the bridge between LDK's callbacks and promises. The closure
-- variables of `createLspsMessageHandler` are a record, and each callback a function on it. A promise
-- is a number, given out in order; `settled` records how promises were settled, newest first.
mod Counts
pub mod Tally
pub mod Promises
pub mod Cap
pub mod Replies
mod Tests
use browser_wallet.Prelude.{
  ℕ, suc, ◌+◌, String, Bool, true, false, Option, none, some, List, [], ◌∷◌, ◌++◌, ltb, leb, ◌==◌,
  if◌then◌else◌,
}
use browser_wallet.Prelude.Map
use browser_wallet.Prelude.Map.{Map}
use browser_wallet.Prelude.Hex.{bytes_to_hex, list_eq}
use browser_wallet.Lsps2.Json.{Json, deserialize_response}

abbrev pub lsps_message_type : ℕ
lsps_message_type = 37913

abbrev pub max_lsps_message_bytes : ℕ
max_lsps_message_bytes = 65536

abbrev pub request_timeout_ms : ℕ
request_timeout_ms = 30000

abbrev pub max_pending_per_peer : ℕ
max_pending_per_peer = 10

pub record PendingRequest : Type 0 where
  pub promise : ℕ
  pub created_at : ℕ
  pub peer_hex : List ℕ

-- How a promise is settled: by `resolve`, or by `reject` with one of the messages.
pub data Outcome : Type 0 where
  resolved : Json → Outcome
  timed_out disconnected destroyed : Outcome

pub data Warning : Type 0 where
  oversized unparsable : Warning

-- A serialized request: its JSON-RPC id, and its bytes.
pub record Payload : Type 0 where
  pub id : String
  pub text : List ℕ

pub record Handler : Type 0 where
  pub pending : Map PendingRequest
  pub outbound : List (List ℕ × Payload)
  pub flush_callback : Bool
  pub reaper_running : Bool
  pub next : ℕ
  pub settled : List (ℕ × Outcome)
  pub warnings : List Warning

abbrev pub init : Handler
init = record {
  pending = [];
  outbound = [];
  flush_callback = false;
  reaper_running = true;
  next = 0;
  settled = [];
  warnings = [];
}

-- `peerCount`
pub peer_count : List ℕ → Map PendingRequest → ℕ
peer_count peer [] = 0
peer_count peer ((id, entry) ∷ m) =
    (if list_eq entry.peer_hex peer then 1 else 0) + peer_count peer m

-- The loops that reject and delete every entry that passes a test: what stays, and the promises.
pub keep : (PendingRequest → Bool) → Map PendingRequest → Map PendingRequest
keep test [] = []
keep test ((id, entry) ∷ m) =
    let rest = keep test m in if test entry then rest else (id, entry) ∷ rest

pub rejected : (PendingRequest → Bool) → Outcome → Map PendingRequest → List (ℕ × Outcome)
rejected test why [] = []
rejected test why ((id, entry) ∷ m) =
    let rest = rejected test why m in if test entry then (entry.promise, why) ∷ rest else rest

abbrev pub reject_all : (PendingRequest → Bool) → Outcome → Handler → Handler
reject_all test why h = record h {
  pending = keep test h.pending;
  settled = rejected test why h.pending ++ h.settled;
}

-- `none` where the promise is rejected at once.
pub send_request : List ℕ → Payload → ℕ → Handler → Option ℕ × Handler
send_request peer_pubkey payload now h =
    let peer_hex = bytes_to_hex peer_pubkey in
    let entry : PendingRequest = record {
      promise = h.next;
      created_at = now;
      peer_hex = peer_hex;
    } in
    if leb max_pending_per_peer (peer_count peer_hex h.pending) then (none, h) else (
      some h.next,
      record h {
        pending = Map.set payload.id entry h.pending;
        outbound = h.outbound ++ (peer_pubkey, payload) ∷ [];
        next = suc h.next;
      },
    )

-- `now - entry.createdAt > REQUEST_TIMEOUT_MS`
abbrev pub is_overdue : ℕ → PendingRequest → Bool
is_overdue now entry = ltb (entry.created_at + request_timeout_ms) now

pub reap : ℕ → Handler → Handler
reap now h = if h.reaper_running then reject_all (is_overdue now) timed_out h else h

-- A message: its length, and what its text parses to.
pub record Incoming : Type 0 where
  pub size : ℕ
  pub parsed : Option Json

abbrev pub warn : Warning → Handler → Handler
warn w h = record h { warnings = w ∷ h.warnings }

-- What is done with the entry that a response names.
pub deliver : String → Json → List ℕ → Option PendingRequest → Handler → Handler
deliver id response sender none h = h
deliver id response sender (some entry) h =
    if list_eq (bytes_to_hex sender) entry.peer_hex
    then record h {
      pending = Map.delete id h.pending;
      settled = (entry.promise, resolved response) ∷ h.settled;
    }
    else h

pub receive : Option (String × Json) → List ℕ → Handler → Handler
unfolding deliver
receive none sender h = warn unparsable h
receive (some (id, response)) sender h = deliver id response sender (Map.get id h.pending) h

pub handle_custom_message : Incoming → List ℕ → Handler → Handler
unfolding receive
handle_custom_message msg sender h =
    if ltb max_lsps_message_bytes msg.size
    then warn oversized h
    else receive (deserialize_response msg.parsed) sender h

pub get_and_clear_pending_msg : Handler → List (List ℕ × Payload) × Handler
get_and_clear_pending_msg h = (h.outbound, record h { outbound = [] })

pub peer_disconnected : List ℕ → Handler → Handler
peer_disconnected their_node_id h =
    reject_all (λ entry. list_eq entry.peer_hex (bytes_to_hex their_node_id)) disconnected h

pub destroy : Handler → Handler
destroy h = record (reject_all (λ _. true) destroyed h) {
  flush_callback = false;
  reaper_running = false;
}

pub set_flush_callback : Handler → Handler
set_flush_callback h = record h { flush_callback = true }

-- `read`: other message types are not ours.
pub read : ℕ → List ℕ → Option (List ℕ)
read message_type buffer = if message_type == lsps_message_type then some buffer else none

-- What can happen to a handler.
pub data Event : Type 0 where
  sends : List ℕ → Payload → ℕ → Event
  tick : ℕ → Event
  message : Incoming → List ℕ → Event
  drain : Event
  disconnects : List ℕ → Event
  destroys : Event
  sets_flush : Event

pub step : Event → Handler → Handler
step (sends peer payload now) h = (send_request peer payload now h).1
step (tick now) h = reap now h
step (message msg sender) h = handle_custom_message msg sender h
step drain h = (get_and_clear_pending_msg h).1
step (disconnects peer) h = peer_disconnected peer h
step destroys h = destroy h
step sets_flush h = set_flush_callback h

pub run : List Event → Handler → Handler
run [] h = h
run (e ∷ es) h = run es (step e h)
