-- ===== src/Peers/Connection.antt =====
-- `connectToPeer` of src/ldk/peers/peer-connection.ts behind its tests: the promise, the timer and
-- the socket of one connection. Each callback is a function on the variables of the closure.
pub mod Sound
pub mod Settled
use browser_wallet.Prelude.{ℕ, Bool, true, false, not, List, [], ◌∷◌, ◌≡◌, ◌≢◌, ◌||◌, if◌then◌else◌}
use browser_wallet.Prelude.Hex.{bytes_to_hex, list_eq}

pub data Reason : Type 0 where
  timed_out not_initiated handshake_failed socket_failed closed_early : Reason

-- A call of `resolve`, or of `reject`.
pub data Settlement : Type 0 where
  connected : Settlement
  rejected : Reason → Settlement

-- The ready state of a WebSocket.
pub data Phase : Type 0 where
  connecting opened closing closed : Phase

-- Calls of the socket, the peer manager and the caller's `onMessageProcessed`.
pub data Call : Type 0 where
  ws_close sends_act_one process_events notifies socket_disconnected : Call

pub record Connection : Type 0 where
  pub phase : Phase
  pub descriptor : Bool
  pub resolved : Bool
  pub timer : Bool
  pub settled : List Settlement
  pub calls : List Call

abbrev pub init : Connection
init = record {
  phase = connecting;
  descriptor = false;
  resolved = false;
  timer = true;
  settled = [];
  calls = [];
}

abbrev pub call : Call → Connection → Connection
call f c = record c { calls = f ∷ c.calls }

-- `ws.close()`
abbrev pub close : Connection → Connection
close c = record c {
  phase = elim c.phase [ closed ↦ closed | _ ↦ closing ];
  calls = ws_close ∷ c.calls;
}

-- `cleanup(); resolved = true`, and the promise is settled.
abbrev pub settle : Settlement → Connection → Connection
settle s c = record c { timer = false; resolved = true; settled = s ∷ c.settled }

abbrev pub cleanup : Connection → Connection
cleanup c = record c { timer = false }

abbrev pub tell_disconnected : Connection → Connection
tell_disconnected c = if c.descriptor then call socket_disconnected c else c

pub disconnect : Connection → Connection
disconnect c = close (tell_disconnected c)

-- The timer's callback.
pub on_timeout : Connection → Connection
on_timeout c = if c.resolved then cleanup c else settle (rejected timed_out) (close c)

-- `initiated`: what `new_outbound_connection` answers.
unfoldable pub on_open : Bool → Connection → Connection
on_open initiated c =
    let c' : Connection = record c { phase = opened; descriptor = true } in
    if initiated then call sends_act_one c' else settle (rejected not_initiated) (close c')

-- A frame: whether it is binary, whether `read_event` takes it, and the peers listed behind it.
pub record Frame : Type 0 where
  pub binary : Bool
  pub readable : Bool
  pub peers : List (List ℕ)

-- The loop over `list_peers()`.
unfoldable pub lists : List (List ℕ) → List ℕ → Bool
lists [] pubkey = false
lists (peer ∷ peers) pubkey = list_eq (bytes_to_hex peer) pubkey || lists peers pubkey

-- `notified` tells whether there is an `onMessageProcessed`.
unfoldable pub on_message : Bool → List ℕ → Frame → Connection → Connection
on_message notified pubkey frame c =
    if not c.descriptor
    then c
    else if not frame.binary
    then c
    else if not frame.readable
    then (if c.resolved then cleanup c else settle (rejected handshake_failed) (close c))
    else if c.resolved
    then (if notified then call notifies (call process_events c) else call process_events c)
    else if lists frame.peers pubkey
    then settle connected (call process_events c)
    else call process_events c

pub on_error : Connection → Connection
on_error c = if c.resolved then c else settle (rejected socket_failed) c

pub on_close : Connection → Connection
on_close c =
    let c' = tell_disconnected c in if c.resolved then c' else settle (rejected closed_early) c'

-- What can happen. The guards are the documented behaviour of WebSockets and timers: a socket opens
-- once, and not after `close`; frames arrive while it is open; after an error it is being closed; it
-- closes once; a timer that was cleared does not fire. The caller gets the object with `disconnect`
-- when the promise is resolved.
pub data Happens (notified : Bool) (pubkey : List ℕ) : Connection → Connection → Type 0 where
  times_out : (c : Connection) → c.timer ≡ true → Happens notified pubkey c (on_timeout c)
  opens :
      (initiated : Bool) (c : Connection)
      → c.phase ≡ connecting
      → Happens notified pubkey c (on_open initiated c)
  receives :
      (frame : Frame) (c : Connection)
      → c.phase ≡ opened
      → Happens notified pubkey c (on_message notified pubkey frame c)
  fails :
      (c : Connection)
      → c.phase ≢ closed
      → Happens notified pubkey c (on_error (record c { phase = closing }))
  closes :
      (c : Connection)
      → c.phase ≢ closed
      → Happens notified pubkey c (on_close (record c { phase = closed }))
  disconnects :
      (c : Connection) → c.settled ≡ connected ∷ [] → Happens notified pubkey c (disconnect c)

pub data Reachable (notified : Bool) (pubkey : List ℕ) : Connection → Type 0 where
  starts : Reachable notified pubkey init
  goes_on :
      {c d : Connection}
      → Reachable notified pubkey c
      → Happens notified pubkey c d
      → Reachable notified pubkey d
