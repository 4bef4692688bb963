-- ===== src/Lsps2/Handler/Promises.antt =====
-- Every promise of the handler is settled at most once, and none is lost
-- (src/ldk/lsps2/message-handler.ts).
use browser_wallet.Prelude.{ℕ, ◌≤◌, ◌≡◌, none, List, [], ◌∷◌, arith}
use browser_wallet.Prelude.Map
use browser_wallet.Prelude.Map.{Map}
use browser_wallet.Prelude.Hex.{bytes_to_hex}
use browser_wallet.Lsps2.Handler.{
  PendingRequest, Handler, Payload, Event, sends, init, send_request, step, run,
}
use browser_wallet.Lsps2.Handler.Counts.{Distinct, waiting-set_new, waiting-set-le}
use browser_wallet.Lsps2.Handler.Tally.{tally, issued, Keeps, step-Keeps, step-Distinct}

-- The id of a request that is sent is not in use. `LSPS2Client` takes a random UUID.
abbrev pub Fresh : Event → Handler → Type 0
Fresh (sends peer payload now) h = Map.get payload.id h.pending ≡ none
Fresh _ h = Unit

abbrev pub FreshRun : List Event → Handler → Type 0
FreshRun [] h = Unit
FreshRun (e ∷ es) h = Fresh e h × FreshRun es (step e h)

-- Each promise that was made is pending or settled, once; no other is.
pub record IsExact (h : Handler) : Type 0 where
  pub distinct : Distinct h.pending
  pub once : (t : ℕ) → tally t h ≡ issued t h

-- As above, but a promise may be lost.
pub record IsSound (h : Handler) : Type 0 where
  pub distinct : Distinct h.pending
  pub at_most_once : (t : ℕ) → tally t h ≤ issued t h

send_once :
    (peer : List ℕ) (payload : Payload) (now : ℕ) (h : Handler) (t : ℕ)
    → Map.get payload.id h.pending ≡ none
    → tally t h ≡ issued t h
    → tally t (send_request peer payload now h).1 ≡ issued t (send_request peer payload now h).1
unfolding send_request
send_once peer payload now h t new e =
    let entry : PendingRequest = record {
      promise = h.next;
      created_at = now;
      peer_hex = bytes_to_hex peer;
    } in
    ground (arith, waiting-set_new t payload.id entry h.pending new)

send_at_most_once :
    (peer : List ℕ) (payload : Payload) (now : ℕ) (h : Handler) (t : ℕ)
    → tally t h ≤ issued t h
    → tally t (send_request peer payload now h).1 ≤ issued t (send_request peer payload now h).1
unfolding send_request
send_at_most_once peer payload now h t e =
    let entry : PendingRequest = record {
      promise = h.next;
      created_at = now;
      peer_hex = bytes_to_hex peer;
    } in
    ground (arith, waiting-set-le t payload.id entry h.pending)

kept_once :
    (f : Handler → Handler) (h : Handler) (t : ℕ)
    → Keeps f h
    → tally t h ≡ issued t h
    → tally t (f h) ≡ issued t (f h)
kept_once f h t k e = let (same, next) = k t in rw (same, next) e

kept_at_most_once :
    (f : Handler → Handler) (h : Handler) (t : ℕ)
    → Keeps f h
    → tally t h ≤ issued t h
    → tally t (f h) ≤ issued t (f h)
kept_at_most_once f h t k e = let (same, next) = k t in rw (same, next) e

step_once :
    (e : Event) (h : Handler) (t : ℕ)
    → Fresh e h
    → IsExact h
    → tally t (step e h) ≡ issued t (step e h)
unfolding step
step_once (sends peer payload now) h t new x = send_once peer payload now h t new (x.once t)
step_once e h t new x = kept_once (step e) h t (step-Keeps e h x.distinct (λ n. n)) (x.once t)

step_at_most_once :
    (e : Event) (h : Handler) (t : ℕ) → IsSound h → tally t (step e h) ≤ issued t (step e h)
unfolding step
step_at_most_once (sends peer payload now) h t x =
    send_at_most_once peer payload now h t (x.at_most_once t)
step_at_most_once e h t x =
    kept_at_most_once (step e) h t (step-Keeps e h x.distinct (λ n. n)) (x.at_most_once t)

run-IsSound : (es : List Event) (h : Handler) → IsSound h → IsSound (run es h)
unfolding run
run-IsSound [] h x = x
run-IsSound (e ∷ es) h x = run-IsSound es (step e h) (record {
  distinct = step-Distinct e h x.distinct;
  at_most_once = λ t. step_at_most_once e h t x;
})

run-IsExact : (es : List Event) (h : Handler) → FreshRun es h → IsExact h → IsExact (run es h)
unfolding run
run-IsExact [] h f x = x
run-IsExact (e ∷ es) h (f, fs) x =
    run-IsExact es (step e h) fs
      (record { distinct = step-Distinct e h x.distinct; once = λ t. step_once e h t f x })

-- Whatever happens to a handler, in whatever order: no promise is settled twice, none is both
-- settled and still pending, and none is settled that was not made.
pub settled_at_most_once :
    (es : List Event) (t : ℕ) → tally t (run es init) ≤ issued t (run es init)
settled_at_most_once es t =
    (run-IsSound es init (record { distinct = tt; at_most_once = λ t. ground arith })).at_most_once
      t

-- If no request reuses an id that is pending, no promise is lost: each one that was made is pending
-- or has been settled, exactly once.
pub none_lost :
    (es : List Event) (t : ℕ) → FreshRun es init → tally t (run es init) ≡ issued t (run es init)
none_lost es t f =
    (run-IsExact es init f (record { distinct = tt; once = λ t. ground arith })).once t
