-- ===== src/Broadcaster/Queue/Kept.antt =====
-- When a pending transaction leaves the store of src/ldk/traits/broadcaster.ts.
use browser_wallet.Prelude.{
  ℕ, ◌+◌, ◌<◌, String, ◌≡◌, refl, Bool, true, false, ◌⊎◌, inl, inr, Option, none, some, List, arith,
  str_eq, Bool-cases,
}
use browser_wallet.Prelude.Map
use browser_wallet.Prelude.Map.{Map, get-set, get-delete}
use browser_wallet.Broadcaster.{broadcast_now, pending_broadcast_ttl_ms}
use browser_wallet.Broadcaster.Queue.{
  Queue, has, remove, broadcast_transaction, finish, Step, broadcasts, drains, settles, restarts,
  step, run, none_pending,
}
use browser_wallet.Broadcaster.Queue.Keys.{IsMap, run-IsMap}
use browser_wallet.Broadcaster.Queue.Drain.{
  IsPending, forget-IsPending, begin-IsPending, drain-IsPending,
}

-- Why an entry may leave the store in a step.
abbrev pub Cause : (List ℕ → List ℕ) → Step → Queue → String → Type 0
Cause to_lower (broadcasts now puts deletes t) q tx = (t ≡ tx) × (has tx q.inflight ≡ true)
Cause to_lower (drains now deletes) q tx =
    ((created_at : ℕ) × (Map.get tx q.pending ≡ some created_at)
      × (created_at + pending_broadcast_ttl_ms < now))
    ⊎ (has tx q.inflight ≡ true)
Cause to_lower (settles primary fallback deletes t) q tx =
    (t ≡ tx) × ((result : List ℕ) × ((broadcast_now to_lower primary fallback).0 ≡ some result))
Cause to_lower restarts q tx = ⊥

broadcast_transaction-IsPending :
    (now : ℕ) (puts deletes : Bool) (t tx : String) (q : Queue)
    → IsPending tx q
    → IsPending tx (broadcast_transaction now puts deletes t q)
      ⊎ ((t ≡ tx) × (has tx q.inflight ≡ true))
unfolding broadcast_transaction
broadcast_transaction-IsPending now false deletes t tx q h = begin-IsPending deletes t tx q h
broadcast_transaction-IsPending now true deletes t tx q (n, h) =
    begin-IsPending deletes t tx (record q { pending = Map.set t now q.pending })
      (elim (Bool-cases (str_eq t tx)) [
        | inl e ↦ (now, ground (arith, get-set t tx now q.pending))
        | inr e ↦ (n, ground (arith, get-set t tx now q.pending))
      ])

finish-IsPending :
    (deletes : Bool) (result : Option (List ℕ)) (t tx : String) (q : Queue)
    → IsPending tx q
    → IsPending tx (finish deletes result t q) ⊎ ((t ≡ tx) × ((r : List ℕ) × (result ≡ some r)))
unfolding finish
finish-IsPending deletes none t tx q h = inl h
finish-IsPending deletes (some r) t tx q h =
    elim (forget-IsPending deletes t tx (record q { inflight = remove t q.inflight }) h) [
      | inl kept ↦ inl kept
      | inr same ↦ inr (same, (r, refl))
    ]

step-IsPending :
    (to_lower : List ℕ → List ℕ) (x : Step) (tx : String) (q : Queue)
    → IsMap q.pending
    → IsPending tx q
    → IsPending tx (step to_lower x q) ⊎ Cause to_lower x q tx
unfolding step
step-IsPending to_lower (broadcasts now puts deletes t) tx q m h =
    broadcast_transaction-IsPending now puts deletes t tx q h
step-IsPending to_lower (drains now deletes) tx q m h =
    drain-IsPending now deletes q.pending tx q m h
step-IsPending to_lower (settles primary fallback deletes t) tx q m h =
    elim (Bool-cases (has t q.inflight)) [
      | inl e ↦ rw e (finish-IsPending deletes (broadcast_now to_lower primary fallback).0 t tx q h)
      | inr e ↦ rw e (inl h)
    ]
step-IsPending to_lower restarts tx q m h = inl h

-- After any sequence of steps, a transaction that is stored as pending stays so in the next step, unless
-- that step is the end of its own retries with a result, a call for it while it is under way, or a
-- drain that finds it under way or more than 48 hours old. In particular no failed retry and no restart
-- forgets it.
pub IsPending-Kept :
    (to_lower : List ℕ → List ℕ) (xs : List Step) (x : Step) (tx : String)
    → IsPending tx (run to_lower xs none_pending)
    → IsPending tx (step to_lower x (run to_lower xs none_pending))
      ⊎ Cause to_lower x (run to_lower xs none_pending) tx
IsPending-Kept to_lower xs x tx h =
    step-IsPending to_lower x tx (run to_lower xs none_pending)
      (run-IsMap to_lower xs none_pending tt) h
