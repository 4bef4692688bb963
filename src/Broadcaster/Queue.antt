-- ===== src/Broadcaster/Queue.antt =====
-- `broadcastWithRetry`, `createBroadcaster` and `drainPendingBroadcasts` of
-- src/ldk/traits/broadcaster.ts: the transactions under way, and the store `ldk_pending_broadcasts`.
-- A retry that is under way ends in a step of its own, so that other calls can come in between.
pub mod Keys
pub mod Drain
pub mod Kept
pub mod Lost
use browser_wallet.Prelude.{
  ℕ, ◌+◌, String, Bool, true, false, ◌||◌, Option, none, some, List, [], ◌∷◌, ltb, if◌then◌else◌,
  str_eq,
}
use browser_wallet.Prelude.Map
use browser_wallet.Prelude.Map.{Map}
use browser_wallet.Broadcaster.{Answer, broadcast_now, pending_broadcast_ttl_ms}

-- `inflightTxs`, and the times at which the pending transactions were stored.
pub record Queue : Type 0 where
  pub inflight : List String
  pub pending : Map ℕ

-- `inflightTxs.has`
unfoldable pub has : String → List String → Bool
has tx [] = false
has tx (t ∷ ts) = str_eq t tx || has tx ts

-- `inflightTxs.delete`
unfoldable pub remove : String → List String → List String
remove tx [] = []
remove tx (t ∷ ts) = let rest = remove tx ts in if str_eq t tx then rest else t ∷ rest

-- `idbDelete`, which may fail.
abbrev pub forget : (deletes : Bool) → String → Queue → Queue
forget deletes tx q = if deletes then record q { pending = Map.delete tx q.pending } else q

-- The start of `broadcastWithRetry`, with the `then` of its callers, which delete the entry when it
-- returns: at once where the transaction is under way.
unfoldable pub begin_broadcast : (deletes : Bool) → String → Queue → Queue
begin_broadcast deletes tx q =
    if has tx q.inflight then forget deletes tx q else record q { inflight = tx ∷ q.inflight }

-- One turn of the loop in `broadcast_transactions`.
unfoldable pub broadcast_transaction : (now : ℕ) (puts deletes : Bool) → String → Queue → Queue
broadcast_transaction now puts deletes tx q =
    begin_broadcast deletes tx (if puts then record q { pending = Map.set tx now q.pending } else q)

-- The loop of `drainPendingBroadcasts` over the entries that it has read.
unfoldable pub drain : (now : ℕ) (deletes : Bool) → Map ℕ → Queue → Queue
drain now deletes [] q = q
drain now deletes ((tx, created_at) ∷ entries) q =
    let expired = drain now deletes entries (forget deletes tx q) in
    let retried = drain now deletes entries (begin_broadcast deletes tx q) in
    if ltb (created_at + pending_broadcast_ttl_ms) now then expired else retried

-- How a retry ends: the `finally` of `broadcastWithRetry`, and the `then` of its callers.
unfoldable pub finish : (deletes : Bool) → Option (List ℕ) → String → Queue → Queue
finish deletes none tx q = record q { inflight = remove tx q.inflight }
finish deletes (some txid) tx q = forget deletes tx (record q { inflight = remove tx q.inflight })

pub data Step : Type 0 where
  broadcasts : (now : ℕ) (puts deletes : Bool) → String → Step
  drains : (now : ℕ) (deletes : Bool) → Step
  settles : (primary : ℕ → Answer) (fallback : Option (ℕ → Answer)) (deletes : Bool) → String → Step
  restarts : Step

-- After a restart nothing is under way. What is not under way cannot settle.
unfoldable pub step : (List ℕ → List ℕ) → Step → Queue → Queue
step to_lower (broadcasts now puts deletes tx) q = broadcast_transaction now puts deletes tx q
step to_lower (drains now deletes) q = drain now deletes q.pending q
step to_lower (settles primary fallback deletes tx) q =
    if has tx q.inflight then finish deletes (broadcast_now to_lower primary fallback).0 tx q else q
step to_lower restarts q = record q { inflight = [] }

unfoldable pub run : (List ℕ → List ℕ) → List Step → Queue → Queue
run to_lower [] q = q
run to_lower (x ∷ xs) q = run to_lower xs (step to_lower x q)

abbrev pub none_pending : Queue
none_pending = record { inflight = []; pending = [] }
