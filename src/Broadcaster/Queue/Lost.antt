-- ===== src/Broadcaster/Queue/Lost.antt =====
-- A call for a transaction that is under way takes its entry from the store
-- (src/ldk/traits/broadcaster.ts).
use browser_wallet.Prelude.{
  ℕ, String, ◌≡◌, refl, Bool, true, false, Option, none, List, [], ◌∷◌, arith, eq_iff,
}
use browser_wallet.Prelude.Map
use browser_wallet.Prelude.Map.{Map, get-set, get-delete}
use browser_wallet.Broadcaster.{Answer, broadcast_now}
use browser_wallet.Broadcaster.Queue.{
  Queue, has, remove, begin_broadcast, broadcast_transaction, finish, broadcasts, settles, step,
}

has-remove : (tx : String) (ts : List String) → has tx (remove tx ts) ≡ false
unfolding has remove
has-remove tx [] = refl
has-remove tx (t ∷ ts) = ground (arith, has-remove tx ts)

get-delete_self : (tx : String) (m : Map ℕ) → Map.get tx (Map.delete tx m) ≡ none
get-delete_self tx m = ground (arith, get-delete tx tx m, eq_iff tx tx)

-- A call for a transaction that is under way, if the store takes its calls, and the failure of all the
-- attempts that were under way leave the transaction neither under way nor in the store.
pub duplicate-Forgotten :
    (to_lower : List ℕ → List ℕ) (now : ℕ) (puts deletes : Bool) (primary : ℕ → Answer)
    (fallback : Option (ℕ → Answer)) (tx : String) (q : Queue)
    → has tx q.inflight ≡ true
    → (broadcast_now to_lower primary fallback).0 ≡ none
    → let q' =
        step to_lower
          (settles primary fallback deletes tx)
          (step to_lower (broadcasts now puts true tx) q) in
      (Map.get tx q'.pending ≡ none) × (has tx q'.inflight ≡ false)
unfolding step broadcast_transaction begin_broadcast finish
duplicate-Forgotten to_lower now false deletes primary fallback tx q h e =
    rw h (rw h (rw e (get-delete_self tx q.pending, has-remove tx q.inflight)))
duplicate-Forgotten to_lower now true deletes primary fallback tx q h e =
    rw h (rw h (rw e (get-delete_self tx (Map.set tx now q.pending), has-remove tx q.inflight)))
