-- ===== src/Broadcaster/Queue/Keys.antt =====
-- The store of src/ldk/traits/broadcaster.ts has each key once.
use browser_wallet.Prelude.{
  ℕ, ◌+◌, String, ◌≡◌, refl, Bool, true, false, inl, inr, Option, none, some, List, [], ◌∷◌, arith,
  eq_iff, ltb, str_eq, Bool-cases,
}
use browser_wallet.Prelude.Map
use browser_wallet.Prelude.Map.{Map, get-set, get-delete}
use browser_wallet.Broadcaster.{broadcast_now, pending_broadcast_ttl_ms}
use browser_wallet.Broadcaster.Queue.{
  Queue, has, forget, begin_broadcast, broadcast_transaction, drain, finish, Step, broadcasts,
  drains, settles, restarts, step, run,
}

-- Keys stand once.
abbrev pub IsMap : Map ℕ → Type 0
IsMap [] = Unit
IsMap ((k, v) ∷ m) = (Map.get k m ≡ none) × IsMap m

pub set-IsMap : (k : String) (v : ℕ) (m : Map ℕ) → IsMap m → IsMap (Map.set k v m)
unfolding Map.set Map.get
set-IsMap k v [] h = (refl, tt)
set-IsMap k v ((j, w) ∷ m) (fresh, h) = elim (Bool-cases (str_eq j k)) [
  | inl e ↦ rw e (fresh, h)
  | inr e ↦ rw e (ground (arith, get-set k j v m, eq_iff k j, eq_iff j k), set-IsMap k v m h)
]

pub delete-IsMap : (k : String) (m : Map ℕ) → IsMap m → IsMap (Map.delete k m)
unfolding Map.delete
delete-IsMap k [] h = tt
delete-IsMap k ((j, w) ∷ m) (fresh, h) = elim (Bool-cases (str_eq j k)) [
  | inl e ↦ rw e (delete-IsMap k m h)
  | inr e ↦ rw e (ground (arith, get-delete k j m, eq_iff k j, eq_iff j k), delete-IsMap k m h)
]

pub forget-IsMap :
    (deletes : Bool) (tx : String) (q : Queue)
    → IsMap q.pending
    → IsMap (forget deletes tx q).pending
forget-IsMap false tx q h = h
forget-IsMap true tx q h = delete-IsMap tx q.pending h

pub begin-IsMap :
    (deletes : Bool) (tx : String) (q : Queue)
    → IsMap q.pending
    → IsMap (begin_broadcast deletes tx q).pending
unfolding begin_broadcast
begin-IsMap deletes tx q h = elim (Bool-cases (has tx q.inflight)) [
  | inl e ↦ rw e (forget-IsMap deletes tx q h)
  | inr e ↦ rw e h
]

pub drain-IsMap :
    (now : ℕ) (deletes : Bool) (entries : Map ℕ) (q : Queue)
    → IsMap q.pending
    → IsMap (drain now deletes entries q).pending
unfolding drain
drain-IsMap now deletes [] q h = h
drain-IsMap now deletes ((tx, t) ∷ entries) q h =
    elim (Bool-cases (ltb (t + pending_broadcast_ttl_ms) now)) [
      | inl e ↦ rw e (drain-IsMap now deletes entries _ (forget-IsMap deletes tx q h))
      | inr e ↦ rw e (drain-IsMap now deletes entries _ (begin-IsMap deletes tx q h))
    ]

pub finish-IsMap :
    (deletes : Bool) (result : Option (List ℕ)) (tx : String) (q : Queue)
    → IsMap q.pending
    → IsMap (finish deletes result tx q).pending
unfolding finish
finish-IsMap deletes none tx q h = h
finish-IsMap deletes (some r) tx q h = forget-IsMap deletes tx _ h

pub step-IsMap :
    (to_lower : List ℕ → List ℕ) (x : Step) (q : Queue)
    → IsMap q.pending
    → IsMap (step to_lower x q).pending
unfolding step broadcast_transaction
step-IsMap to_lower (broadcasts now false deletes t) q m = begin-IsMap deletes t q m
step-IsMap to_lower (broadcasts now true deletes t) q m =
    begin-IsMap deletes t _ (set-IsMap t now q.pending m)
step-IsMap to_lower (drains now deletes) q m = drain-IsMap now deletes q.pending q m
step-IsMap to_lower (settles primary fallback deletes t) q m =
    elim (Bool-cases (has t q.inflight)) [
      | inl e ↦ rw e (finish-IsMap deletes (broadcast_now to_lower primary fallback).0 t q m)
      | inr e ↦ rw e m
    ]
step-IsMap to_lower restarts q m = m

pub run-IsMap :
    (to_lower : List ℕ → List ℕ) (xs : List Step) (q : Queue)
    → IsMap q.pending
    → IsMap (run to_lower xs q).pending
unfolding run
run-IsMap to_lower [] q m = m
run-IsMap to_lower (x ∷ xs) q m =
    run-IsMap to_lower xs (step to_lower x q) (step-IsMap to_lower x q m)
