-- ===== src/Lsps2/Handler/Counts.antt =====
-- Counting pending entries and promises in the handler's map (src/ldk/lsps2/message-handler.ts).
use browser_wallet.Prelude.{
  ℕ, ◌+◌, ◌≤◌, ◌≡◌, refl, String, Bool, Option, none, some, List, [], ◌∷◌, ◌++◌, arith, eq_iff,
  ◌==◌, if◌then◌else◌,
}
use browser_wallet.Prelude.Map
use browser_wallet.Prelude.Map.{Map, get-set, get-delete}
use browser_wallet.Prelude.Hex.{list_eq}
use browser_wallet.Lsps2.Handler.{PendingRequest, Outcome, peer_count, keep, rejected}

-- How often a promise stands in the map.
abbrev pub waiting : ℕ → Map PendingRequest → ℕ
waiting t [] = 0
waiting t ((id, entry) ∷ m) = (if entry.promise == t then 1 else 0) + waiting t m

-- How often it has been settled.
abbrev pub times_settled : ℕ → List (ℕ × Outcome) → ℕ
times_settled t [] = 0
times_settled t ((p, o) ∷ l) = (if p == t then 1 else 0) + times_settled t l

-- As in a JavaScript `Map`, no two entries have the same key.
abbrev pub Distinct : Map PendingRequest → Type 0
Distinct [] = Unit
Distinct ((id, entry) ∷ m) = (Map.get id m ≡ none) × Distinct m

module _ (t : ℕ) where
  pub times_settled-append :
      (xs ys : List (ℕ × Outcome))
      → times_settled t (xs ++ ys) ≡ times_settled t xs + times_settled t ys
  times_settled-append [] ys = omega arith
  times_settled-append (x ∷ xs) ys = omega (arith, times_settled-append xs ys)

  -- An entry that is rejected leaves the map and is settled once.
  pub waiting-keep :
      (test : PendingRequest → Bool) (why : Outcome) (m : Map PendingRequest)
      → waiting t (keep test m) + times_settled t (rejected test why m) ≡ waiting t m
  unfolding keep rejected
  waiting-keep test why [] = refl
  waiting-keep test why ((id, entry) ∷ m) = ground (arith, waiting-keep test why m)

  pub waiting-set_new :
      (k : String) (v : PendingRequest) (m : Map PendingRequest)
      → Map.get k m ≡ none
      → waiting t (Map.set k v m) ≡ (if v.promise == t then 1 else 0) + waiting t m
  unfolding Map.get Map.set
  waiting-set_new k v [] h = refl
  waiting-set_new k v ((j, w) ∷ m) h = ground (arith, waiting-set_new k v m)

  pub waiting-set-le :
      (k : String) (v : PendingRequest) (m : Map PendingRequest)
      → waiting t (Map.set k v m) ≤ (if v.promise == t then 1 else 0) + waiting t m
  unfolding Map.set
  waiting-set-le k v [] = ground arith
  waiting-set-le k v ((j, w) ∷ m) = ground (arith, waiting-set-le k v m)

  waiting-delete-none :
      (k : String) (m : Map PendingRequest)
      → Map.get k m ≡ none
      → waiting t (Map.delete k m) ≡ waiting t m
  unfolding Map.get Map.delete
  waiting-delete-none k [] h = refl
  waiting-delete-none k ((j, w) ∷ m) h = ground (arith, waiting-delete-none k m)

  pub waiting-delete :
      (k : String) (v : PendingRequest) (m : Map PendingRequest)
      → Distinct m
      → Map.get k m ≡ some v
      → (if v.promise == t then 1 else 0) + waiting t (Map.delete k m) ≡ waiting t m
  unfolding Map.get Map.delete
  waiting-delete k v [] d h = cc
  waiting-delete k v ((j, w) ∷ m) (d, ds) h =
      ground (arith, eq_iff j k, waiting-delete-none k m, waiting-delete k v m ds)

get-keep-none :
    (test : PendingRequest → Bool) (k : String) (m : Map PendingRequest)
    → Map.get k m ≡ none
    → Map.get k (keep test m) ≡ none
unfolding Map.get keep
get-keep-none test k [] h = refl
get-keep-none test k ((j, w) ∷ m) h = ground (arith, get-keep-none test k m)

abbrev pub sift : (PendingRequest → Bool) → Option PendingRequest → Option PendingRequest
sift test none = none
sift test (some v) = if test v then none else some v

-- What is found after a sweep: what was found before, unless it passes the test.
pub get-keep :
    (test : PendingRequest → Bool) (k : String) (m : Map PendingRequest)
    → Distinct m
    → Map.get k (keep test m) ≡ sift test (Map.get k m)
unfolding Map.get keep
get-keep test k [] d = refl
get-keep test k ((j, w) ∷ m) (d, ds) =
    ground (arith, eq_iff j k, get-keep-none test k m, get-keep test k m ds)

pub keep-Distinct :
    (test : PendingRequest → Bool) (m : Map PendingRequest) → Distinct m → Distinct (keep test m)
unfolding keep
keep-Distinct test [] d = tt
keep-Distinct test ((j, w) ∷ m) (d, ds) =
    ground (arith, get-keep-none test j m d, keep-Distinct test m ds)

pub set-Distinct :
    (k : String) (v : PendingRequest) (m : Map PendingRequest)
    → Distinct m
    → Distinct (Map.set k v m)
unfolding Map.set Map.get
set-Distinct k v [] d = (refl, tt)
set-Distinct k v ((j, w) ∷ m) (d, ds) =
    ground (arith, eq_iff k j, eq_iff j k, get-set k j v m, set-Distinct k v m ds)

pub delete-Distinct : (k : String) (m : Map PendingRequest) → Distinct m → Distinct (Map.delete k m)
unfolding Map.delete
delete-Distinct k [] d = tt
delete-Distinct k ((j, w) ∷ m) (d, ds) = ground (arith, get-delete k j m, delete-Distinct k m ds)

module _ (peer : List ℕ) where
  pub peer_count-keep-le :
      (test : PendingRequest → Bool) (m : Map PendingRequest)
      → peer_count peer (keep test m) ≤ peer_count peer m
  unfolding keep peer_count
  peer_count-keep-le test [] = omega arith
  peer_count-keep-le test ((j, w) ∷ m) = ground (arith, peer_count-keep-le test m)

  pub peer_count-delete-le :
      (k : String) (m : Map PendingRequest) → peer_count peer (Map.delete k m) ≤ peer_count peer m
  unfolding Map.delete peer_count
  peer_count-delete-le k [] = omega arith
  peer_count-delete-le k ((j, w) ∷ m) = ground (arith, peer_count-delete-le k m)

  pub peer_count-set-le :
      (k : String) (v : PendingRequest) (m : Map PendingRequest)
      → peer_count peer (Map.set k v m)
        ≤ (if list_eq v.peer_hex peer then 1 else 0) + peer_count peer m
  unfolding Map.set peer_count
  peer_count-set-le k v [] = ground arith
  peer_count-set-le k v ((j, w) ∷ m) = ground (arith, peer_count-set-le k v m)
