-- ===== src/Storage/Restore.antt =====
-- The recovery from VSS in `initializeLdk` of src/ldk/init.ts: a browser whose IndexedDB has neither
-- monitors nor a manager downloads them. `Answers` holds what VSS, IndexedDB, LDK and the clock answer.
-- Keys are lists of code units; a store is the list of its entries.
pub mod Entries
pub mod Monitors
pub mod Live
pub mod Whole
mod Tests
use browser_wallet.Prelude.{
  ℕ, zero, suc, ◌+◌, String, Bool, true, false, not, ◌&&◌, ◌||◌, Option, none, some, List, [], ◌∷◌,
  ◌++◌, length, ltb, if◌then◌else◌,
}
use browser_wallet.Prelude.Hex.{list_eq}
use browser_wallet.Storage.Remote.{Bytes, Failure, Result, ok, err}
use browser_wallet.Storage.Manifest.{Key, parse_monitor_manifest}

abbrev pub chunk_size : ℕ
chunk_size = 10

module _ {A : Type 0} where
  unfoldable pub lookup : Key → List (Key × A) → Option A
  lookup k [] = none
  lookup k ((j, a) ∷ m) = let rest = lookup k m in if list_eq j k then some a else rest

  unfoldable pub remove : Key → List (Key × A) → List (Key × A)
  remove k [] = []
  remove k ((j, a) ∷ m) = let rest = remove k m in if list_eq j k then rest else (j, a) ∷ rest

  -- `idbDeleteBatch`
  unfoldable pub remove_all : List Key → List (Key × A) → List (Key × A)
  remove_all [] m = m
  remove_all (k ∷ ks) m = remove_all ks (remove k m)

  abbrev pub put : Key → A → List (Key × A) → List (Key × A)
  put k a m = (k, a) ∷ remove k m

-- `monitors`, `manager` and `peers` are stores of IndexedDB; the rest are the variables of the recovery.
pub record Local : Type 0 where
  pub monitors : List (Key × Bytes)
  pub manager : Option Bytes
  pub peers : List (Key × Bytes)
  pub written_keys : List Key
  pub wrote_manager : Bool
  pub versions : List (Key × ℕ)
  pub peers_version : Option ℕ
  pub manifest_version : Option ℕ
  pub manager_version : ℕ
  pub initial_keys : List Key

-- A browser without monitors and manager, which may know peers.
abbrev pub fresh : List (Key × Bytes) → Local
fresh peers = record {
  monitors = [];
  manager = none;
  peers = peers;
  written_keys = [];
  wrote_manager = false;
  versions = [];
  peers_version = none;
  manifest_version = none;
  manager_version = 0;
  initial_keys = [];
}

-- `late n` tells whether the time is over when `n` monitors have been asked for.
pub record Answers : Type 0 where
  pub get_manifest : Result (Option (Bytes × ℕ))
  pub get_monitor : Key → Result (Option (Bytes × ℕ))
  pub get_manager : Result (Option (Bytes × ℕ))
  pub get_peers : Result (Option (Bytes × ℕ))
  pub decode : Bytes → Option (List (Option Key))
  pub decode_peers : Bytes → Option (List (Key × Bytes))
  pub late : ℕ → Bool
  pub readable : Bytes → Bool
  pub puts_monitor : Key → Bool
  pub puts_manager : Bool
  pub puts_peer : Key → Bool
  pub deletes_monitors : Bool
  pub deletes_manager : Bool

abbrev pub first : ℕ → List Key → List Key
first zero ks = []
first (suc n) [] = []
first (suc n) (k ∷ ks) = k ∷ first n ks

abbrev pub behind : ℕ → List Key → List Key
behind zero ks = ks
behind (suc n) [] = []
behind (suc n) (k ∷ ks) = behind n ks

-- A piece of the `try`: whether it got to its end, and the state.
abbrev pub Tried : Type 0
Tried = Bool × Local

abbrev pub and_then : Tried → (Local → Tried) → Tried
and_then (false, l) k = (false, l)
and_then (true, l) k = k l

abbrev pub answered : Result (Option (Bytes × ℕ)) → Bool
answered (ok o) = true
answered (err e) = false

module _ (a : Answers) where
  -- `Promise.all` over a chunk: whether all the requests succeed.
  unfoldable pub all_answered : List Key → Bool
  all_answered [] = true
  all_answered (k ∷ ks) = answered (a.get_monitor k) && all_answered ks

  -- One monitor of a chunk.
  abbrev pub store_object : Key → Result (Option (Bytes × ℕ)) → Local → Tried
  store_object k (ok (some (value, version))) l =
      if a.readable value && a.puts_monitor k
      then (
        true,
        record l {
          monitors = put k value l.monitors;
          written_keys = k ∷ l.written_keys;
          versions = put k version l.versions;
        },
      )
      else (false, l)
  store_object k (ok none) l = (false, l)
  store_object k (err e) l = (false, l)

  unfoldable pub store_chunk : List Key → Local → Tried
  store_chunk [] l = (true, l)
  store_chunk (k ∷ ks) l = and_then (store_object k (a.get_monitor k) l) (store_chunk ks)

  -- The loop over the chunks, with as many rounds at most as there are keys.
  unfoldable pub chunks : (rounds asked : ℕ) → List Key → Local → Tried
  chunks zero asked ks l = (true, l)
  chunks (suc n) asked [] l = (true, l)
  chunks (suc n) asked (k ∷ ks) l =
      if a.late asked || not (all_answered (first chunk_size (k ∷ ks)))
      then (false, l)
      else and_then (store_chunk (first chunk_size (k ∷ ks)) l)
          (chunks n (asked + chunk_size) (behind chunk_size (k ∷ ks)))

  -- The manager, whose blob has at least 32 bytes.
  abbrev pub store_manager : Result (Option (Bytes × ℕ)) → Local → Tried
  store_manager (ok (some (value, version))) l =
      if ltb (length value) 32 || not a.puts_manager then (false, l) else (
        true,
        record l { manager = some value; wrote_manager = true; manager_version = version },
      )
  store_manager (ok none) l = (false, l)
  store_manager (err e) l = (false, l)

  unfoldable pub put_peers : List (Key × Bytes) → Local → Tried
  put_peers [] l = (true, l)
  put_peers ((k, peer) ∷ peers) l =
      let rest = put_peers peers (record l { peers = put k peer l.peers }) in
      if a.puts_peer k then rest else (false, l)

  abbrev pub store_peers : ℕ → Option (List (Key × Bytes)) → Local → Tried
  store_peers version none l = (false, l)
  store_peers version (some peers) l =
      and_then (put_peers peers l) (λ m. (true, record m { peers_version = some version }))

  -- The known peers, where VSS has them.
  abbrev pub restore_peers : Result (Option (Bytes × ℕ)) → Local → Tried
  restore_peers (ok (some (value, version))) l = store_peers version (a.decode_peers value) l
  restore_peers (ok none) l = (true, l)
  restore_peers (err e) l = (false, l)

  -- What follows the parsing of the manifest.
  unfoldable pub restore_all : ℕ → List Key → Local → Tried
  restore_all version keys l = and_then (chunks (length keys) 0 keys l) (λ l1.
      and_then (store_manager a.get_manager l1) (λ l2.
        and_then (restore_peers a.get_peers l2)
          (λ l3. (true, record l3 { manifest_version = some version; initial_keys = keys }))))

  abbrev pub restore_keys : ℕ → Option (List Key) → Local → Tried
  restore_keys version none l = (false, l)
  restore_keys version (some keys) l = restore_all version keys l

  abbrev pub restore_manifest : Result (Option (Bytes × ℕ)) → Local → Tried
  restore_manifest (ok (some (value, version))) l =
      restore_keys version (parse_monitor_manifest (a.decode value)) l
  restore_manifest (ok none) l = (true, l)
  restore_manifest (err e) l = (false, l)

  -- The deletions behind a failure; an error of a deletion is ignored.
  abbrev pub delete_monitors : Local → Local
  delete_monitors l =
      if a.deletes_monitors then record l { monitors = remove_all l.written_keys l.monitors } else l

  abbrev pub delete_manager : Local → Local
  delete_manager l = if l.wrote_manager && a.deletes_manager then record l { manager = none } else l

  -- The `catch` block.
  unfoldable pub roll_back : Tried → Tried
  roll_back (true, l) = (true, l)
  roll_back (false, l) =
      let kept = delete_manager (delete_monitors l) in
      (
        false,
        record kept {
          versions = [];
          peers_version = none;
          manifest_version = none;
          manager_version = 0;
        },
      )

  -- Only a browser with neither monitors nor a manager recovers.
  abbrev pub is_empty : List (Key × Bytes) → Option Bytes → Bool
  is_empty [] none = true
  is_empty [] (some m) = false
  is_empty (e ∷ es) manager = false

  -- The whole recovery; the Boolean tells that nothing was thrown.
  unfoldable pub restore : Local → Tried
  restore l =
      if is_empty l.monitors l.manager
      then roll_back (restore_manifest a.get_manifest l)
      else (true, l)
