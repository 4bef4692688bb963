-- ===== src/Storage/Restore/Whole.antt =====
-- The recovery of src/ldk/init.ts is whole or leaves nothing.
use browser_wallet.Prelude.{
  ℕ, ◌≡◌, refl, ◌∙◌, ◌⊎◌, inl, inr, true, false, not, ◌||◌, Option, none, some, List, [], ◌∷◌,
  length, ltb, arith, Bool-cases,
}
use browser_wallet.Storage.Remote.{Bytes, Result, ok, err}
use browser_wallet.Storage.Manifest.{Key, has, parse_monitor_manifest}
use browser_wallet.Storage.Restore.{
  Local, fresh, Answers, Tried, and_then, put, chunks, store_manager, put_peers, store_peers,
  restore_peers, restore_all, restore_keys, restore_manifest, roll_back, restore,
}
use browser_wallet.Storage.Restore.Entries.{monitors-gone, manager-gone}
use browser_wallet.Storage.Restore.Monitors.{IsCovered, IsRestored, Reaches, chunks-Reaches}

module _ (a : Answers) where
  -- A recovery of some keys that got to its end.
  abbrev pub IsWhole : ℕ → List Key → Local → Type 0
  IsWhole version keys l =
      ((k : Key) → has k keys ≡ true → IsRestored a l k)
      × ((m : Bytes) × (l.manager ≡ some m) × (a.get_manager ≡ ok (some (m, l.manager_version))))
      × (l.manifest_version ≡ some version)
      × (l.initial_keys ≡ keys)

  -- What VSS has no manifest for is not touched; otherwise the manifest's keys are recovered.
  abbrev pub IsRecovered : Local → Local → Type 0
  IsRecovered before l =
      ((a.get_manifest ≡ ok none) × (l ≡ before))
      ⊎ ((value : Bytes) × (version : ℕ) × (keys : List Key) × (a.get_manifest
            ≡ ok (some (value, version)))
          × (parse_monitor_manifest (a.decode value) ≡ some keys)
          × IsWhole version keys l)

  -- Nothing is left of a recovery that failed, if IndexedDB deletes what it is told to.
  abbrev pub IsRolledBack : Local → Type 0
  IsRolledBack l =
      (l.versions ≡ [])
      × (l.manager_version ≡ 0)
      × (l.manifest_version ≡ none)
      × (a.deletes_monitors ≡ true → l.monitors ≡ [])
      × (a.deletes_manager ≡ true → l.manager ≡ none)

  -- What a piece leaves as it was: all but the peers and their version.
  abbrev Same : Local → Local → Type 0
  Same l m =
      (m.monitors ≡ l.monitors)
      × (m.written_keys ≡ l.written_keys)
      × (m.versions ≡ l.versions)
      × (m.manager ≡ l.manager)
      × (m.manager_version ≡ l.manager_version)
      × (m.wrote_manager ≡ l.wrote_manager)

  put_peers-Same : (ps : List (Key × Bytes)) (l : Local) → Same l (put_peers a ps l).1
  unfolding put_peers
  put_peers-Same [] l = (refl, refl, refl, refl, refl, refl)
  put_peers-Same ((k, peer) ∷ ps) l = elim (Bool-cases (a.puts_peer k)) [
    | inl e ↦ rw e (put_peers-Same ps (record l { peers = put k peer l.peers }))
    | inr e ↦ rw e (refl, refl, refl, refl, refl, refl)
  ]

  store_peers-Same :
      (version : ℕ) (o : Option (List (Key × Bytes))) (l : Local)
      → Same l (store_peers a version o l).1
  store_peers-Same version none l = (refl, refl, refl, refl, refl, refl)
  store_peers-Same version (some ps) l = go (put_peers a ps l) (put_peers-Same ps l)
    where
      go :
          (r : Tried)
          → Same l r.1
          → Same l (and_then r (λ m. (true, record m { peers_version = some version }))).1
      go (false, m) h = h
      go (true, m) h = h

  restore_peers-Same :
      (x : Result (Option (Bytes × ℕ))) (l : Local) → Same l (restore_peers a x l).1
  restore_peers-Same (err e) l = (refl, refl, refl, refl, refl, refl)
  restore_peers-Same (ok none) l = (refl, refl, refl, refl, refl, refl)
  restore_peers-Same (ok (some (value, version))) l =
      store_peers-Same version (a.decode_peers value) l

  -- A piece's end: what is stored is noted, and if it got there, the recovery is whole.
  abbrev Ends : ℕ → List Key → Tried → Type 0
  Ends version keys (b, l) = IsCovered a l × (b ≡ true → IsWhole version keys l)

  abbrev AllRestored : List Key → Local → Type 0
  AllRestored keys l = (k : Key) → has k keys ≡ true → IsRestored a l k

  abbrev last_part : ℕ → List Key → Local → Tried
  last_part version keys l =
      (true, record l { manifest_version = some version; initial_keys = keys })

  peers-Ends :
      (version : ℕ) (keys : List Key) (l : Local) (r : Tried) (m : Bytes)
      → Same l r.1
      → IsCovered a l
      → AllRestored keys l
      → l.manager ≡ some m
      → a.get_manager ≡ ok (some (m, l.manager_version))
      → Ends version keys (and_then r (last_part version keys))
  peers-Ends version keys l (false, l') m (e1, e2, e3, e4, e5, e6) c all man got =
      (rw (e1, e2, e4, e6) c, λ p. absurd (ground arith))
  peers-Ends version keys l (true, l') m (e1, e2, e3, e4, e5, e6) c all man got = (
    rw (e1, e2, e4, e6) c,
    λ _. ((λ k h. rw (e1, e3) (all k h)), (m, e4 ∙ man, rw e5 got), refl, refl),
  )

  manager-Ends :
      (version : ℕ) (keys : List Key) (l : Local) (x : Result (Option (Bytes × ℕ)))
      → a.get_manager ≡ x
      → IsCovered a l
      → AllRestored keys l
      → Ends version keys (
          and_then
            (store_manager a x l)
            (λ l2. and_then (restore_peers a a.get_peers l2) (last_part version keys)))
  manager-Ends version keys l (err e) h c all = (c, λ p. absurd (ground arith))
  manager-Ends version keys l (ok none) h c all = (c, λ p. absurd (ground arith))
  manager-Ends version keys l (ok (some (value, v))) h c all =
      elim (Bool-cases (ltb (length value) 32 || not a.puts_manager)) [
        | inl e ↦ rw e (c, λ p. absurd (ground arith))
        | inr e ↦ rw e (
            peers-Ends version keys
              (record l { manager = some value; wrote_manager = true; manager_version = v })
              (restore_peers a a.get_peers
                (record l { manager = some value; wrote_manager = true; manager_version = v }))
              value
              (restore_peers-Same a.get_peers
                (record l { manager = some value; wrote_manager = true; manager_version = v }))
              (c.0, λ p. absurd (ground arith)) all refl h)
      ]

  abbrev recover_behind : ℕ → List Key → Local → Tried
  recover_behind version keys l1 =
      and_then (store_manager a a.get_manager l1)
        (λ l2. and_then (restore_peers a a.get_peers l2) (last_part version keys))

  chunks-Ends :
      (version : ℕ) (keys : List Key) (l : Local) (r : Tried)
      → Reaches a keys l r
      → Ends version keys (and_then r (recover_behind version keys))
  chunks-Ends version keys l (false, m) ((c, keep), own) = (c, λ p. absurd (ground arith))
  chunks-Ends version keys l (true, m) ((c, keep), own) =
      manager-Ends version keys m a.get_manager refl c (own refl)

  restore_all-Ends :
      (version : ℕ) (keys : List Key) (l : Local)
      → IsCovered a l
      → Ends version keys (restore_all a version keys l)
  unfolding restore_all
  restore_all-Ends version keys l c =
      chunks-Ends version keys l (chunks a (length keys) 0 keys l)
        (chunks-Reaches a (length keys) 0 keys l (omega arith) c)

  -- How the part before the `catch` ends.
  abbrev Tries : Local → Tried → Type 0
  Tries before (b, l) = IsCovered a l × (b ≡ true → IsRecovered before l)

  restore_keys-Tries :
      (value : Bytes) (version : ℕ) (o : Option (List Key)) (l : Local)
      → a.get_manifest ≡ ok (some (value, version))
      → parse_monitor_manifest (a.decode value) ≡ o
      → IsCovered a l
      → Tries l (restore_keys a version o l)
  restore_keys-Tries value version none l g p c = (c, λ q. absurd (ground arith))
  restore_keys-Tries value version (some keys) l g p c =
      let (c', whole) = restore_all-Ends version keys l c in
      (c', λ q. inr (value, version, keys, g, p, whole q))

  restore_manifest-Tries :
      (x : Result (Option (Bytes × ℕ))) (l : Local)
      → a.get_manifest ≡ x
      → IsCovered a l
      → Tries l (restore_manifest a x l)
  restore_manifest-Tries (err e) l g c = (c, λ q. absurd (ground arith))
  restore_manifest-Tries (ok none) l g c = (c, λ q. inl (g, refl))
  restore_manifest-Tries (ok (some (value, version))) l g c =
      restore_keys-Tries value version (parse_monitor_manifest (a.decode value)) l g refl c

  roll_back-Whole :
      (before : Local) (r : Tried)
      → Tries before r
      → ((roll_back a r).0 ≡ true → IsRecovered before (roll_back a r).1)
        × ((roll_back a r).0 ≡ false → IsRolledBack (roll_back a r).1)
  unfolding roll_back
  roll_back-Whole before (true, l) (c, h) = (h, λ p. absurd (ground arith))
  roll_back-Whole before (false, l) (c, h) = (
    λ p. absurd (ground arith),
    λ _. (refl, refl, refl, monitors-gone a l c.0, manager-gone a l c.1),
  )

  -- For whatever VSS, IndexedDB, LDK and the clock answer to a browser with neither monitors nor a
  -- manager: if the recovery reports success, then either VSS has no manifest and nothing was
  -- changed, or the manifest was taken, each monitor it lists is in the store with the bytes and
  -- the version VSS gave, the manager is VSS's, and the manifest's version and keys are known; if
  -- it reports a failure, no version of a monitor, of the manager or of the manifest is kept, and,
  -- if IndexedDB deletes what it is told to, no monitor and no manager is in the stores.
  pub restore-Whole :
      (peers : List (Key × Bytes))
      → ((restore a (fresh peers)).0 ≡ true → IsRecovered (fresh peers) (restore a (fresh peers)).1)
        × ((restore a (fresh peers)).0 ≡ false → IsRolledBack (restore a (fresh peers)).1)
  unfolding restore
  restore-Whole peers =
      roll_back-Whole (fresh peers) (restore_manifest a a.get_manifest (fresh peers))
        (restore_manifest-Tries a.get_manifest (fresh peers) refl (tt, λ _. refl))
