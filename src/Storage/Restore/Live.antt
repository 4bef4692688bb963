-- ===== src/Storage/Restore/Live.antt =====
-- The recovery of src/ldk/init.ts succeeds where all that it needs answers.
use browser_wallet.Prelude.{
  ℕ, zero, suc, ◌+◌, ◌≡◌, refl, ap, ◌∙◌, true, false, not, ◌&&◌, ◌||◌, Option, none, some, List, [],
  ◌∷◌, length, ltb, arith,
}
use browser_wallet.Prelude.Hex.{list_eq_self}
use browser_wallet.Storage.Remote.{Bytes, Result, ok, err}
use browser_wallet.Storage.Manifest.{Key, has, parse_monitor_manifest}
use browser_wallet.Storage.Restore.{
  Local, fresh, Answers, first, behind, Tried, and_then, put, chunk_size, all_answered,
  store_object, store_chunk, chunks, put_peers, restore_peers, store_manager, restore_keys,
  restore_all, restore_manifest, roll_back, restore,
}

pub then_succeeds :
    (r : Tried) (k : Local → Tried)
    → r.0 ≡ true
    → ((m : Local) → (k m).0 ≡ true)
    → (and_then r k).0 ≡ true
then_succeeds (false, l) k e h = absurd (ground arith)
then_succeeds (true, l) k e h = h l

pub has-first : (n : ℕ) (ks : List Key) (j : Key) → has j (first n ks) ≡ true → has j ks ≡ true
unfolding has
has-first zero ks j h = absurd (ground arith)
has-first (suc n) [] j h = h
has-first (suc n) (k ∷ ks) j h = ground (arith, has-first n ks j)

pub has-behind : (n : ℕ) (ks : List Key) (j : Key) → has j (behind n ks) ≡ true → has j ks ≡ true
unfolding has
has-behind zero ks j h = h
has-behind (suc n) [] j h = h
has-behind (suc n) (k ∷ ks) j h = ground (arith, has-behind n ks j)

module _ (a : Answers) where
  -- VSS has the monitor, LDK reads it and IndexedDB takes it.
  abbrev pub IsServed : Key → Type 0
  IsServed k =
      (d : Bytes) × (v : ℕ) × (a.get_monitor k ≡ ok (some (d, v)))
      × ((a.readable d && a.puts_monitor k) ≡ true)

  abbrev pub AllServed : List Key → Type 0
  AllServed ks = (k : Key) → has k ks ≡ true → IsServed k

  pub object_succeeds :
      (k : Key) (l : Local) → IsServed k → (store_object a k (a.get_monitor k) l).0 ≡ true
  object_succeeds k l (d, v, g, p) = rw (g, p) refl

  pub chunk_succeeds : (ks : List Key) (l : Local) → AllServed ks → (store_chunk a ks l).0 ≡ true
  unfolding store_chunk has
  chunk_succeeds [] l h = refl
  chunk_succeeds (k ∷ ks) l h =
      then_succeeds (store_object a k (a.get_monitor k) l) (store_chunk a ks)
        (object_succeeds k l (h k (ground (arith, list_eq_self k))))
        (λ m. chunk_succeeds ks m (λ j u. h j (ground arith)))

  pub chunk_answered : (ks : List Key) → AllServed ks → all_answered a ks ≡ true
  unfolding all_answered has
  chunk_answered [] h = refl
  chunk_answered (k ∷ ks) h =
      let (d, v, g, p) = h k (ground (arith, list_eq_self k)) in
      rw g (chunk_answered ks (λ j u. h j (ground arith)))

  pub chunks_succeed :
      (rounds asked : ℕ) (ks : List Key) (l : Local)
      → AllServed ks
      → ((n : ℕ) → a.late n ≡ false)
      → (chunks a rounds asked ks l).0 ≡ true
  unfolding chunks
  chunks_succeed zero asked ks l h t = refl
  chunks_succeed (suc n) asked [] l h t = refl
  chunks_succeed (suc n) asked (k ∷ ks) l h t =
      let chunk_served : AllServed (first chunk_size (k ∷ ks)) =
        λ j u. h j (has-first chunk_size (k ∷ ks) j u) in
      rw (t asked, chunk_answered (first chunk_size (k ∷ ks)) chunk_served)
        (then_succeeds (store_chunk a (first chunk_size (k ∷ ks)) l)
          (chunks a n (asked + chunk_size) (behind chunk_size (k ∷ ks)))
          (chunk_succeeds (first chunk_size (k ∷ ks)) l chunk_served)
          (λ m.
            chunks_succeed n (asked + chunk_size) (behind chunk_size (k ∷ ks)) m
              (λ j u. h j (has-behind chunk_size (k ∷ ks) j u)) t))

  abbrev pub IsManagerServed : Result (Option (Bytes × ℕ)) → Type 0
  IsManagerServed (err e) = ⊥
  IsManagerServed (ok none) = ⊥
  IsManagerServed (ok (some (d, v))) = (ltb (length d) 32 || not a.puts_manager) ≡ false

  pub manager_succeeds :
      (x : Result (Option (Bytes × ℕ))) (l : Local)
      → IsManagerServed x
      → (store_manager a x l).0 ≡ true
  manager_succeeds (err e) l h = absurd h
  manager_succeeds (ok none) l h = absurd h
  manager_succeeds (ok (some (d, v))) l h = rw h refl

  abbrev pub PeersServed : Result (Option (Bytes × ℕ)) → Type 0
  PeersServed (err e) = ⊥
  PeersServed (ok none) = Unit
  PeersServed (ok (some (d, v))) = (ps : List (Key × Bytes)) × (a.decode_peers d ≡ some ps)

  pub peers_put :
      (ps : List (Key × Bytes)) (l : Local)
      → ((k : Key) → a.puts_peer k ≡ true)
      → (put_peers a ps l).0 ≡ true
  unfolding put_peers
  peers_put [] l h = refl
  peers_put ((k, p) ∷ ps) l h = rw (h k) (peers_put ps (record l { peers = put k p l.peers }) h)

  pub peers_succeed :
      (x : Result (Option (Bytes × ℕ))) (l : Local)
      → PeersServed x
      → ((k : Key) → a.puts_peer k ≡ true)
      → (restore_peers a x l).0 ≡ true
  peers_succeed (err e) l s h = absurd s
  peers_succeed (ok none) l s h = refl
  peers_succeed (ok (some (d, v))) l (ps, p) h = rw p (
      then_succeeds (put_peers a ps l) (λ m. (true, record m { peers_version = some v }))
        (peers_put ps l h) (λ m. refl))

  pub restore_all_succeeds :
      (version : ℕ) (keys : List Key) (l : Local)
      → AllServed keys
      → ((n : ℕ) → a.late n ≡ false)
      → IsManagerServed a.get_manager
      → PeersServed a.get_peers
      → ((k : Key) → a.puts_peer k ≡ true)
      → (restore_all a version keys l).0 ≡ true
  unfolding restore_all
  restore_all_succeeds version keys l h t m s put_ok =
      then_succeeds (chunks a (length keys) 0 keys l) _ (chunks_succeed (length keys) 0 keys l h t)
        (λ l1.
          then_succeeds (store_manager a a.get_manager l1) _ (manager_succeeds a.get_manager l1 m)
            (λ l2.
              then_succeeds (restore_peers a a.get_peers l2) _
                (peers_succeed a.get_peers l2 s put_ok) (λ l3. refl)))

  roll_back_keeps : (r : Tried) → r.0 ≡ true → (roll_back a r).0 ≡ true
  unfolding roll_back
  roll_back_keeps (true, l) e = refl
  roll_back_keeps (false, l) e = absurd (ground arith)

  -- A browser with neither monitors nor a manager recovers successfully if VSS has a manifest that
  -- is accepted, each monitor that it lists is in VSS, can be read by LDK and is taken by IndexedDB,
  -- the time is never over, VSS has a manager of at least 32 bytes that IndexedDB takes, VSS has
  -- no list of peers or one that can be parsed, and IndexedDB takes each peer.
  pub restore_succeeds :
      (peers : List (Key × Bytes)) (value : Bytes) (version : ℕ) (keys : List Key)
      → a.get_manifest ≡ ok (some (value, version))
      → parse_monitor_manifest (a.decode value) ≡ some keys
      → AllServed keys
      → ((n : ℕ) → a.late n ≡ false)
      → IsManagerServed a.get_manager
      → PeersServed a.get_peers
      → ((k : Key) → a.puts_peer k ≡ true)
      → (restore a (fresh peers)).0 ≡ true
  unfolding restore
  restore_succeeds peers value version keys g p h t m s put_ok =
      roll_back_keeps (restore_manifest a a.get_manifest (fresh peers)) (
        ap (λ x. (restore_manifest a x (fresh peers)).0) g
        ∙ ap (λ o. (restore_keys a version o (fresh peers)).0) p
        ∙ restore_all_succeeds version keys (fresh peers) h t m s put_ok)
