-- ===== src/Storage/Vss/Refines.antt =====
-- The client of src/ldk/storage/vss-client.ts, over a server that keeps what it says, is a store as
-- `Storage.Remote` describes it: the code that is proved against that interface runs on this client.
use browser_wallet.Prelude.{
  ℕ, ◌+◌, String, ◌≡◌, refl, ap, ◌∙◌, ◌⊎◌, inl, inr, Option, none, some, List, [], ◌∷◌, length,
  arith, ◌==◌, ==_iff, Bool-cases,
}
use browser_wallet.Storage.Remote.{Bytes, Failure, Result, ok, err, Remote, IsFaithful}
use browser_wallet.Storage.Vss.{
  Primitives, vss_encrypt, vss_decrypt, obfuscate_key, nonce_length, Reply, unreachable, responded,
  garbled, refused, ErrorCode, KeyValue, Service, Client, done, opened, read_object, send_object,
  get_object, put_object,
}
use browser_wallet.Storage.Vss.Framing.{IsCipher, framed_opens}

-- A local store in the world of a service, `idbPut`.
abbrev pub IdbPut : Service → Type 0
IdbPut s = String → Bytes → s.World → Result (Unit {0}) × s.World

-- What a service and a local store promise: what the server holds under a key of a store, and what the
-- local store holds, before and behind each call. Random bytes come in the number asked for.
pub record IsHonest (s : Service) (idb_put : IdbPut s) (store : String) : Type 0 where
  pub stored : s.World → List ℕ → Option (Bytes × ℕ)
  pub disk : s.World → String → Option Bytes
  pub draws : (n : ℕ) (w : s.World) → length (s.draw n w).0 ≡ n
  pub draw_keeps_disk : (n : ℕ) (w : s.World) (k : String) → disk (s.draw n w).1 k ≡ disk w k
  pub put_takes :
      (kv : KeyValue) (w : s.World)
      → ((s.put_objects store (kv ∷ []) w).0 ≡ responded tt)
        ⊎ ((s.put_objects store (kv ∷ []) w).0 ≡ garbled)
      → stored (s.put_objects store (kv ∷ []) w).1 kv.key ≡ some (kv.value, kv.version + 1)
  pub put_keeps_disk :
      (kv : KeyValue) (w : s.World) (k : String)
      → disk (s.put_objects store (kv ∷ []) w).1 k ≡ disk w k
  pub get_finds :
      (k : List ℕ) (kv : KeyValue) (w : s.World)
      → (s.get_object store k w).0 ≡ responded (some kv)
      → stored (s.get_object store k w).1 k ≡ some (kv.value, kv.version)
  pub get_misses :
      (k : List ℕ) (code : Option ErrorCode) (w : s.World)
      → ((s.get_object store k w).0 ≡ responded none)
        ⊎ ((s.get_object store k w).0 ≡ refused 404 code)
      → stored (s.get_object store k w).1 k ≡ none
  pub get_keeps_disk :
      (k : List ℕ) (w : s.World) (j : String) → disk (s.get_object store k w).1 j ≡ disk w j
  pub idb_stores :
      (k : String) (d : Bytes) (w : s.World)
      → (idb_put k d w).0 ≡ ok tt
      → disk (idb_put k d w).1 k ≡ some d
  pub idb_fails :
      (k : String) (d : Bytes) (e : Failure) (w : s.World)
      → (idb_put k d w).0 ≡ err e
      → disk (idb_put k d w).1 k ≡ disk w k
  pub idb_keeps_stored :
      (k : String) (j : List ℕ) (d : Bytes) (w : s.World) → stored (idb_put k d w).1 j ≡ stored w j

module _ (p : Primitives) (s : Service) (c : Client) (idb_put : IdbPut s) where
  -- The client and the local store, as the interface that the persistence code uses.
  abbrev pub client : Remote
  client = record {
    World = s.World;
    put_object = put_object p s c;
    get_object = get_object p s c;
    idb_put = idb_put;
  }

  -- The plaintext of an object on the server.
  abbrev pub plaintext_with : ℕ → Option Bytes → Option (Bytes × ℕ)
  plaintext_with v none = none
  plaintext_with v (some d) = some (d, v)

  abbrev pub plaintext : Option (Bytes × ℕ) → Option (Bytes × ℕ)
  plaintext none = none
  plaintext (some (blob, v)) = plaintext_with v (vss_decrypt p c.encryption_key blob)

  module _ (cipher : IsCipher p) (honest : IsHonest s idb_put c.store_id) where
    abbrev pub held : s.World → String → Option (Bytes × ℕ)
    held w k = plaintext (honest.stored w (obfuscate_key p c.encryption_key k))

    done-cases :
        {A : Type 0} (a b : A) (r : Reply (Unit {0}))
        → done a r ≡ ok b
        → (a ≡ b) × ((r ≡ responded tt) ⊎ (r ≡ garbled))
    done-cases a b unreachable e = absurd (ground arith)
    done-cases a b (responded _) e = (cc, inl refl)
    done-cases a b garbled e = (cc, inr refl)
    done-cases a b (refused n o) e = absurd (ground arith)

    send-stores :
        (k : String) (d nonce : Bytes) (v v' : ℕ) (o : Option Bytes) (w : s.World)
        → length nonce ≡ nonce_length
        → vss_encrypt p c.encryption_key nonce d ≡ o
        → (send_object p s c k v o w).0 ≡ ok v'
        → held (send_object p s c k v o w).1 k ≡ some (d, v')
    send-stores k d nonce v v' none w n e h = absurd (ground arith)
    send-stores k d nonce v v' (some blob) w n e h =
        let (same, taken) = done-cases (v + 1) v' _ h in
        let there =
          honest.put_takes
            (record { key = obfuscate_key p c.encryption_key k; version = v; value = blob }) w
            taken in
        rw there (
          rw (framed_opens p cipher c.encryption_key nonce d blob n e) (ap (λ x. some (d, x)) same))

    put-stores :
        (k : String) (d : Bytes) (v v' : ℕ) (w : s.World)
        → (put_object p s c k d v w).0 ≡ ok v'
        → held (put_object p s c k d v w).1 k ≡ some (d, v')
    unfolding put_object
    put-stores k d v v' w h =
        send-stores k d (s.draw nonce_length w).0 v v' _ (s.draw nonce_length w).1
          (honest.draws nonce_length w) refl h

    send_keeps_disk :
        (k j : String) (v : ℕ) (o : Option Bytes) (w : s.World)
        → honest.disk (send_object p s c k v o w).1 j ≡ honest.disk w j
    send_keeps_disk k j v none w = refl
    send_keeps_disk k j v (some blob) w = honest.put_keeps_disk _ w j

    put_is_remote :
        (k j : String) (d : Bytes) (v : ℕ) (w : s.World)
        → honest.disk (put_object p s c k d v w).1 j ≡ honest.disk w j
    unfolding put_object
    put_is_remote k j d v w =
        send_keeps_disk k j v _ (s.draw nonce_length w).1 ∙ honest.draw_keeps_disk nonce_length w j

    get_is_remote :
        (k j : String) (w : s.World) → honest.disk (get_object p s c k w).1 j ≡ honest.disk w j
    unfolding get_object
    get_is_remote k j w = honest.get_keeps_disk (obfuscate_key p c.encryption_key k) w j

    -- An object that was found, opened.
    found-reads :
        (k : List ℕ) (kv : KeyValue) (o : Option (Bytes × ℕ)) (w : s.World) (m : Option Bytes)
        → (s.get_object c.store_id k w).0 ≡ responded (some kv)
        → vss_decrypt p c.encryption_key kv.value ≡ m
        → opened p s c kv.version m ≡ ok o
        → plaintext (honest.stored (s.get_object c.store_id k w).1 k) ≡ o
    found-reads k kv o w none r e h = absurd (ground arith)
    found-reads k kv o w (some d) r e h = rw (honest.get_finds k kv w r) (rw e cc)

    reply-reads :
        (k : List ℕ) (o : Option (Bytes × ℕ)) (w : s.World) (r : Reply (Option KeyValue))
        → (s.get_object c.store_id k w).0 ≡ r
        → read_object p s c r ≡ ok o
        → plaintext (honest.stored (s.get_object c.store_id k w).1 k) ≡ o
    reply-reads k o w unreachable e h = absurd (ground arith)
    reply-reads k o w garbled e h = absurd (ground arith)
    reply-reads k o w (refused n code) e h = elim (Bool-cases (n == 404)) [
      | inl missing ↦
          (let same : n ≡ 404 = ground (arith, ==_iff n 404) in
            rw (honest.get_misses k code w (inr (e ∙ ap (λ m. refused m code) same)))
              (ground arith))
      | inr other ↦ absurd (ground arith)
    ]
    reply-reads k o w (responded none) e h = rw (honest.get_misses k none w (inl e)) cc
    reply-reads k o w (responded (some kv)) e h = found-reads k kv o w _ e refl h

    get-reads :
        (k : String) (o : Option (Bytes × ℕ)) (w : s.World)
        → (get_object p s c k w).0 ≡ ok o
        → held (get_object p s c k w).1 k ≡ o
    unfolding get_object
    get-reads k o w h = reply-reads (obfuscate_key p c.encryption_key k) o w _ refl h

    -- With a cipher that decrypts what it encrypted, and a server and a local store that keep what they
    -- say, `getObject` and `putObject` are faithful: an accepted write is what the server holds, in
    -- plain text and with the returned version, a read returns what it holds, and neither touches the
    -- local store.
    pub client_refines : (f : IsFaithful client) × (f.held ≡ held) × (f.kept ≡ honest.disk)
    client_refines = (faithful, refl, refl)
      where
        faithful : IsFaithful client
        faithful = record {
          held = held;
          kept = honest.disk;
          put_stores = put-stores;
          get_reads = get-reads;
          idb_stores = honest.idb_stores;
          idb_fails = honest.idb_fails;
          idb_is_local = λ k j d w.
              ap plaintext (honest.idb_keeps_stored k (obfuscate_key p c.encryption_key j) d w);
          put_is_remote = put_is_remote;
          get_is_remote = get_is_remote;
        }
