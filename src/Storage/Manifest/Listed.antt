-- ===== src/Storage/Manifest/Listed.antt =====
-- What the manifest of src/ldk/traits/persist.ts lists after a write.
use browser_wallet.Prelude.{
  ℕ, ◌≡◌, refl, inl, inr, Bool, true, ◌||◌, Option, none, some, List, [], ◌∷◌, arith,
}
use browser_wallet.Prelude.Hex.{list_eq, list_eq→eq}
use browser_wallet.Storage.Remote.{
  Bytes, conflict, unavailable, Result, ok, err, Result-cases, Remote, IsFaithful,
}
use browser_wallet.Storage.Manifest.{
  Key, monitor_manifest_key, has, add, add_all, parse_monitor_manifest, Manifest, noted, put,
  merged, put_merged, after_read, write_manifest, or_zero,
}

has-add : (j k : Key) (keys : List Key) → has j (add k keys) ≡ (list_eq k j || has j keys)
unfolding has add
has-add j k [] = refl
has-add j k (i ∷ keys) = ground (arith, has-add j k keys, list_eq→eq i k)

pub has-add_all :
    (j : Key) (ks keys : List Key) → has j (add_all ks keys) ≡ (has j ks || has j keys)
unfolding has add_all
has-add_all j [] keys = refl
has-add_all j (k ∷ ks) keys = ground (arith, has-add_all j ks (add k keys), has-add j k keys)

module _ {r : Remote} (f : IsFaithful r) (encode : List Key → Bytes)
    (decode : Bytes → Option (List (Option Key))) where
  -- The server has the keys, under the cached version.
  abbrev pub IsWritten : Manifest r → Type 0
  IsWritten m =
      (v : ℕ) × (m.cached ≡ some v)
      × (f.held m.world monitor_manifest_key ≡ some (encode m.keys, v))

  -- What holds behind a write that began with some keys.
  abbrev pub Wrote : List Key → Bool × Manifest r → Type 0
  Wrote keys x =
      (x.0 ≡ true → IsWritten x.1) × ((k : Key) → has k keys ≡ true → has k x.1.keys ≡ true)

  noted-Wrote :
      (v : ℕ) (keys : List Key) (m : Manifest r)
      → ((k : Key) → has k keys ≡ true → has k m.keys ≡ true)
      → Wrote keys (noted (put encode decode v m).0 (put encode decode v m).1)
  unfolding put
  noted-Wrote v keys m h =
      elim (Result-cases (r.put_object monitor_manifest_key (encode m.keys) v m.world).0) [
        | inl (v', e) ↦
            rw e (
              (λ _. (v', refl, f.put_stores monitor_manifest_key (encode m.keys) v v' m.world e)),
              h,
            )
        | inr (x, e) ↦ rw e ((λ p. absurd (ground arith)), h)
      ]

  merged-has :
      (o : Option (List Key)) (keys : List Key) (k : Key)
      → has k keys ≡ true
      → has k (merged o keys) ≡ true
  merged-has none keys k h = h
  merged-has (some ks) keys k h = ground (arith, has-add_all k ks keys)

  put_merged-Wrote :
      (value : Bytes) (version : ℕ) (keys : List Key) (m : Manifest r)
      → ((k : Key) → has k keys ≡ true → has k m.keys ≡ true)
      → Wrote keys (put_merged encode decode value version m)
  unfolding put_merged
  put_merged-Wrote value version keys m h =
      noted-Wrote version keys
        (record m {
          keys = merged (parse_monitor_manifest (decode value)) m.keys;
          cached = some version;
        })
        (λ k there. merged-has (parse_monitor_manifest (decode value)) m.keys k (h k there))

  after_read-Wrote :
      (x : Result (Option (Bytes × ℕ))) (keys : List Key) (m : Manifest r)
      → ((k : Key) → has k keys ≡ true → has k m.keys ≡ true)
      → Wrote keys (after_read encode decode x m)
  after_read-Wrote (ok (some (value, version))) keys m h = put_merged-Wrote value version keys m h
  after_read-Wrote (ok none) keys m h = ((λ p. absurd (ground arith)), h)
  after_read-Wrote (err e) keys m h = ((λ p. absurd (ground arith)), h)

  -- A manifest that was written is on the server, under the version that is cached; whether or not it was
  -- written, no key that was tracked before has been dropped.
  pub write_manifest-Wrote : (m : Manifest r) → Wrote m.keys (write_manifest encode decode m)
  unfolding write_manifest put
  write_manifest-Wrote m =
      elim (Result-cases
        (r.put_object monitor_manifest_key (encode m.keys) (or_zero m.cached) m.world).0) [
          | inl (v, e) ↦ rw e (
            (λ _. (
              v,
              refl,
              f.put_stores monitor_manifest_key (encode m.keys) (or_zero m.cached) v m.world e,
            )),
            λ k h. h,
          )
          | inr (conflict, e) ↦ rw e (after_read-Wrote _ m.keys _ (λ k h. h))
          | inr (unavailable, e) ↦ rw e ((λ p. absurd (ground arith)), λ k h. h)
        ]
