-- ===== src/Storage/Manifest/Reread.antt =====
-- What `parseMonitorManifest` makes of the manifests that `writeManifest` writes
-- (src/ldk/traits/persist.ts), and what a write after an archival may write.
use browser_wallet.Prelude.{
  ℕ, suc, ◌+◌, ◌≡◌, ◌≢◌, Bool, refl, sym, ap, ◌∙◌, true, false, ◌||◌, Option, none, some, List, [],
  ◌∷◌, ◌++◌, map, length, ltb, ◌==◌, arith, if◌then◌else◌,
}
use browser_wallet.Prelude.Hex.{list_eq}
use browser_wallet.Storage.Remote.{Bytes, ok, Remote, IsFaithful, IsUp, version}
use browser_wallet.Storage.Manifest.{
  Key, is_monitor_key, has, add, add_all, remove, collect, parse_monitor_manifest,
  monitor_manifest_key, Manifest, put, put_merged, write_manifest, archive_channel, or_zero,
}
use browser_wallet.Storage.Manifest.Listed.{has-add_all}

-- No key stands among those before it or among `seen`.
abbrev pub IsFresh : List Key → List Key → Type 0
IsFresh [] seen = Unit
IsFresh (k ∷ ks) seen = (has k seen ≡ false) × IsFresh ks (seen ++ (k ∷ []))

abbrev pub AreMonitors : List Key → Type 0
AreMonitors [] = Unit
AreMonitors (k ∷ ks) = (is_monitor_key k ≡ true) × AreMonitors ks

add-fresh : (k : Key) (seen : List Key) → has k seen ≡ false → add k seen ≡ seen ++ (k ∷ [])
unfolding has add
add-fresh k [] h = refl
add-fresh k (j ∷ js) h =
    let other : list_eq j k ≡ false = ground arith in
    let rest : has k js ≡ false = ground arith in rw other (ap (λ xs. j ∷ xs) (add-fresh k js rest))

append_one : (seen keys : List Key) (k : Key) → (seen ++ (k ∷ [])) ++ keys ≡ seen ++ (k ∷ keys)
append_one [] keys k = refl
append_one (j ∷ seen) keys k = ap (λ xs. j ∷ xs) (append_one seen keys k)

append_none : (seen : List Key) → seen ++ [] ≡ seen
append_none [] = refl
append_none (j ∷ seen) = ap (λ xs. j ∷ xs) (append_none seen)

collect-fresh :
    (keys seen : List Key)
    → AreMonitors keys
    → IsFresh keys seen
    → collect (map some keys) seen ≡ some (seen ++ keys)
unfolding collect
collect-fresh [] seen m h = ap some (sym (append_none seen))
collect-fresh (k ∷ ks) seen (valid, m) (fresh, h) = rw valid (
    rw (add-fresh k seen fresh)
      (collect-fresh ks (seen ++ (k ∷ [])) m h ∙ ap some (append_one seen ks k)))

length-somes : (ks : List Key) → length (map some ks) ≡ length ks
length-somes [] = refl
length-somes (k ∷ ks) = ap suc (length-somes ks)

-- A manifest of different well-formed keys is read back as it was written, if it has between 1 and 1000
-- keys. One without keys, as it is written when the last channel is archived, or with more, is refused.
pub parse_monitor_manifest-written :
    (encode : List Key → Bytes) (decode : Bytes → Option (List (Option Key))) (keys : List Key)
    → decode (encode keys) ≡ some (map some keys)
    → AreMonitors keys
    → IsFresh keys []
    → parse_monitor_manifest (decode (encode keys))
      ≡ (if (length keys == 0) || ltb 1_000 (length keys) then none else some keys)
unfolding parse_monitor_manifest
parse_monitor_manifest-written encode decode [] json m h = rw json refl
parse_monitor_manifest-written encode decode (k ∷ ks) json m h =
    rw json (rw (collect-fresh (k ∷ ks) [] m h, length-somes ks) (ground arith))

module _ {r : Remote} {f : IsFaithful r} (up : IsUp f) (encode : List Key → Bytes)
    (decode : Bytes → Option (List (Option Key))) where
  -- A second write that VSS takes, with a key that the server's manifest lists.
  abbrev pub Returned : Key → Bool × Manifest r → Type 0
  Returned k x =
      (x.0 ≡ true)
      × (has k x.1.keys ≡ true)
      × (v : ℕ) × (x.1.cached ≡ some v)
      × (f.held x.1.world monitor_manifest_key ≡ some (encode x.1.keys, v))

  put_merged-Returned :
      (k : Key) (value : Bytes) (v : ℕ) (ks : List Key) (m : Manifest r)
      → up.Up m.world
      → f.held m.world monitor_manifest_key ≡ some (value, v)
      → parse_monitor_manifest (decode value) ≡ some ks
      → has k ks ≡ true
      → Returned k (put_merged encode decode value v m)
  unfolding put_merged put
  put_merged-Returned k value v ks m u there parsed listed =
      let joined : has k (add_all ks m.keys) ≡ true = ground (arith, has-add_all k ks m.keys) in
      let joint = encode (add_all ks m.keys) in
      let (taken, u') =
        up.put_accepts monitor_manifest_key joint v m.world u (ap version (sym there)) in
      rw (parsed, taken)
        (refl, joined, v + 1, refl, f.put_stores monitor_manifest_key joint v (v + 1) m.world taken)

  -- While VSS answers and nobody else writes: if the manifest's cached version is not the one on the
  -- server, and the server's manifest lists a monitor that is archived here, the write that follows the
  -- archival succeeds, the monitor is tracked again, and the manifest that the server then holds, under
  -- the cached version, is the one with it.
  pub archive_channel-returns :
      (k : Key) (m : Manifest r) (value : Bytes) (v : ℕ) (server_keys : List Key)
      → up.Up m.world
      → or_zero m.cached ≢ v
      → f.held m.world monitor_manifest_key ≡ some (value, v)
      → parse_monitor_manifest (decode value) ≡ some server_keys
      → has k server_keys ≡ true
      → Returned k (archive_channel encode decode k m)
  unfolding archive_channel write_manifest put
  archive_channel-returns k m value v server_keys u stale there parsed listed =
      let sent = encode (remove k m.keys) in
      let (refused, u1, same) =
        up.put_conflicts monitor_manifest_key sent (or_zero m.cached) m.world u (rw there stale) in
      let (found, u2) = up.get_answers monitor_manifest_key _ u1 in
      let read = found ∙ ap ok (same ∙ there) in
      rw (refused, read)
        (put_merged-Returned k value v server_keys _ u2
          (f.get_reads monitor_manifest_key (some (value, v)) _ read) parsed listed)
