-- ===== src/Storage/Persist/Writes.antt =====
-- `write_both` on each of its branches (src/ldk/traits/persist.ts, the `try` of `persistWithRetry`).
use browser_wallet.Prelude.{ℕ, ◌≡◌, Bool, true, false, String, arith, refl, Option, none, some}
use browser_wallet.Prelude.Map
use browser_wallet.Storage.Remote.{Bytes, Failure, ok, err, Remote}
use browser_wallet.Storage.Persist.{
  Session, Retry, again, cached, idb_put, write_both, adopt, conclude, resolve, arrays_equal,
  signal_recovery, note, key_not_found, resolve_failed, true_conflict,
}

module _ {r : Remote} (key : String) (value : Bytes) (s : Session r) where
  -- The session after a write that VSS accepts with the new version `v`.
  abbrev pub accepted : ℕ → Session r
  accepted v = record s {
    cache = Map.set key v s.cache;
    world = (r.put_object key value (cached key s) s.world).1;
  }

  -- The session after a write that it refuses.
  abbrev pub refused : Session r
  refused = record s { world = (r.put_object key value (cached key s) s.world).1 }

  pub write_both-local : write_both false key value s ≡ idb_put key value s
  unfolding write_both
  write_both-local = ground arith

  pub write_both-accepted :
      (v : ℕ)
      → (r.put_object key value (cached key s) s.world).0 ≡ ok v
      → write_both true key value s ≡ idb_put key value (accepted v)
  unfolding write_both
  write_both-accepted v e = ground arith

  pub write_both-refused :
      (x : Failure)
      → (r.put_object key value (cached key s) s.world).0 ≡ err x
      → write_both true key value s ≡ (err x, refused)
  unfolding write_both
  write_both-refused x e = ground arith

-- The conflict branch, likewise.
module _ {r : Remote} (vss : Bool) (key : String) (value : Bytes) (t : Retry) (s : Session r) where
  -- The session after VSS was asked for the object.
  abbrev pub asked : Session r
  asked = record s { world = (r.get_object key s.world).1 }

  pub resolve-answered :
      (o : Option (Bytes × ℕ))
      → (r.get_object key s.world).0 ≡ ok o
      → resolve vss key value t s ≡ conclude vss key value t (adopt vss key value t o asked)
  unfolding resolve
  resolve-answered o e = ground arith

  pub resolve-unanswered :
      (x : Failure)
      → (r.get_object key s.world).0 ≡ err x
      → resolve vss key value t s ≡ (again t, note resolve_failed asked)
  unfolding resolve
  resolve-unanswered x e = ground arith

  module _ (theirs : Bytes) (v : ℕ) where
    -- The session with the server's version in the cache.
    abbrev pub corrected : Session r
    corrected = record s { cache = Map.set key v s.cache }

    abbrev pub copied : Session r
    copied = record corrected { world = (r.idb_put key value s.world).1 }

    pub adopt-copied :
        (u : Unit {0})
        → arrays_equal theirs value ≡ true
        → (r.idb_put key value s.world).0 ≡ ok u
        → adopt vss key value t (some (theirs, v)) s ≡ (ok true, (signal_recovery t copied).1)
    unfolding adopt
    adopt-copied u p e = ground arith

    pub adopt-failed :
        (x : Failure)
        → arrays_equal theirs value ≡ true
        → (r.idb_put key value s.world).0 ≡ err x
        → adopt vss key value t (some (theirs, v)) s ≡ (err x, copied)
    unfolding adopt
    adopt-failed x p e = ground arith

    pub adopt-different :
        arrays_equal theirs value ≡ false
        → adopt vss key value t (some (theirs, v)) s ≡ (ok false, note (true_conflict v) corrected)
    unfolding adopt
    adopt-different p = ground arith

  pub adopt-missing :
      adopt vss key value t none s
      ≡ (ok false, note key_not_found (record s { cache = Map.set key 0 s.cache }))
  unfolding adopt
  adopt-missing = refl
