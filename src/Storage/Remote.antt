-- ===== src/Storage/Remote.antt =====
-- The two stores behind the persistence code, as an interface: the methods of `VssClient`
-- (src/ldk/storage/vss-client.ts) and `idbPut` of src/storage/idb.ts, over whatever the world holds.
use browser_wallet.Prelude.{ℕ, ◌+◌, String, ◌≡◌, ◌≢◌, refl, ◌⊎◌, inl, inr, Option, none, some, List}

abbrev pub Bytes : Type 0
Bytes = List ℕ

-- What a rejected promise carries: `conflict` where `isVssConflict` holds, `unavailable` otherwise.
pub data Failure : Type 0 where
  conflict unavailable : Failure

-- How a promise settles.
pub data Result {ℓ} (A : Type ℓ) : Type ℓ where
  ok : A → Result A
  err : Failure → Result A

pub Result-cases {ℓ} :
    {A : Type ℓ} (x : Result A) → ((a : A) × (x ≡ ok a)) ⊎ ((e : Failure) × (x ≡ err e))
Result-cases (ok a) = inl (a, refl)
Result-cases (err e) = inr (e, refl)

pub record Remote : Type 1 where
  pub World : Type 0
  pub put_object : String → Bytes → ℕ → World → Result ℕ × World
  pub get_object : String → World → Result (Option (Bytes × ℕ)) × World
  pub idb_put : String → Bytes → World → Result (Unit {0}) × World

-- What the calls promise about the object that the server holds under a key, with its version,
-- and the value in the local store. Another device may write while a VSS call is under way.
pub record IsFaithful (r : Remote) : Type 0 where
  pub held : r.World → String → Option (Bytes × ℕ)
  pub kept : r.World → String → Option Bytes
  pub put_stores :
      (k : String) (d : Bytes) (v v' : ℕ) (w : r.World)
      → (r.put_object k d v w).0 ≡ ok v'
      → held (r.put_object k d v w).1 k ≡ some (d, v')
  pub get_reads :
      (k : String) (o : Option (Bytes × ℕ)) (w : r.World)
      → (r.get_object k w).0 ≡ ok o
      → held (r.get_object k w).1 k ≡ o
  pub idb_stores :
      (k : String) (d : Bytes) (w : r.World)
      → (r.idb_put k d w).0 ≡ ok tt
      → kept (r.idb_put k d w).1 k ≡ some d
  pub idb_fails :
      (k : String) (d : Bytes) (e : Failure) (w : r.World)
      → (r.idb_put k d w).0 ≡ err e
      → kept (r.idb_put k d w).1 k ≡ kept w k
  pub idb_is_local :
      (k j : String) (d : Bytes) (w : r.World) → held (r.idb_put k d w).1 j ≡ held w j
  pub put_is_remote :
      (k j : String) (d : Bytes) (v : ℕ) (w : r.World) → kept (r.put_object k d v w).1 j ≡ kept w j
  pub get_is_remote : (k j : String) (w : r.World) → kept (r.get_object k w).1 j ≡ kept w j

-- The version under which VSS takes the next write of a key: 0 where it has no object.
abbrev pub version : Option (Bytes × ℕ) → ℕ
version none = 0
version (some (d, v)) = v

-- A VSS service that answers while nobody else writes: it takes a write under the current version,
-- makes that version one greater, and refuses any other as a conflict.
pub record IsUp {r : Remote} (f : IsFaithful r) : Type 1 where
  pub Up : r.World → Type 0
  pub put_accepts :
      (k : String) (d : Bytes) (v : ℕ) (w : r.World)
      → Up w
      → v ≡ version (f.held w k)
      → ((r.put_object k d v w).0 ≡ ok (v + 1)) × Up (r.put_object k d v w).1
  pub put_conflicts :
      (k : String) (d : Bytes) (v : ℕ) (w : r.World)
      → Up w
      → v ≢ version (f.held w k)
      → ((r.put_object k d v w).0 ≡ err conflict)
        × Up (r.put_object k d v w).1
        × (f.held (r.put_object k d v w).1 k ≡ f.held w k)
  pub get_answers :
      (k : String) (w : r.World)
      → Up w
      → ((r.get_object k w).0 ≡ ok (f.held w k)) × Up (r.get_object k w).1
  pub idb_accepts : (k : String) (d : Bytes) (w : r.World) → Up w → (r.idb_put k d w).0 ≡ ok tt
