-- ===== src/Storage/Solo.antt =====
-- A VSS service and an IndexedDB that always answer and that nobody else uses: the laws of
-- `Storage.Remote` can be met. Tests run on it.
use browser_wallet.Prelude.{ℕ, ◌+◌, String, ◌≡◌, ◌≢◌, refl, some, arith, ◌==◌, if◌then◌else◌}
use browser_wallet.Prelude.Map
use browser_wallet.Prelude.Map.{Map, get-set_self}
use browser_wallet.Storage.Remote.{
  Bytes, Failure, conflict, Result, ok, err, Remote, IsFaithful, IsUp, version,
}

pub record Stores : Type 0 where
  pub server : Map (Bytes × ℕ)
  pub disk : Map Bytes

abbrev pub put_object : String → Bytes → ℕ → Stores → Result ℕ × Stores
put_object k d v w =
    if v == version (Map.get k w.server)
    then (ok (v + 1), record w { server = Map.set k (d, v + 1) w.server })
    else (err conflict, w)

abbrev pub solo : Remote
solo = record {
  World = Stores;
  put_object = put_object;
  get_object = λ k w. (ok (Map.get k w.server), w);
  idb_put = λ k d w. (ok tt, record w { disk = Map.set k d w.disk });
}

pub ok_injective {ℓ} : {A : Type ℓ} {a b : A} → ok a ≡ ok b → a ≡ b
ok_injective e = cc

pub put_stores :
    (k : String) (d : Bytes) (v v' : ℕ) (w : Stores)
    → (put_object k d v w).0 ≡ ok v'
    → Map.get k (put_object k d v w).1.server ≡ some (d, v')
put_stores k d v v' w = ground (arith, get-set_self k (d, v + 1) w.server)

pub put_is_remote :
    (k j : String) (d : Bytes) (v : ℕ) (w : Stores)
    → Map.get j (put_object k d v w).1.disk ≡ Map.get j w.disk
put_is_remote k j d v w = ground arith

pub idb_accepts_all :
    (k : String) (d : Bytes) (x : Failure) (w : Stores)
    → (solo.idb_put k d w).0 ≡ err x
    → Map.get k (solo.idb_put k d w).1.disk ≡ Map.get k w.disk
idb_accepts_all k d x w e = cc

abbrev pub solo-IsFaithful : IsFaithful solo
solo-IsFaithful = record {
  held = λ w k. Map.get k w.server;
  kept = λ w k. Map.get k w.disk;
  put_stores = put_stores;
  get_reads = λ k o w e. ok_injective e;
  idb_stores = λ k d w e. get-set_self k d w.disk;
  idb_fails = idb_accepts_all;
  idb_is_local = λ k j d w. refl;
  put_is_remote = put_is_remote;
  get_is_remote = λ k j w. refl;
}

pub put_accepts :
    (k : String) (d : Bytes) (v : ℕ) (w : Stores)
    → Unit {0}
    → v ≡ version (Map.get k w.server)
    → ((put_object k d v w).0 ≡ ok (v + 1)) × Unit {0}
put_accepts k d v w u e = ground arith

pub put_conflicts :
    (k : String) (d : Bytes) (v : ℕ) (w : Stores)
    → Unit {0}
    → v ≢ version (Map.get k w.server)
    → ((put_object k d v w).0 ≡ err conflict)
      × Unit {0}
      × (Map.get k (put_object k d v w).1.server ≡ Map.get k w.server)
put_conflicts k d v w u e = ground arith

abbrev pub solo-IsUp : IsUp solo-IsFaithful
solo-IsUp = record {
  Up = λ _. Unit;
  put_accepts = put_accepts;
  put_conflicts = put_conflicts;
  get_answers = λ k w u. (refl, tt);
  idb_accepts = λ k d w u. refl;
}
