-- ===== src/Storage/Manager.antt =====
-- src/ldk/storage/persist-cm.ts: the channel manager is written to VSS and then to IndexedDB. A
-- conflict is mended once; any other failure is thrown to the caller, which tries again later.
pub mod Kept
pub mod Mended
mod Tests
use browser_wallet.Prelude.{ℕ, String, Bool, true, false, Option, none, some, if◌then◌else◌}
use browser_wallet.Storage.Remote.{
  Bytes, Failure, conflict, unavailable, Result, ok, err, Remote, version,
}

abbrev pub cm_vss_key : String
cm_vss_key = "channel_manager"

-- The store and the key in IndexedDB.
abbrev pub cm_idb_key : String
cm_idb_key = "ldk_channel_manager/primary"

module _ (r : Remote) where
  -- `cmVersionRef`, and what the stores are.
  pub record Manager : Type 0 where
    pub current : ℕ
    pub world : r.World

  abbrev pub Written : Type 0
  Written = Result (Unit {0}) × Manager

module _ {r : Remote} where
  pub set_current : Result ℕ → Manager r → Written r
  set_current (ok v) s = (ok tt, record s { current = v })
  set_current (err e) s = (err e, s)

  pub attempt : Bytes → Manager r → Written r
  unfolding set_current
  attempt bytes s =
      let (x, w) = r.put_object cm_vss_key bytes s.current s.world in
      set_current x (record s { world = w })

  -- `serverObj ? serverObj.version : 0`, and the second attempt.
  pub put_again : Bytes → Result (Option (Bytes × ℕ)) → Manager r → Written r
  unfolding attempt
  put_again bytes (ok o) s = attempt bytes (record s { current = version o })
  put_again bytes (err e) s = (err e, s)

  pub mend : Bytes → Manager r → Written r
  unfolding put_again
  mend bytes s =
      let (x, w) = r.get_object cm_vss_key s.world in put_again bytes x (record s { world = w })

  -- The `catch` block.
  pub on_rejection : Bytes → Written r → Written r
  unfolding mend
  on_rejection bytes (ok _, s) = (ok tt, s)
  on_rejection bytes (err conflict, s) = mend bytes s
  on_rejection bytes (err unavailable, s) = (err unavailable, s)

  -- What follows a write to VSS: the write to IndexedDB, or the exception.
  pub then_local : Bytes → Written r → Written r
  then_local bytes (ok _, s) =
      let (x, w) = r.idb_put cm_idb_key bytes s.world in (x, record s { world = w })
  then_local bytes (err e, s) = (err e, s)

  -- `linked`: there are a VSS client and a version reference.
  pub persist_channel_manager : Bool → Bytes → Manager r → Written r
  unfolding on_rejection then_local
  persist_channel_manager linked bytes s =
      then_local bytes (if linked then on_rejection bytes (attempt bytes s) else (ok tt, s))

  pub persist_channel_manager_idb_only : Bytes → Manager r → Written r
  unfolding then_local
  persist_channel_manager_idb_only bytes s = then_local bytes (ok tt, s)
