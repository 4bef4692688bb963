-- ===== src/Storage/Manager/Kept.antt =====
-- What the stores hold after `persistChannelManager` of src/ldk/storage/persist-cm.ts.
use browser_wallet.Prelude.{◌≡◌, refl, ◌∙◌, Bool, true, false, Option, some, inl, inr}
use browser_wallet.Storage.Remote.{
  Bytes, conflict, unavailable, ok, err, Result-cases, Remote, IsFaithful,
}
use browser_wallet.Storage.Manager.{
  cm_vss_key, cm_idb_key, Manager, Written, set_current, attempt, put_again, mend, on_rejection,
  then_local, persist_channel_manager,
}

module _ {r : Remote} (f : IsFaithful r) (bytes : Bytes) where
  -- The server holds the bytes, under the version that the reference has.
  abbrev pub Remembered : Manager r → Type 0
  Remembered s = f.held s.world cm_vss_key ≡ some (bytes, s.current)

  pub record Stored (linked : Bool) (s : Manager r) : Type 0 where
    pub local : f.kept s.world cm_idb_key ≡ some bytes
    pub remote : linked ≡ true → Remembered s

  -- A call that succeeds has stored the bytes; one that throws has not touched the local copy.
  abbrev pub Kept : Bool → Option Bytes → Written r → Type 0
  Kept linked before (ok _, s) = Stored linked s
  Kept linked before (err _, s) = f.kept s.world cm_idb_key ≡ before

  abbrev Sent : Bool → Option Bytes → Written r → Type 0
  Sent linked before (ok _, s) =
      (f.kept s.world cm_idb_key ≡ before) × (linked ≡ true → Remembered s)
  Sent linked before (err _, s) = f.kept s.world cm_idb_key ≡ before

  attempt-Sent :
      (before : Option Bytes) (s : Manager r)
      → f.kept s.world cm_idb_key ≡ before
      → Sent true before (attempt bytes s)
  unfolding attempt set_current
  attempt-Sent before s h =
      let same = f.put_is_remote cm_vss_key cm_idb_key bytes s.current s.world ∙ h in
      elim (Result-cases (r.put_object cm_vss_key bytes s.current s.world).0) [
        | inl (v, e) ↦ rw e (same, λ _. f.put_stores cm_vss_key bytes s.current v s.world e)
        | inr (x, e) ↦ rw e same
      ]

  mend-Sent :
      (before : Option Bytes) (s : Manager r)
      → f.kept s.world cm_idb_key ≡ before
      → Sent true before (mend bytes s)
  unfolding mend put_again
  mend-Sent before s h =
      let same = f.get_is_remote cm_vss_key cm_idb_key s.world ∙ h in
      elim (Result-cases (r.get_object cm_vss_key s.world).0) [
        | inl (o, e) ↦ rw e (attempt-Sent before _ same)
        | inr (x, e) ↦ rw e same
      ]

  on_rejection-Sent :
      (before : Option Bytes) (x : Written r)
      → Sent true before x
      → Sent true before (on_rejection bytes x)
  unfolding on_rejection
  on_rejection-Sent before (ok u, s) h = h
  on_rejection-Sent before (err conflict, s) h = mend-Sent before s h
  on_rejection-Sent before (err unavailable, s) h = h

  then_local-Kept :
      (linked : Bool) (before : Option Bytes) (x : Written r)
      → Sent linked before x
      → Kept linked before (then_local bytes x)
  unfolding then_local
  then_local-Kept linked before (err e, s) h = h
  then_local-Kept linked before (ok u, s) (h, sent) =
      elim (Result-cases (r.idb_put cm_idb_key bytes s.world).0) [
        | inl (_, e) ↦ rw e (record {
          local = f.idb_stores cm_idb_key bytes s.world e;
          remote = λ p. f.idb_is_local cm_idb_key cm_vss_key bytes s.world ∙ sent p;
        })
        | inr (x, e) ↦ rw e (f.idb_fails cm_idb_key bytes x s.world e ∙ h)
      ]

  -- A call that succeeds has stored the bytes in IndexedDB and, with a client, in VSS, where their
  -- version is the one that the next call will use. One that throws has left the local copy as it
  -- was.
  pub persist_channel_manager-Kept :
      (linked : Bool) (s : Manager r)
      → Kept linked (f.kept s.world cm_idb_key) (persist_channel_manager linked bytes s)
  unfolding persist_channel_manager
  persist_channel_manager-Kept true s =
      then_local-Kept true _ _
        (on_rejection-Sent _ _ (attempt-Sent (f.kept s.world cm_idb_key) s refl))
  persist_channel_manager-Kept false s = then_local-Kept false _ (ok tt, s) (refl, λ p. cc)
