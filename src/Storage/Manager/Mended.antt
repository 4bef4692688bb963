-- ===== src/Storage/Manager/Mended.antt =====
-- `persistChannelManager` of src/ldk/storage/persist-cm.ts mends a stale version by itself.
use browser_wallet.Prelude.{◌≡◌, ◌≢◌, refl, ap, sym, true}
use native.Mathlib.Decide.{ℕ_discrete}
use browser_wallet.Storage.Remote.{Bytes, ok, err, Remote, IsFaithful, IsUp, version}
use browser_wallet.Storage.Manager.{
  cm_vss_key, cm_idb_key, Manager, Written, set_current, attempt, put_again, mend, on_rejection,
  then_local, persist_channel_manager,
}

module _ {r : Remote} {f : IsFaithful r} (up : IsUp f) (bytes : Bytes) where
  -- The write to VSS has succeeded, and the service still answers.
  abbrev Sent : Written r → Type 0
  Sent (x, s) = (x ≡ ok tt) × up.Up s.world

  attempt-Sent :
      (s : Manager r)
      → up.Up s.world
      → s.current ≡ version (f.held s.world cm_vss_key)
      → Sent (attempt bytes s)
  unfolding attempt set_current
  attempt-Sent s h c =
      let (e, up') = up.put_accepts cm_vss_key bytes s.current s.world h c in rw e (refl, up')

  mend-Sent : (s : Manager r) → up.Up s.world → Sent (mend bytes s)
  unfolding mend put_again
  mend-Sent s h =
      let (e, up') = up.get_answers cm_vss_key s.world h in
      rw e (
        attempt-Sent _ up'
          (ap version (sym (f.get_reads cm_vss_key (f.held s.world cm_vss_key) s.world e))))

  accepted-Sent : (x : Written r) → Sent x → Sent (on_rejection bytes x)
  unfolding on_rejection
  accepted-Sent (ok u, s) (e, h) = (refl, h)
  accepted-Sent (err x, s) (e, h) = cc e

  conflict-Sent :
      (s : Manager r)
      → up.Up s.world
      → s.current ≢ version (f.held s.world cm_vss_key)
      → Sent (on_rejection bytes (attempt bytes s))
  unfolding attempt set_current on_rejection
  conflict-Sent s h n =
      let (e, up', _) = up.put_conflicts cm_vss_key bytes s.current s.world h n in
      rw e (mend-Sent _ up')

  sent : (s : Manager r) → up.Up s.world → Sent (on_rejection bytes (attempt bytes s))
  sent s h = elim (ℕ_discrete s.current (version (f.held s.world cm_vss_key))) [
    | yes c ↦ accepted-Sent _ (attempt-Sent s h c)
    | no n ↦ conflict-Sent s h n
  ]

  saved : (x : Written r) → Sent x → (then_local bytes x).0 ≡ ok tt
  unfolding then_local
  saved (ok u, s) (e, h) = up.idb_accepts cm_idb_key bytes s.world h
  saved (err x, s) (e, h) = e

  -- While the service answers and nobody else writes, the call succeeds whatever version the
  -- reference has, also the 0 it starts from.
  pub persist_channel_manager_succeeds :
      (s : Manager r) → up.Up s.world → (persist_channel_manager true bytes s).0 ≡ ok tt
  unfolding persist_channel_manager
  persist_channel_manager_succeeds s h = saved _ (sent s h)
