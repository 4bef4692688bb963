-- ===== src/Storage/Recovery/Kept.antt =====
-- What the stores hold after `writeRecoveryState` of src/ldk/recovery/recovery-state.ts.
use browser_wallet.Prelude.{
  ◌≡◌, ◌≢◌, refl, ap, sym, ◌∙◌, Bool, true, false, if◌then◌else◌, Option, some, inl, inr,
}
use native.Mathlib.Decide.{ℕ_discrete}
use browser_wallet.Storage.Remote.{
  Bytes, conflict, unavailable, Result, ok, err, Result-cases, Remote, IsFaithful, IsUp, version,
}
use browser_wallet.Storage.Recovery.{
  Recovery, vss_key, idb_key, take_version, put_state, give_up, retry, on_vss_failure, behind_idb,
  write_recovery_state,
}

module _ {r : Remote} (f : IsFaithful r) (state : Bytes) where
  abbrev pub Local : Option Bytes → Recovery r → Type 0
  Local o s = f.kept s.world idb_key ≡ o

  put_state-Local : (o : Option Bytes) (s : Recovery r) → Local o s → Local o (put_state state s).1
  unfolding put_state take_version
  put_state-Local o s h =
      let same = f.put_is_remote vss_key idb_key state s.vss_version s.world ∙ h in
      elim (Result-cases (r.put_object vss_key state s.vss_version s.world).0) [
        | inl (v, e) ↦ rw e same
        | inr (x, e) ↦ rw e same
      ]

  give_up-Local :
      (o : Option Bytes) (x : Result (Unit {0}) × Recovery r) → Local o x.1 → Local o (give_up x)
  unfolding give_up
  give_up-Local o (ok _, s) h = h
  give_up-Local o (err _, s) h = h

  failure-Local :
      (o : Option Bytes) (x : Result (Unit {0}) × Recovery r)
      → Local o x.1
      → Local o (on_vss_failure state x)
  unfolding on_vss_failure retry
  failure-Local o (ok _, s) h = h
  failure-Local o (err unavailable, s) h = h
  failure-Local o (err conflict, s) h =
      let same = f.get_is_remote vss_key idb_key s.world ∙ h in
      elim (Result-cases (r.get_object vss_key s.world).0) [
        | inl (a, e) ↦ rw e (give_up-Local o _ (put_state-Local o _ same))
        | inr (x, e) ↦ rw e same
      ]

  linked-Local :
      (linked : Bool) (o : Option Bytes) (s : Recovery r)
      → Local o s
      → Local o (if linked then on_vss_failure state (put_state state s) else s)
  linked-Local true o s h = failure-Local o (put_state state s) (put_state-Local o s h)
  linked-Local false o s h = h

  -- A call that returns has stored the state in IndexedDB; one that throws has left the copy there.
  abbrev pub Kept : Option Bytes → Result (Unit {0}) × Recovery r → Type 0
  Kept before (ok _, s) = Local (some state) s
  Kept before (err _, s) = Local before s

  -- Whatever VSS does, the call succeeds exactly if IndexedDB takes the write; then the state is in
  -- IndexedDB, and otherwise the copy there is the old one.
  pub write_recovery_state-Kept :
      (linked : Bool) (s : Recovery r)
      → ((write_recovery_state linked state s).0 ≡ (r.idb_put idb_key state s.world).0)
        × Kept (f.kept s.world idb_key) (write_recovery_state linked state s)
  unfolding write_recovery_state behind_idb
  write_recovery_state-Kept linked s = elim (Result-cases (r.idb_put idb_key state s.world).0) [
    | inl (u, e) ↦ rw e (refl, linked-Local linked _ _ (f.idb_stores idb_key state s.world e))
    | inr (x, e) ↦ rw e (refl, f.idb_fails idb_key state x s.world e)
  ]

module _ {r : Remote} {f : IsFaithful r} (up : IsUp f) (state : Bytes) where
  -- VSS holds the state, under the version that the module remembers.
  abbrev pub Remembered : Recovery r → Type 0
  Remembered s = f.held s.world vss_key ≡ some (state, s.vss_version)

  abbrev Sent : Result (Unit {0}) × Recovery r → Type 0
  Sent (x, s) = (x ≡ ok tt) × Remembered s

  put_state-Sent :
      (s : Recovery r)
      → up.Up s.world
      → s.vss_version ≡ version (f.held s.world vss_key)
      → Sent (put_state state s)
  unfolding put_state take_version
  put_state-Sent s h c =
      let (e, _) = up.put_accepts vss_key state s.vss_version s.world h c in
      rw e (refl, f.put_stores vss_key state s.vss_version _ s.world e)

  accepted-Remembered :
      (x : Result (Unit {0}) × Recovery r) → Sent x → Remembered (on_vss_failure state x)
  unfolding on_vss_failure
  accepted-Remembered (ok u, s) (e, h) = h
  accepted-Remembered (err x, s) (e, h) = cc e

  give_up-Remembered : (x : Result (Unit {0}) × Recovery r) → Sent x → Remembered (give_up x)
  unfolding give_up
  give_up-Remembered (ok u, s) (e, h) = h
  give_up-Remembered (err x, s) (e, h) = cc

  mended : (s : Recovery r) → up.Up s.world → Remembered (on_vss_failure state (err conflict, s))
  unfolding on_vss_failure retry
  mended s h =
      let (e, up') = up.get_answers vss_key s.world h in
      rw e (
        give_up-Remembered _ (
          put_state-Sent _ up'
            (ap version (sym (f.get_reads vss_key (f.held s.world vss_key) s.world e)))))

  conflicting :
      (s : Recovery r)
      → up.Up s.world
      → s.vss_version ≢ version (f.held s.world vss_key)
      → Remembered (on_vss_failure state (put_state state s))
  unfolding put_state take_version
  conflicting s h n =
      let (e, up', _) = up.put_conflicts vss_key state s.vss_version s.world h n in
      rw e (mended _ up')

  -- While VSS answers and nobody else writes, the state is in VSS after the call, whatever version was
  -- remembered before, and its version is the one remembered afterwards.
  pub write_recovery_state-Remembered :
      (s : Recovery r)
      → (r.idb_put idb_key state s.world).0 ≡ ok tt
      → up.Up (r.idb_put idb_key state s.world).1
      → Remembered (write_recovery_state true state s).1
  unfolding write_recovery_state behind_idb
  write_recovery_state-Remembered s e h =
      let s' : Recovery r = record s { world = (r.idb_put idb_key state s.world).1 } in
      rw e (elim (ℕ_discrete s.vss_version (version (f.held s'.world vss_key))) [
        | yes c ↦ accepted-Remembered (put_state state s') (put_state-Sent s' h c)
        | no n ↦ conflicting s' h n
      ])
