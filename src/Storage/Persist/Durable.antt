-- ===== src/Storage/Persist/Durable.antt =====
-- What has been stored when `persistWithRetry` of src/ldk/traits/persist.ts returns. The caller
-- then tells LDK that the monitor is safe (`channel_monitor_updated`).
use browser_wallet.Prelude.{
  ℕ, ◌+◌, ◌≡◌, Bool, true, false, String, arith, Option, none, some, [], ◌∷◌, Bool-cases, inl, inr,
  Bool-cases, ◌∙◌, refl, ltb, ◌&&◌,
}
use browser_wallet.Storage.Remote.{
  Bytes, Failure, Result, ok, err, Remote, IsFaithful, Result-cases,
}
use browser_wallet.Storage.Persist.{
  Retry, Step, Session, start, note, resolving, write_both, resolve, back_off, on_failure, cached,
  idb_put, signal_recovery, conclude, is_conflict, max_conflict_retries, settle, round,
  persist_with_retry, adopt, arrays_equal,
}
use browser_wallet.Storage.Persist.Writes.{
  accepted, write_both-local, write_both-accepted, write_both-refused, asked, resolve-answered,
  resolve-unanswered, adopt-copied, adopt-failed, adopt-different,
}
use browser_wallet.Storage.Persist.Rule.{Post, loop-Post}

-- `arraysEqual` is right.
arrays_equal→eq : (a b : Bytes) → arrays_equal a b ≡ true → a ≡ b
unfolding arrays_equal
arrays_equal→eq [] [] h = ground arith
arrays_equal→eq [] (b ∷ bs) h = cc
arrays_equal→eq (a ∷ as') [] h = cc
arrays_equal→eq (a ∷ as') (b ∷ bs) h = ground (arith, arrays_equal→eq as' bs)

module _ {r : Remote} (f : IsFaithful r) (key : String) (value : Bytes) where
  -- Both stores have the value; VSS only where there is a client.
  pub record Stored (vss : Bool) (s : Session r) : Type 0 where
    pub local : f.kept s.world key ≡ some value
    pub remote : vss ≡ true → (v : ℕ) × (f.held s.world key ≡ some (value, v))

  -- The local copy is as it was before the call.
  abbrev pub Untouched : Option Bytes → Session r → Type 0
  Untouched before s = f.kept s.world key ≡ before

  abbrev pub Durable : Bool → Option Bytes → Step × Session r → Type 0
  Durable vss before = Post (λ t s. Untouched before s) (Stored vss)

  abbrev Wrote : Bool → Option Bytes → Result (Unit {0}) × Session r → Type 0
  Wrote vss before (ok _, s) = Stored vss s
  Wrote vss before (err _, s) = Untouched before s

  idb_put-Wrote :
      (vss : Bool) (before : Option Bytes) (s : Session r)
      → Untouched before s
      → (vss ≡ true → (v : ℕ) × (f.held s.world key ≡ some (value, v)))
      → Wrote vss before (idb_put key value s)
  idb_put-Wrote vss before s h held = elim (Result-cases (r.idb_put key value s.world).0) [
    | inl (u, e) ↦ rw e (record {
      local = f.idb_stores key value s.world e;
      remote = λ p. rw (f.idb_is_local key key value s.world) (held p);
    })
    | inr (x, e) ↦ rw e (f.idb_fails key value x s.world e ∙ h)
  ]

  write_both-Wrote :
      (vss : Bool) (before : Option Bytes) (s : Session r)
      → Untouched before s
      → Wrote vss before (write_both vss key value s)
  write_both-Wrote false before s h =
      rw (write_both-local key value s) (idb_put-Wrote false before s h (λ p. cc))
  write_both-Wrote true before s h =
      let v = cached key s in
      let kept = f.put_is_remote key key value v s.world in
      elim (Result-cases (r.put_object key value v s.world).0) [
        | inl (v', e) ↦ rw (write_both-accepted key value s v' e) (
            idb_put-Wrote true before (accepted key value s v') (kept ∙ h)
              (λ _. (v', f.put_stores key value v v' s.world e)))
        | inr (x, e) ↦ rw (write_both-refused key value s x e) (kept ∙ h)
      ]

  abbrev Adopted : Bool → Option Bytes → Result Bool × Session r → Type 0
  Adopted vss before (ok true, s) = Stored vss s
  Adopted vss before (_, s) = Untouched before s

  signal-Stored :
      (vss : Bool) (t : Retry) (s : Session r) → Stored vss s → Stored vss (signal_recovery t s).1
  signal-Stored vss t s h = elim (Bool-cases t.degraded_notified) [
    | inl p ↦ rw p (record { local = h.local; remote = h.remote })
    | inr p ↦ rw p h
  ]

  conclude-Durable :
      (vss : Bool) (before : Option Bytes) (t : Retry) (x : Result Bool × Session r)
      → Adopted vss before x
      → Durable vss before (conclude vss key value t x)
  unfolding conclude
  conclude-Durable vss before t (ok true, s) h = h
  conclude-Durable vss before t (ok false, s) h = h
  conclude-Durable vss before t (err e, s) h = h

  adopt-Adopted :
      (vss : Bool) (before : Option Bytes) (t : Retry) (theirs : Bytes) (v : ℕ) (s : Session r)
      → Untouched before s
      → f.held s.world key ≡ some (theirs, v)
      → Adopted vss before (adopt vss key value t (some (theirs, v)) s)
  adopt-Adopted vss before t theirs v s h held = elim (Bool-cases (arrays_equal theirs value)) [
    | inl p ↦ elim (Result-cases (r.idb_put key value s.world).0) [
      | inl (u, e) ↦ rw (adopt-copied vss key value t s theirs v u p e) (
          signal-Stored vss t _ (record {
            local = f.idb_stores key value s.world e;
            remote = λ _. (
              v,
              rw (f.idb_is_local key key value s.world)
                  (rw (arrays_equal→eq theirs value p) at held),
            );
          }))
      | inr (x, e) ↦
          rw (adopt-failed vss key value t s theirs v x p e) (f.idb_fails key value x s.world e ∙ h)
    ]
    | inr p ↦ rw (adopt-different vss key value t s theirs v p) h
  ]

  resolve-Durable :
      (vss : Bool) (before : Option Bytes) (t : Retry) (s : Session r)
      → Untouched before s
      → Durable vss before (resolve vss key value t s)
  resolve-Durable vss before t s h =
      let kept = f.get_is_remote key key s.world ∙ h in
      elim (Result-cases (r.get_object key s.world).0) [
        | inl (none, e) ↦
            rw (resolve-answered vss key value t s none e) (unfold adopt conclude in kept)
        | inl (some (theirs, v), e) ↦ rw (resolve-answered vss key value t s (some (theirs, v)) e) (
            conclude-Durable vss before t _ (
              adopt-Adopted vss before t theirs v (asked vss key value t s) kept
                (f.get_reads key (some (theirs, v)) s.world e)))
        | inr (x, e) ↦ rw (resolve-unanswered vss key value t s x e) kept
      ]

  back_off-Durable :
      (vss : Bool) (before : Option Bytes) (t : Retry) (s : Session r)
      → Untouched before s
      → Durable vss before (back_off vss key value t s)
  unfolding back_off
  back_off-Durable vss before t s h = ground arith

  on_failure-Durable :
      (vss : Bool) (before : Option Bytes) (e : Failure) (t : Retry) (s : Session r)
      → Untouched before s
      → Durable vss before (on_failure vss key value e t s)
  unfolding on_failure
  on_failure-Durable vss before e t s h =
      let m = t.conflict_retries + 1 in
      let t' : Retry = record t { conflict_retries = m } in
      elim (Bool-cases (vss && is_conflict e && ltb t.conflict_retries max_conflict_retries)) [
        | inl p ↦ rw p (resolve-Durable vss before t' (note (resolving m) s) h)
        | inr p ↦ rw p (back_off-Durable vss before t _ (ground arith))
      ]

  settle-Durable :
      (vss : Bool) (before : Option Bytes) (t : Retry) (x : Result (Unit {0}) × Session r)
      → Wrote vss before x
      → Durable vss before (settle vss key value t x)
  unfolding settle
  settle-Durable vss before t (ok _, s) h = signal-Stored vss t s h
  settle-Durable vss before t (err e, s) h = on_failure-Durable vss before e t s h

  round-Durable :
      (vss : Bool) (before : Option Bytes) (t : Retry) (s : Session r)
      → Untouched before s
      → Durable vss before (round vss key value t s)
  unfolding round
  round-Durable vss before t s h =
      settle-Durable vss before t (write_both vss key value s) (write_both-Wrote vss before s h)

  -- When the call returns, IndexedDB holds the monitor's bytes under its key, and so does VSS if
  -- there is a client. As long as it does not return, the local copy is the one from before the call.
  -- The stores are assumed to store what they accept, and to return what they hold.
  pub persist_with_retry-Durable :
      (vss : Bool) (fuel : ℕ) (s : Session r)
      → Durable vss (f.kept s.world key) (persist_with_retry vss key value fuel s)
  unfolding persist_with_retry
  persist_with_retry-Durable vss fuel s =
      loop-Post vss key value _ _ (round-Durable vss (f.kept s.world key)) fuel start s refl
