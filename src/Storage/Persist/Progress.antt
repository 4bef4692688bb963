-- ===== src/Storage/Persist/Progress.antt =====
-- When `persistWithRetry` of src/ldk/traits/persist.ts returns, and when it never does.
use browser_wallet.Prelude.{
  not, ℕ, suc, ◌+◌, ◌<◌, ◌≡◌, ◌≢◌, ◌⊎◌, inl, inr, refl, ◌∙◌, sym, ap, true, false, Bool-cases,
  String, arith, Option, none, some, ltb, leb, lt→ltb, ◌&&◌,
}
use native.Mathlib.Decide.{ℕ_discrete}
use browser_wallet.Prelude.Map
use browser_wallet.Prelude.Map.{get-set_self}
use browser_wallet.Storage.Remote.{Bytes, conflict, Remote, IsFaithful, IsUp, version}
use browser_wallet.Storage.Persist.{
  Retry, Step, returned, again, Session, note, resolving, exhausted, cached, resolve, back_off,
  on_failure, conclude, continue_with, adopt, arrays_equal, settle, round, loop,
  max_conflict_retries,
}
use browser_wallet.Storage.Persist.Rule.{Post, loop-Post}
use browser_wallet.Storage.Persist.Writes.{
  refused, write_both-accepted, write_both-refused, asked, adopt-missing, resolve-answered,
  adopt-copied, adopt-different,
}

module _ {r : Remote} {f : IsFaithful r} (up : IsUp f) (key : String) (value : Bytes) where
  -- The cached version is the one under which the server takes the next write.
  abbrev pub Current : Session r → Type 0
  Current s = cached key s ≡ version (f.held s.world key)

  round-Current :
      (t : Retry) (s : Session r)
      → up.Up s.world
      → Current s
      → (round true key value t s).0 ≡ returned
  unfolding round settle
  round-Current t s h c =
      let v = cached key s in
      let (e, up') = up.put_accepts key value v s.world h c in
      rw (write_both-accepted key value s (v + 1) e, up.idb_accepts key value _ up')

  -- The round has returned, or it leaves the server's version in the cache.
  abbrev Mended : Step × Session r → Type 0
  Mended (returned, s) = Unit
  Mended (again t, s) = up.Up s.world × Current s

  cached-set : (v : ℕ) (s : Session r) → cached key (record s { cache = Map.set key v s.cache }) ≡ v
  cached-set v s = rw (get-set_self key v s.cache, cached)

  adopt-Mended :
      (t : Retry) (o : Option (Bytes × ℕ)) (s : Session r)
      → up.Up s.world
      → f.held s.world key ≡ o
      → Mended (conclude true key value t (adopt true key value t o s))
  unfolding conclude
  adopt-Mended t none s h e =
      rw (adopt-missing true key value t s) (h, cached-set 0 s ∙ ap version (sym e))
  adopt-Mended t (some (theirs, v)) s h e = elim (Bool-cases (arrays_equal theirs value)) [
    | inl p ↦
        rw (adopt-copied true key value t s theirs v tt p (up.idb_accepts key value s.world h)) tt
    | inr p ↦
        rw (adopt-different true key value t s theirs v p) (h, cached-set v s ∙ ap version (sym e))
  ]

  -- Asking the server mends a stale version.
  resolve-Mended : (t : Retry) (s : Session r) → up.Up s.world → Mended (resolve true key value t s)
  resolve-Mended t s h =
      let o = f.held s.world key in
      let (e, up') = up.get_answers key s.world h in
      rw (resolve-answered true key value t s o e)
        (adopt-Mended t o (asked true key value t s) up' (f.get_reads key o s.world e))

  round-Mended :
      (t : Retry) (s : Session r)
      → up.Up s.world
      → cached key s ≢ version (f.held s.world key)
      → t.conflict_retries < 5
      → Mended (round true key value t s)
  unfolding round settle on_failure
  round-Mended t s h c few =
      let (e, up', same) = up.put_conflicts key value (cached key s) s.world h c in
      let n = t.conflict_retries + 1 in
      rw (write_both-refused key value s conflict e) (
        rw (lt→ltb _ _ few) (
          resolve-Mended (record t { conflict_retries = n })
            (note (resolving n) (refused key value s)) up'))

  loop-Current :
      (fuel : ℕ) (t : Retry) (s : Session r)
      → up.Up s.world
      → Current s
      → (loop true key value (suc fuel) t s).0 ≡ returned
  unfolding loop continue_with
  loop-Current fuel t s h c = rw (round-Current t s h c)

  loop-Mended :
      (fuel : ℕ) (x : Step × Session r)
      → Mended x
      → (continue_with true key value (loop true key value (suc fuel)) x).0 ≡ returned
  unfolding continue_with
  loop-Mended fuel (returned, s) m = refl
  loop-Mended fuel (again t, s) (h, c) = loop-Current fuel t s h c

  -- While the service answers and nobody else writes, two more rounds are enough: a stale version is
  -- mended in the first one. This needs the server's version in the cache, or a conflict left.
  pub loop-returns :
      (fuel : ℕ) (t : Retry) (s : Session r)
      → up.Up s.world
      → (cached key s ≡ version (f.held s.world key)) ⊎ (t.conflict_retries < 5)
      → (loop true key value (suc (suc fuel)) t s).0 ≡ returned
  unfolding loop
  loop-returns fuel t s h (inl c) = loop-Current (suc fuel) t s h c
  loop-returns fuel t s h (inr few) =
      elim (ℕ_discrete (cached key s) (version (f.held s.world key))) [
        | yes c ↦ loop-Current (suc fuel) t s h c
        | no c ↦ loop-Mended fuel (round true key value t s) (round-Mended t s h c few)
      ]

  -- Five conflicts have been resolved in vain, and the cached version is stale.
  pub record IsStuck (t : Retry) (s : Session r) : Type 0 where
    pub answers : up.Up s.world
    pub stale : cached key s ≢ version (f.held s.world key)
    pub used_up : t.conflict_retries ≡ max_conflict_retries

  abbrev Stuck : Step × Session r → Type 0
  Stuck = Post IsStuck (λ _. ⊥)

  back_off-Stuck : (t : Retry) (s : Session r) → IsStuck t s → Stuck (back_off true key value t s)
  unfolding back_off
  back_off-Stuck t s h =
      elim (Bool-cases (not t.degraded_notified && leb 10000 (t.total_wait_ms + t.backoff))) [
        | inl p ↦ rw p (record { answers = h.answers; stale = h.stale; used_up = h.used_up })
        | inr p ↦ rw p (record { answers = h.answers; stale = h.stale; used_up = h.used_up })
      ]

  round-Stuck : (t : Retry) (s : Session r) → IsStuck t s → Stuck (round true key value t s)
  unfolding round settle on_failure
  round-Stuck t s h =
      let (e, up', same) = up.put_conflicts key value (cached key s) s.world h.answers h.stale in
      let spent : ltb t.conflict_retries max_conflict_retries ≡ false = ground arith in
      let s' = note exhausted (refused key value s) in
      rw (write_both-refused key value s conflict e) (
        rw spent (
          back_off-Stuck t s' (record {
            answers = up';
            stale = λ q. h.stale (q ∙ ap version same);
            used_up = h.used_up;
          })))

  -- Once five conflicts are used up with the server's version still unknown, the call never
  -- returns, although the service answers: the version is not asked for again, and each round ends
  -- in the same conflict.
  pub loop_stuck :
      (fuel : ℕ) (t : Retry) (s : Session r)
      → IsStuck t s
      → (loop true key value fuel t s).0 ≢ returned
  loop_stuck fuel t s h =
      not_returned _ (loop-Post true key value IsStuck (λ _. ⊥) round-Stuck fuel t s h)
    where
      not_returned : (x : Step × Session r) → Stuck x → x.0 ≢ returned
      not_returned (returned, s') p e = p
      not_returned (again t', s') p e = cc
