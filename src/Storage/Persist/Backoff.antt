-- ===== src/Storage/Persist/Backoff.antt =====
-- The variables of the retry loop stay in their ranges, whatever the stores do
-- (src/ldk/traits/persist.ts, `persistWithRetry`).
use browser_wallet.Prelude.{ℕ, ◌+◌, ◌≤◌, ◌≡◌, Bool, true, String, arith}
use browser_wallet.Storage.Remote.{Bytes, Failure, Result, ok, err, Remote}
use browser_wallet.Storage.Persist.{
  initial_backoff_ms, max_backoff_ms, degraded_threshold_ms, max_conflict_retries, Retry, Step,
  Session, start, resolving, exhausted, note, write_both, resolve, back_off, on_failure, settle,
  round, persist_with_retry,
}
use browser_wallet.Storage.Persist.Rule.{Post, loop-Post}

-- The wait lies between the first and the longest one, at most five conflicts have been resolved,
-- and the degraded state is exactly a total wait of ten seconds or more.
pub record IsPaced (t : Retry) : Type 0 where
  pub backoff_low : initial_backoff_ms ≤ t.backoff
  pub backoff_high : t.backoff ≤ max_backoff_ms
  pub retries : t.conflict_retries ≤ max_conflict_retries
  pub notified : t.degraded_notified ≡ true → degraded_threshold_ms ≤ t.total_wait_ms
  pub late : degraded_threshold_ms ≤ t.total_wait_ms → t.degraded_notified ≡ true

abbrev pub Paced : {r : Remote} → Step × Session r → Type 0
Paced = Post (λ t s. IsPaced t) (λ s. Unit)

module _ {r : Remote} (vss : Bool) (key : String) (value : Bytes) where
  resolve-Paced : (t : Retry) (s : Session r) → IsPaced t → Paced (resolve vss key value t s)
  unfolding resolve
  resolve-Paced t s h = ground arith

  back_off-Paced : (t : Retry) (s : Session r) → IsPaced t → Paced (back_off vss key value t s)
  unfolding back_off
  back_off-Paced t s h = ground arith

  on_failure-Paced :
      (e : Failure) (t : Retry) (s : Session r) → IsPaced t → Paced (on_failure vss key value e t s)
  unfolding on_failure
  on_failure-Paced e t s h =
      let t' : Retry = record t { conflict_retries = t.conflict_retries + 1 } in
      ground (
        arith,
        resolve-Paced t' (note (resolving (t.conflict_retries + 1)) s),
        back_off-Paced t s h,
        back_off-Paced t (note exhausted s) h,
      )

  settle-Paced :
      (t : Retry) (x : Result (Unit {0}) × Session r) → IsPaced t → Paced (settle vss key value t x)
  unfolding settle
  settle-Paced t (ok _, s) h = tt
  settle-Paced t (err e, s) h = on_failure-Paced e t s h

  round-Paced : (t : Retry) (s : Session r) → IsPaced t → Paced (round vss key value t s)
  unfolding round
  round-Paced t s h = settle-Paced t (write_both vss key value s) h

  -- However many rounds have run, whatever the stores answered: a call that is still retrying has
  -- a backoff of 500 to 60000 ms, has resolved at most five conflicts, and has reported VSS
  -- unavailable exactly if it has waited ten seconds or more.
  pub persist_with_retry-Paced :
      (fuel : ℕ) (s : Session r) → Paced (persist_with_retry vss key value fuel s)
  unfolding persist_with_retry
  persist_with_retry-Paced fuel s =
      loop-Post vss key value _ _ round-Paced fuel start s (ground arith)
