-- ===== src/Storage/Persist/Schedule.antt =====
-- The waits of the retry loop and what it reports about them (src/ldk/traits/persist.ts,
-- `persistWithRetry`).
use browser_wallet.Prelude.{
  ℕ, zero, suc, ◌+◌, ◌*◌, ◌^◌, ◌≡◌, min, Bool, String, arith, List, [], ◌∷◌, ◌&&◌, Bool-cases, inl,
  inr, ltb, leb, if◌then◌else◌,
}
use native.Mathlib.Nat.{pow-suc}
use browser_wallet.Storage.Remote.{Bytes, Failure, Result, ok, err, Remote}
use browser_wallet.Storage.Persist.{
  Retry, Step, returned, again, Session, start, Note, resolving, slept, vss_unavailable,
  vss_recovered, note, write_both, is_conflict, max_conflict_retries, resolve, back_off, on_failure,
  settle, round, persist_with_retry, adopt,
}
use browser_wallet.Storage.Persist.Rule.{Post, loop-Post}

-- The waits that a history records, newest first.
abbrev pub sleeps : List Note → List ℕ
sleeps [] = []
sleeps (slept n ∷ ns) = n ∷ sleeps ns
sleeps (_ ∷ ns) = sleeps ns

-- How often a history reports the store out of reach, and back.
abbrev pub outages : List Note → ℕ
outages [] = 0
outages (vss_unavailable ∷ ns) = suc (outages ns)
outages (_ ∷ ns) = outages ns

abbrev pub recoveries : List Note → ℕ
recoveries [] = 0
recoveries (vss_recovered ∷ ns) = suc (recoveries ns)
recoveries (_ ∷ ns) = recoveries ns

-- The first `n` waits of the schedule: 500 ms doubled each time, one minute at most.
abbrev pub wait_ms : ℕ → ℕ
wait_ms n = min (500 * 2 ^ n) 60000

abbrev pub waits : ℕ → List ℕ
waits zero = []
waits (suc n) = wait_ms n ∷ waits n

abbrev pub total : List ℕ → ℕ
total [] = 0
total (n ∷ ns) = n + total ns

-- After `n` waits.
pub record OnSchedule (n : ℕ) (t : Retry) (notes : List Note) : Type 0 where
  pub slept_so_far : sleeps notes ≡ waits n
  pub next_wait : t.backoff ≡ wait_ms n
  pub waited : t.total_wait_ms ≡ total (waits n)
  pub told : outages notes ≡ (if leb 10000 (total (waits n)) then 1 else 0)
  pub flag : t.degraded_notified ≡ leb 10000 (total (waits n))
  pub not_back : recoveries notes ≡ 0

-- The history of a call that has returned.
pub record Told (n : ℕ) (notes : List Note) : Type 0 where
  pub slept_in_all : sleeps notes ≡ waits n
  pub outage : outages notes ≡ (if leb 10000 (total (waits n)) then 1 else 0)
  pub recovery : recoveries notes ≡ outages notes

abbrev pub Scheduled : {r : Remote} → Step × Session r → Type 0
Scheduled = Post (λ t s. (n : ℕ) × OnSchedule n t s.notes) (λ s. (n : ℕ) × Told n s.notes)

wait_ms_next : (n : ℕ) → wait_ms (suc n) ≡ min (wait_ms n * 2) 60000
wait_ms_next n = omega (arith, pow-suc 2 n)

-- What holds while the number of waits stays `n`.
abbrev Same : {r : Remote} → ℕ → Step × Session r → Type 0
Same n = Post (λ t s. OnSchedule n t s.notes) (λ s. Told n s.notes)

Same-Scheduled : {r : Remote} (n : ℕ) (x : Step × Session r) → Same n x → Scheduled x
Same-Scheduled n (returned, s) h = (n, h)
Same-Scheduled n (again t, s) h = (n, h)

module _ {r : Remote} (vss : Bool) (key : String) (value : Bytes) where
  notes-write_both : (s : Session r) → (write_both vss key value s).1.notes ≡ s.notes
  unfolding write_both
  notes-write_both s = ground arith

  resolve-Same :
      (n : ℕ) (t : Retry) (s : Session r)
      → OnSchedule n t s.notes
      → Same n (resolve vss key value t s)
  unfolding resolve adopt
  resolve-Same n t s h = ground arith

  back_off-Same :
      (n : ℕ) (t : Retry) (s : Session r)
      → OnSchedule n t s.notes
      → Same (suc n) (back_off vss key value t s)
  unfolding back_off
  back_off-Same n t s h = ground (arith, wait_ms_next n)

  on_failure-Scheduled :
      (e : Failure) (n : ℕ) (t : Retry) (s : Session r)
      → OnSchedule n t s.notes
      → Scheduled (on_failure vss key value e t s)
  unfolding on_failure
  on_failure-Scheduled e n t s h =
      let m = t.conflict_retries + 1 in
      let t' : Retry = record t { conflict_retries = m } in
      elim (Bool-cases (vss && is_conflict e && ltb t.conflict_retries max_conflict_retries)) [
        | inl p ↦
            rw p (Same-Scheduled n _ (resolve-Same n t' (note (resolving m) s) (ground arith)))
        | inr p ↦ rw p (Same-Scheduled (suc n) _ (back_off-Same n t _ (ground arith)))
      ]

  settle-Scheduled :
      (n : ℕ) (t : Retry) (x : Result (Unit {0}) × Session r)
      → OnSchedule n t x.1.notes
      → Scheduled (settle vss key value t x)
  unfolding settle
  settle-Scheduled n t (ok _, s) h = (n, ground arith)
  settle-Scheduled n t (err e, s) h = on_failure-Scheduled e n t s h

  round-Scheduled :
      (t : Retry) (s : Session r)
      → ((n : ℕ) × OnSchedule n t s.notes)
      → Scheduled (round vss key value t s)
  unfolding round
  round-Scheduled t s (n, h) =
      settle-Scheduled n t (write_both vss key value s) (rw (notes-write_both s) h)

  -- From an empty history, whatever the stores answer: the waits of a call are 500 ms, doubled
  -- after each wait up to one minute. VSS is reported unavailable once if the waits add up to ten
  -- seconds, and never otherwise. A call that returns has reported the recovery exactly as often as
  -- the outage, and one that is still retrying has reported none.
  pub persist_with_retry-Scheduled :
      (fuel : ℕ) (s : Session r)
      → s.notes ≡ []
      → Scheduled (persist_with_retry vss key value fuel s)
  unfolding persist_with_retry
  persist_with_retry-Scheduled fuel s e =
      loop-Post vss key value _ _ round-Scheduled fuel start s (0, ground arith)
