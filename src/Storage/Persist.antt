-- ===== src/Storage/Persist.antt =====
-- src/ldk/traits/persist.ts: `persistWithRetry`, which writes one channel monitor to VSS and then
-- to IndexedDB, and does not return until both are done. One round of its `while (true)` is `round`.
pub mod Writes
pub mod Rule
pub mod Backoff
pub mod Schedule
pub mod Durable
pub mod Progress
mod Tests
use browser_wallet.Prelude.{
  ℕ, zero, suc, ◌+◌, ◌*◌, min, String, Bool, true, false, ◌&&◌, Option, none, some, List, [], ◌∷◌,
  not, ltb, leb, ◌==◌, if◌then◌else◌,
}
use browser_wallet.Prelude.Map
use browser_wallet.Prelude.Map.{Map}
use browser_wallet.Storage.Remote.{Bytes, Failure, conflict, unavailable, Result, ok, err, Remote}

abbrev pub initial_backoff_ms : ℕ
initial_backoff_ms = 500

abbrev pub max_backoff_ms : ℕ
max_backoff_ms = 60000

abbrev pub degraded_threshold_ms : ℕ
degraded_threshold_ms = 10000

abbrev pub max_conflict_retries : ℕ
max_conflict_retries = 5

-- `arraysEqual`
pub arrays_equal : Bytes → Bytes → Bool
arrays_equal [] [] = true
arrays_equal (a ∷ as') (b ∷ bs) = a == b && arrays_equal as' bs
arrays_equal _ _ = false

-- `isVssConflict`
abbrev pub is_conflict : Failure → Bool
is_conflict conflict = true
is_conflict unavailable = false

-- What the code reports: `captureError` calls by message, the callbacks `onVssUnavailable` and
-- `onVssRecovered`, and the timer that it waits for.
pub data Note : Type 0 where
  resolving : ℕ → Note
  true_conflict : ℕ → Note
  key_not_found resolve_failed exhausted write_failed : Note
  slept : ℕ → Note
  vss_unavailable vss_recovered : Note

-- The variables of `persistWithRetry`.
pub record Retry : Type 0 where
  pub backoff : ℕ
  pub total_wait_ms : ℕ
  pub degraded_notified : Bool
  pub conflict_retries : ℕ

abbrev pub start : Retry
start = record {
  backoff = initial_backoff_ms;
  total_wait_ms = 0;
  degraded_notified = false;
  conflict_retries = 0;
}

-- How a round of the loop ends: by `return`, or with the variables of the next round.
pub data Step : Type 0 where
  returned : Step
  again : Retry → Step

module _ (r : Remote) where
  -- The state that outlives a call: `versionCache`, the stores, and the reports, newest first.
  pub record Session : Type 0 where
    pub cache : Map ℕ
    pub world : r.World
    pub notes : List Note

  abbrev pub Exec : Type 0 → Type 0
  Exec A = Session → Result A × Session

module _ {r : Remote} where
  infixl 5 ◌>>=◌ ◌>>◌
  abbrev pub ◌>>=◌ : {A B : Type 0} → Exec r A → (A → Exec r B) → Exec r B
  ◌>>=◌ m f s = let (x, s') = m s in elim x [ ok a ↦ f a s' | err e ↦ (err e, s') ]

  abbrev pub ◌>>◌ : {B : Type 0} → Exec r (Unit {0}) → Exec r B → Exec r B
  m >> k = m >>= λ _. k

  abbrev pub return : {A : Type 0} → A → Exec r A
  return a s = (ok a, s)

  abbrev pub note : Note → Session r → Session r
  note n s = record s { notes = n ∷ s.notes }

  abbrev pub report : Note → Exec r (Unit {0})
  report n s = (ok tt, note n s)

  abbrev pub cache_set : String → ℕ → Exec r (Unit {0})
  cache_set key v s = (ok tt, record s { cache = Map.set key v s.cache })

  -- `versionCache.get(key) ?? 0`
  abbrev pub cached : String → Session r → ℕ
  cached key s = elim (Map.get key s.cache) [ none ↦ 0 | some v ↦ v ]

  abbrev pub put_object : String → Bytes → ℕ → Exec r ℕ
  put_object key value v s =
      let (x, w) = r.put_object key value v s.world in (x, record s { world = w })

  abbrev pub get_object : String → Exec r (Option (Bytes × ℕ))
  get_object key s = let (x, w) = r.get_object key s.world in (x, record s { world = w })

  abbrev pub idb_put : String → Bytes → Exec r (Unit {0})
  idb_put key value s = let (x, w) = r.idb_put key value s.world in (x, record s { world = w })

  -- `if (degradedNotified) onVssRecovered?.()`
  abbrev pub signal_recovery : Retry → Exec r (Unit {0})
  signal_recovery t = if t.degraded_notified then report vss_recovered else return tt

  -- `vss` tells whether there is a VSS client.
  module _ (vss : Bool) (key : String) (value : Bytes) where
    abbrev pub vss_write : Exec r (Unit {0})
    vss_write s = (do v ← put_object key value (cached key s); cache_set key v) s

    -- The body of the `try`, up to the signal.
    pub write_both : Exec r (Unit {0})
    write_both = do if vss then vss_write else return tt; idb_put key value

    -- The body of the inner `try`; `true` where the call returns.
    same_data : Retry → Exec r Bool
    same_data t = do idb_put key value; signal_recovery t; return true

    other_data : ℕ → Exec r Bool
    other_data v = do report (true_conflict v); return false

    pub adopt : Retry → Option (Bytes × ℕ) → Exec r Bool
    unfolding same_data other_data
    adopt t (some (theirs, v)) = do
      cache_set key v
      if arrays_equal theirs value then same_data t else other_data v
    adopt t none = do cache_set key 0; report key_not_found; return false

    -- How the conflict branch ends: by `return`, or by `continue`.
    pub conclude : Retry → Result Bool × Session r → Step × Session r
    conclude t (ok true, s) = (returned, s)
    conclude t (ok false, s) = (again t, s)
    conclude t (err e, s) = (again t, note resolve_failed s)

    pub resolve : Retry → Session r → Step × Session r
    unfolding conclude
    resolve t s = conclude t ((do o ← get_object key; adopt t o) s)

    -- The wait, the doubled backoff, and the report that the store is out of reach.
    pub back_off : Retry → Session r → Step × Session r
    back_off t s =
        let total = t.total_wait_ms + t.backoff in
        let s' = note (slept t.backoff) (note write_failed s) in
        let late = not t.degraded_notified && leb degraded_threshold_ms total in
        let t' : Retry = record t {
          backoff = min (t.backoff * 2) max_backoff_ms;
          total_wait_ms = total;
          degraded_notified = if late then true else t.degraded_notified;
        } in
        (again t', if late then note vss_unavailable s' else s')

    -- The `catch` block.
    pub on_failure : Failure → Retry → Session r → Step × Session r
    on_failure e t s =
        if vss && is_conflict e && ltb t.conflict_retries max_conflict_retries
        then (let n = t.conflict_retries + 1 in
            resolve (record t { conflict_retries = n }) (note (resolving n) s))
        else back_off t (if vss && is_conflict e then note exhausted s else s)

    -- What follows the `try`: the signal and the `return`, or the `catch` block.
    pub settle : Retry → Result (Unit {0}) × Session r → Step × Session r
    settle t (ok _, s) = (returned, (signal_recovery t s).1)
    settle t (err e, s) = on_failure e t s

    pub round : Retry → Session r → Step × Session r
    round t s = settle t (write_both s)

    -- The end of a round: `return`, or the next one.
    pub continue_with : (Retry → Session r → Step × Session r) → Step × Session r → Step × Session r
    continue_with next (returned, s) = (returned, s)
    continue_with next (again t, s) = next t s

    -- `fuel` rounds of the loop at most.
    pub loop : ℕ → Retry → Session r → Step × Session r
    loop zero t s = (again t, s)
    loop (suc fuel) t s = continue_with (loop fuel) (round t s)

    pub persist_with_retry : ℕ → Session r → Step × Session r
    persist_with_retry fuel s = loop fuel start s
