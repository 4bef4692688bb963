-- ===== src/FeeCache.antt =====
-- src/shared/fee-cache.ts: fee rates from Esplora, kept for a minute. The module's variables are a
-- record; a request is started by `refresh_fee_cache` and ends in `fetched` or `failed`. Rates are of a
-- type `Rate`: `valid` is the test of a positive finite number, `number` gives the defaults, and `name`
-- is `String`.
pub mod Flight
pub mod Rates
mod Tests
use browser_wallet.Prelude.{
  ℕ, suc, ◌+◌, String, Bool, true, false, Option, none, some, List, [], ◌∷◌, ltb, ◌==◌,
  if◌then◌else◌,
}
use browser_wallet.Prelude.Map
use browser_wallet.Prelude.Map.{Map}

abbrev pub cache_ttl_ms : ℕ
cache_ttl_ms = 60000

abbrev pub failure_backoff_ms : ℕ
failure_backoff_ms = 15000

module _ (Rate : Type 0) where
  pub record FeeCache : Type 0 where
    pub rates : Map Rate
    pub fetched_at : ℕ

  -- `started` counts the requests, `ended` those that are over.
  pub record Fees : Type 0 where
    pub cache : Option FeeCache
    pub pending_fetch : Bool
    pub esplora_base_url : Option String
    pub last_failed_at : ℕ
    pub started : ℕ
    pub ended : ℕ

  -- What can happen: a request ends only while one is pending.
  pub data Event : Type 0 where
    inits : String → ℕ → Event
    reads : ℕ → ℕ → Event
    answers : List (String × Rate) → ℕ → Event
    fails : ℕ → Event

module _ {Rate : Type 0} where
  abbrev pub initial : Fees Rate
  initial = record {
    cache = none;
    pending_fetch = false;
    esplora_base_url = none;
    last_failed_at = 0;
    started = 0;
    ended = 0;
  }

  abbrev pub start_fetch : Fees Rate → Fees Rate
  start_fetch s = record s { pending_fetch = true; started = suc s.started }

  abbrev pub fetch_if_known : Option String → ℕ → Fees Rate → Fees Rate
  fetch_if_known none now s = s
  fetch_if_known (some url) now s =
      if ltb now (s.last_failed_at + failure_backoff_ms) then s else start_fetch s

  pub refresh_fee_cache : ℕ → Fees Rate → Fees Rate
  refresh_fee_cache now s = if s.pending_fetch then s else fetch_if_known s.esplora_base_url now s

  pub init_fee_cache : String → ℕ → Fees Rate → Fees Rate
  unfolding refresh_fee_cache
  init_fee_cache url now s = refresh_fee_cache now (record s { esplora_base_url = some url })

  abbrev pub cache_is_stale : Option (FeeCache Rate) → ℕ → Bool
  cache_is_stale none now = true
  cache_is_stale (some c) now = ltb (c.fetched_at + cache_ttl_ms) now

  pub is_cache_stale : ℕ → Fees Rate → Bool
  is_cache_stale now s = cache_is_stale s.cache now

  -- The loop over the entries of an answer.
  pub keep_valid : (Rate → Bool) → List (String × Rate) → Map Rate → Map Rate
  keep_valid valid [] rates = rates
  keep_valid valid ((blocks, fee) ∷ estimates) rates =
      keep_valid valid estimates (if valid fee then Map.set blocks fee rates else rates)

  pub fetched : (Rate → Bool) → List (String × Rate) → ℕ → Fees Rate → Fees Rate
  unfolding keep_valid
  fetched valid estimates now s = record s {
    cache = some (record { rates = keep_valid valid estimates []; fetched_at = now });
    pending_fetch = false;
    ended = suc s.ended;
  }

  pub failed : ℕ → Fees Rate → Fees Rate
  failed now s = record s { last_failed_at = now; pending_fetch = false; ended = suc s.ended }

  pub default_rate : (ℕ → Rate) → ℕ → Rate
  default_rate number target =
      if target == 1
      then number 10
      else if target == 6
      then number 5
      else if target == 12
      then number 3
      else if target == 144
      then number 2
      else number 5

  abbrev pub or_default : Option Rate → Rate → Rate
  or_default none d = d
  or_default (some x) d = x

  abbrev pub rate_in : Option (FeeCache Rate) → String → Rate → Rate
  rate_in none key d = d
  rate_in (some c) key d = or_default (Map.get key c.rates) d

  pub read_rate : (ℕ → Rate) → (ℕ → String) → ℕ → Fees Rate → Rate
  unfolding default_rate
  read_rate number name target s = rate_in s.cache (name target) (default_rate number target)

  -- The rate is read from the variables as they are; the refresh ends later.
  pub get_cached_fee_rate : (ℕ → Rate) → (ℕ → String) → ℕ → ℕ → Fees Rate → Rate × Fees Rate
  unfolding read_rate is_cache_stale refresh_fee_cache
  get_cached_fee_rate number name target now s =
      (read_rate number name target s, if is_cache_stale now s then refresh_fee_cache now s else s)

  module _ (valid : Rate → Bool) (number : ℕ → Rate) (name : ℕ → String) where
    pub step : Event Rate → Fees Rate → Fees Rate
    unfolding init_fee_cache get_cached_fee_rate fetched failed
    step (inits url now) s = init_fee_cache url now s
    step (reads target now) s = (get_cached_fee_rate number name target now s).1
    step (answers estimates now) s = if s.pending_fetch then fetched valid estimates now s else s
    step (fails now) s = if s.pending_fetch then failed now s else s

    pub run : List (Event Rate) → Fees Rate → Fees Rate
    unfolding step
    run [] s = s
    run (e ∷ es) s = run es (step e s)
