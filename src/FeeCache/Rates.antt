-- ===== src/FeeCache/Rates.antt =====
-- What rates src/shared/fee-cache.ts gives out.
use browser_wallet.Prelude.{
  ℕ, ◌≡◌, String, Bool, true, Option, none, some, Option-cases, List, [], ◌∷◌, arith, Bool-cases,
  inl, inr,
}
use browser_wallet.Prelude.Map
use browser_wallet.Prelude.Map.{Map, get-set}
use browser_wallet.FeeCache.{
  FeeCache, Fees, initial, refresh_fee_cache, init_fee_cache, is_cache_stale, keep_valid, fetched,
  failed, get_cached_fee_rate, step, run, Event, inits, reads, answers, fails, read_rate, rate_in,
  default_rate,
}

module _ {Rate : Type 0} (valid : Rate → Bool) where
  abbrev AllValid : Map Rate → Type 0
  AllValid m = (key : String) (x : Rate) → Map.get key m ≡ some x → valid x ≡ true

  abbrev CacheValid : Option (FeeCache Rate) → Type 0
  CacheValid none = Unit
  CacheValid (some c) = AllValid c.rates

  empty-AllValid : AllValid []
  unfolding Map.get
  empty-AllValid key x e = cc

  set-AllValid :
      (key : String) (x : Rate) (m : Map Rate)
      → valid x ≡ true
      → AllValid m
      → AllValid (Map.set key x m)
  set-AllValid key x m v h j y e = ground (arith, get-set key j x m, h j y)

  keep_valid-AllValid :
      (estimates : List (String × Rate)) (m : Map Rate)
      → AllValid m
      → AllValid (keep_valid valid estimates m)
  unfolding keep_valid
  keep_valid-AllValid [] m h = h
  keep_valid-AllValid ((blocks, fee) ∷ estimates) m h = elim (Bool-cases (valid fee)) [
    | inl v ↦
        rw v (keep_valid-AllValid estimates (Map.set blocks fee m) (set-AllValid blocks fee m v h))
    | inr v ↦ rw v (keep_valid-AllValid estimates m h)
  ]

  refresh-cache : (now : ℕ) (s : Fees Rate) → (refresh_fee_cache now s).cache ≡ s.cache
  unfolding refresh_fee_cache
  refresh-cache now s = ground arith

  module _ (number : ℕ → Rate) (name : ℕ → String) where
    step-CacheValid :
        (e : Event Rate) (s : Fees Rate)
        → CacheValid s.cache
        → CacheValid (step valid number name e s).cache
    unfolding step init_fee_cache get_cached_fee_rate fetched failed
    step-CacheValid (inits url now) s h =
        rw (refresh-cache now (record s { esplora_base_url = some url })) h
    step-CacheValid (reads target now) s h = elim (Bool-cases (is_cache_stale now s)) [
      | inl p ↦ rw p (rw (refresh-cache now s) h)
      | inr p ↦ rw p h
    ]
    step-CacheValid (answers estimates now) s h = elim (Bool-cases s.pending_fetch) [
      | inl p ↦ rw p (keep_valid-AllValid estimates [] empty-AllValid)
      | inr p ↦ rw p h
    ]
    step-CacheValid (fails now) s h = elim (Bool-cases s.pending_fetch) [
      | inl p ↦ rw p h
      | inr p ↦ rw p h
    ]

    run-CacheValid :
        (es : List (Event Rate)) (s : Fees Rate)
        → CacheValid s.cache
        → CacheValid (run valid number name es s).cache
    unfolding run
    run-CacheValid [] s h = h
    run-CacheValid (e ∷ es) s h =
        run-CacheValid es (step valid number name e s) (step-CacheValid e s h)

    default-valid :
        (target : ℕ)
        → valid (number 10) ≡ true
        → valid (number 5) ≡ true
        → valid (number 3) ≡ true
        → valid (number 2) ≡ true
        → valid (default_rate number target) ≡ true
    unfolding default_rate
    default-valid target a b c d = ground arith

    rate_in-valid :
        (o : Option (FeeCache Rate)) (key : String) (d : Rate)
        → CacheValid o
        → valid d ≡ true
        → valid (rate_in o key d) ≡ true
    rate_in-valid none key d h v = v
    rate_in-valid (some c) key d h v = elim (Option-cases (Map.get key c.rates)) [
      | inl e ↦ rw e v
      | inr (x, e) ↦ rw e (h key x e)
    ]

    read-valid :
        (target : ℕ) (s : Fees Rate)
        → CacheValid s.cache
        → valid (default_rate number target) ≡ true
        → valid (read_rate number name target s) ≡ true
    unfolding read_rate
    read-valid target s h d = rate_in-valid s.cache (name target) (default_rate number target) h d

    -- Whatever Esplora answers, and in whatever order things happen: every rate that is given out passes
    -- the test of a positive finite number, as the four default rates do.
    pub every_rate_valid :
        (es : List (Event Rate)) (target : ℕ)
        → valid (number 10) ≡ true
        → valid (number 5) ≡ true
        → valid (number 3) ≡ true
        → valid (number 2) ≡ true
        → valid (read_rate number name target (run valid number name es initial)) ≡ true
    every_rate_valid es target a b c d =
        read-valid target _ (run-CacheValid es initial tt) (default-valid target a b c d)
