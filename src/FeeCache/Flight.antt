-- ===== src/FeeCache/Flight.antt =====
-- How often src/shared/fee-cache.ts asks Esplora.
use browser_wallet.Prelude.{
  ℕ, ◌+◌, ◌≡◌, refl, String, Bool, some, List, [], ◌∷◌, arith, if◌then◌else◌, Bool-cases, inl, inr,
}
use browser_wallet.FeeCache.{
  Fees, initial, refresh_fee_cache, init_fee_cache, is_cache_stale, fetched, failed,
  get_cached_fee_rate, step, run, Event, inits, reads, answers, fails,
}

module _ {Rate : Type 0} where
  -- One request at most is under way.
  abbrev pub OneAtMost : Fees Rate → Type 0
  OneAtMost s = s.started ≡ s.ended + (if s.pending_fetch then 1 else 0)

  refresh-OneAtMost : (now : ℕ) (s : Fees Rate) → OneAtMost s → OneAtMost (refresh_fee_cache now s)
  unfolding refresh_fee_cache
  refresh-OneAtMost now s h = ground arith

  module _ (valid : Rate → Bool) (number : ℕ → Rate) (name : ℕ → String) where
    step-OneAtMost :
        (e : Event Rate) (s : Fees Rate) → OneAtMost s → OneAtMost (step valid number name e s)
    unfolding step init_fee_cache get_cached_fee_rate fetched failed
    step-OneAtMost (inits url now) s h =
        refresh-OneAtMost now (record s { esplora_base_url = some url }) h
    step-OneAtMost (reads target now) s h = elim (Bool-cases (is_cache_stale now s)) [
      | inl p ↦ rw p (refresh-OneAtMost now s h)
      | inr p ↦ rw p h
    ]
    step-OneAtMost (answers estimates now) s h = ground arith
    step-OneAtMost (fails now) s h = ground arith

    run-OneAtMost :
        (es : List (Event Rate)) (s : Fees Rate)
        → OneAtMost s
        → OneAtMost (run valid number name es s)
    unfolding run
    run-OneAtMost [] s h = h
    run-OneAtMost (e ∷ es) s h =
        run-OneAtMost es (step valid number name e s) (step-OneAtMost e s h)

    -- Whatever happens, in whatever order: at most one request is under way.
    pub one_in_flight : (es : List (Event Rate)) → OneAtMost (run valid number name es initial)
    one_in_flight es = run-OneAtMost es initial refl
