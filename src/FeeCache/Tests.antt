-- ===== src/FeeCache/Tests.antt =====
-- The fee cache on a run: an answer with one rate that is no fee, then a failure.
use browser_wallet.Prelude.{ℕ, ◌≡◌, refl, String, Bool, true, List, [], ◌∷◌, ltb, if◌then◌else◌}
use browser_wallet.FeeCache.{Event, inits, reads, answers, fails, initial, run, read_rate}
use browser_wallet.FeeCache.Rates.{every_rate_valid}

abbrev positive : ℕ → Bool
positive n = ltb 0 n

abbrev fee : ℕ → ℕ
fee n = n

abbrev name_of : ℕ → String
name_of n = if ltb n 2 then "1" else "6"

abbrev history : List (Event ℕ)
history =
    inits "https://esplora" 1700000000000
    ∷ answers (("1", 0) ∷ ("6", 7) ∷ []) 1700000000500
    ∷ reads 6 1700000070000
    ∷ fails 1700000071000
    ∷ reads 1 1700000072000
    ∷ []

every_rate_valid_example :
    positive (read_rate fee name_of 1 (run positive fee name_of history initial)) ≡ true
every_rate_valid_example = every_rate_valid positive fee name_of history 1 refl refl refl refl
