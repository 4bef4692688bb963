-- ===== src/Storage/Persist/Tests.antt =====
-- Runs of `persistWithRetry`, and the theorems about it at concrete inputs.
use browser_wallet.Prelude.{◌≡◌, ◌≢◌, refl, inr, true, [], ◌∷◌, arith}
use browser_wallet.Prelude.Map
use browser_wallet.Storage.Solo.{solo, solo-IsFaithful, solo-IsUp}
use browser_wallet.Storage.Persist.{
  Retry, Session, start, returned, persist_with_retry, loop, continue_with, round, settle,
  write_both, on_failure, resolve, adopt, arrays_equal,
}
use browser_wallet.Storage.Persist.Schedule.{Scheduled, persist_with_retry-Scheduled}
use browser_wallet.Storage.Persist.Durable.{Durable, persist_with_retry-Durable}
use browser_wallet.Storage.Persist.Progress.{loop-returns, IsStuck, loop_stuck}

-- Another device has written version 7, and this one starts with an empty cache.
abbrev behind : Session solo
behind = record {
  cache = [];
  world = record { server = ("m", (1 ∷ 2 ∷ [], 7)) ∷ []; disk = [] };
  notes = [];
}

abbrev spent : Retry
spent = record start { conflict_retries = 5 }

mends_in_two : (persist_with_retry {r = solo} true "m" (9 ∷ []) 2 behind).0 ≡ returned
unfolding persist_with_retry loop continue_with round settle write_both on_failure resolve adopt
    arrays_equal Map.get Map.set
mends_in_two = refl

persist_with_retry-Scheduled_example :
    Scheduled (persist_with_retry {r = solo} true "m" (9 ∷ []) 3 behind)
persist_with_retry-Scheduled_example = persist_with_retry-Scheduled true "m" (9 ∷ []) 3 behind refl

persist_with_retry-Durable_example :
    Durable solo-IsFaithful "m"
      (9 ∷ [])
      true
      (solo-IsFaithful.kept behind.world "m")
      (persist_with_retry {r = solo} true "m" (9 ∷ []) 3 behind)
persist_with_retry-Durable_example =
    persist_with_retry-Durable solo-IsFaithful "m" (9 ∷ []) true 3 behind

loop-returns_example : (loop {r = solo} true "m" (9 ∷ []) 2 start behind).0 ≡ returned
loop-returns_example = loop-returns solo-IsUp "m" (9 ∷ []) 0 start behind tt (inr (omega arith))

behind-IsStuck : IsStuck solo-IsUp "m" (9 ∷ []) spent behind
unfolding Map.get
behind-IsStuck = record { answers = tt; stale = λ e. omega arith; used_up = refl }

loop_stuck_example : (loop {r = solo} true "m" (9 ∷ []) 1000000 spent behind).0 ≢ returned
loop_stuck_example = loop_stuck solo-IsUp "m" (9 ∷ []) 1000000 spent behind behind-IsStuck
