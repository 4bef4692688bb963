-- ===== src/Broadcaster/Tests.antt =====
-- The theorems on broadcasting at concrete inputs.
use browser_wallet.Prelude.{
  ℕ, ◌≡◌, ◌⊎◌, refl, true, false, ◌==◌, none, List, [], ◌∷◌, if◌then◌else◌,
}
use browser_wallet.Prelude.Map
use browser_wallet.Broadcaster.{
  Answer, throws, responds, attempts, try_broadcast, post_tx_to_esplora, broadcast_now,
}
use browser_wallet.Broadcaster.Retries.{Course, try_broadcast-Course}
use browser_wallet.Broadcaster.Queue.{
  Queue, has, Step, broadcasts, settles, step, run, none_pending, broadcast_transaction,
  begin_broadcast,
}
use browser_wallet.Broadcaster.Queue.Drain.{IsPending}
use browser_wallet.Broadcaster.Queue.Kept.{Cause, IsPending-Kept}
use browser_wallet.Broadcaster.Queue.Lost.{duplicate-Forgotten}

-- Texts in lower case.
abbrev same : List ℕ → List ℕ
same t = t

-- The third post goes through.
abbrev third : ℕ → Answer
third n = if n == 3 then responds true (b'a' ∷ b'b' ∷ []) else throws

abbrev never : ℕ → Answer
never n = throws

try_broadcast-Course_example : Course same third 0 4 (try_broadcast same third 5)
try_broadcast-Course_example = try_broadcast-Course same third 4

abbrev stored : List Step
stored = broadcasts 5 true true "aa" ∷ []

abbrev ended : Step
ended = settles third none true "aa"

stored-IsPending : IsPending "aa" (run same stored none_pending)
unfolding run step broadcast_transaction begin_broadcast has Map.set Map.get
stored-IsPending = (5, refl)

IsPending-Kept_example :
    IsPending "aa" (step same ended (run same stored none_pending))
    ⊎ Cause same ended (run same stored none_pending) "aa"
IsPending-Kept_example = IsPending-Kept same stored ended "aa" stored-IsPending

abbrev under_way : Queue
under_way = record { inflight = "aa" ∷ []; pending = ("aa", 5) ∷ [] }

never_out : (broadcast_now same never none).0 ≡ none
unfolding broadcast_now try_broadcast attempts post_tx_to_esplora
never_out = refl

duplicate-Forgotten_example :
    let q' =
      step same
        (settles never none true "aa")
        (step same (broadcasts 9 true true "aa") under_way) in
    (Map.get "aa" q'.pending ≡ none) × (has "aa" q'.inflight ≡ false)
duplicate-Forgotten_example =
    duplicate-Forgotten same 9 true true never none "aa" under_way (unfold has in refl) never_out
