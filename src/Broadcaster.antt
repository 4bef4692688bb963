-- ===== src/Broadcaster.antt =====
-- src/ldk/traits/broadcaster.ts: posting a transaction to Esplora, with retries, and the store of the
-- transactions that are not yet out. A transaction is its hexadecimal text; texts that are searched are
-- lists of code units. `answer n` is what happens to the n-th post to a server.
pub mod Retries
pub mod Queue
mod Tests
use browser_wallet.Prelude.{
  ℕ, zero, suc, ◌+◌, ◌-◌, ◌*◌, ◌^◌, String, Bool, true, false, ◌||◌, ◌&&◌, Option, none, some, List,
  [], ◌∷◌, ◌++◌, ◌==◌, ltb, if◌then◌else◌,
}
use browser_wallet.Prelude.Codes.{codes}

abbrev pub max_broadcast_retries : ℕ
max_broadcast_retries = 5

abbrev pub fallback_retries : ℕ
fallback_retries = 3

abbrev pub retry_delay_ms : ℕ
retry_delay_ms = 1_000

abbrev pub pending_broadcast_ttl_ms : ℕ
pending_broadcast_ttl_ms = 48 * 60 * 60 * 1_000

-- How a `fetch` ends: with a response, whose text may be read, or by throwing.
pub data Answer : Type 0 where
  throws : Answer
  responds : (is_ok : Bool) (body : List ℕ) → Answer

pub data PostResult : Type 0 where
  accepted : (txid : List ℕ) → PostResult
  known : PostResult
  failed : PostResult

pub starts_with : List ℕ → List ℕ → Bool
starts_with [] cs = true
starts_with (p ∷ ps) [] = false
starts_with (p ∷ ps) (c ∷ cs) = p == c && starts_with ps cs

-- `text.includes(phrase)`
pub contains : List ℕ → List ℕ → Bool
contains phrase [] = starts_with phrase []
contains phrase (c ∷ cs) = starts_with phrase (c ∷ cs) || contains phrase cs

-- A text that is there and not empty.
abbrev pub truthy_text : Option (List ℕ) → Option (List ℕ)
truthy_text (some (c ∷ cs)) = some (c ∷ cs)
truthy_text _ = none

-- `to_lower` stands for `toLowerCase` of texts.
module _ (to_lower : List ℕ → List ℕ) where
  abbrev pub is_known : List ℕ → Bool
  is_known body =
      contains (codes "transaction already in block chain") (to_lower body)
      || contains (codes "txn-already-known") (to_lower body)
      || contains (codes "txn-already-confirmed") (to_lower body)
      || contains (codes "insufficient fee, rejecting replacement") (to_lower body)

  -- `postTxToEsplora`; a throw and an error are both a failed attempt of the caller.
  pub post_tx_to_esplora : Answer → PostResult
  post_tx_to_esplora throws = failed
  post_tx_to_esplora (responds true txid) = accepted txid
  post_tx_to_esplora (responds false body) = if is_known body then known else failed

  abbrev pub already_broadcast : List ℕ
  already_broadcast = codes "already-broadcast"

  -- What `tryBroadcast` returns, and the milliseconds for which it waited.
  abbrev pub Tried : Type 0
  Tried = Option (List ℕ) × List ℕ

  abbrev pub waited : ℕ → Tried → Tried
  waited d (result, delays) = (result, d ∷ delays)

  -- How an attempt ends the loop, or goes on to the rest of it.
  abbrev pub after_post : PostResult → Tried → Tried
  after_post (accepted txid) rest = (some txid, [])
  after_post known rest = (some already_broadcast, [])
  after_post failed rest = rest

  -- The loop of `tryBroadcast`, with `left` attempts to come behind this one.
  pub attempts : (answer : ℕ → Answer) (attempt left : ℕ) → Tried
  attempts answer attempt zero = after_post (post_tx_to_esplora (answer attempt)) (none, [])
  attempts answer attempt (suc left) =
      after_post (post_tx_to_esplora (answer attempt))
        (waited (retry_delay_ms * 2 ^ (attempt - 1)) (attempts answer (suc attempt) left))

  unfoldable pub try_broadcast : (answer : ℕ → Answer) (max_retries : ℕ) → Tried
  try_broadcast answer zero = (none, [])
  try_broadcast answer (suc n) = attempts answer 1 n

  -- The result of the first server, where it is not empty, or of the second.
  abbrev pub or_fallback : Option (ℕ → Answer) → Tried → Tried
  or_fallback fallback (some (c ∷ cs), delays) = (some (c ∷ cs), delays)
  or_fallback none (_, delays) = (none, delays)
  or_fallback (some answer) (_, delays) =
      let (result, more) = try_broadcast answer fallback_retries in
      (truthy_text result, delays ++ more)

  -- The body of `try` in `broadcastWithRetry`; `none` is the error that all attempts failed.
  pub broadcast_now : (primary : ℕ → Answer) (fallback : Option (ℕ → Answer)) → Tried
  broadcast_now primary fallback =
      or_fallback fallback (try_broadcast primary max_broadcast_retries)
