-- ===== src/Broadcaster/Retries.antt =====
-- The attempts of `tryBroadcast`, src/ldk/traits/broadcaster.ts.
use browser_wallet.Prelude.{
  ℕ, zero, suc, ◌+◌, ◌*◌, ◌^◌, ◌≤◌, ◌≡◌, ◌≢◌, refl, ap, ◌∙◌, ◌⊎◌, inl, inr, Option, none, some,
  List, [], ◌∷◌, arith, ◌-◌,
}
use native.Mathlib.Numerals.{unary_clauses}
use browser_wallet.Broadcaster.{
  Answer, PostResult, accepted, known, failed, post_tx_to_esplora, already_broadcast, Tried, waited,
  after_post, attempts, try_broadcast, retry_delay_ms,
}

-- `n` waits, each twice as long as the one before it.
abbrev pub doubling : (delay n : ℕ) → List ℕ
doubling delay zero = []
doubling delay (suc n) = delay ∷ doubling (2 * delay) n

module _ (to_lower : List ℕ → List ℕ) (answer : ℕ → Answer) where
  -- What a post that did not fail makes `tryBroadcast` return.
  abbrev pub text_of : PostResult → Option (List ℕ)
  text_of (accepted txid) = some txid
  text_of known = some (already_broadcast to_lower)
  text_of failed = none

  -- The posts from `first` on, `n` of them, fail.
  abbrev pub AllFail : (first n : ℕ) → Type 0
  AllFail first zero = Unit
  AllFail first (suc n) =
      (post_tx_to_esplora to_lower (answer first) ≡ failed) × AllFail (suc first) n

  -- Attempts from number `suc a` on end with the first that does not fail, number `suc m`, or behind the
  -- last. There is a wait between an attempt and the next, the first of them one second times `2 ^ a`,
  -- and each one twice as long as the one before.
  abbrev pub Course : (a left : ℕ) → Tried to_lower → Type 0
  Course a left (result, delays) =
      ((k m : ℕ) × (k ≤ left)
        × (m ≡ a + k)
        × AllFail (suc a) k
        × (post_tx_to_esplora to_lower (answer (suc m)) ≢ failed)
        × (result ≡ text_of (post_tx_to_esplora to_lower (answer (suc m))))
        × (delays ≡ doubling (retry_delay_ms * 2 ^ a) k))
      ⊎ ((m : ℕ) × (m ≡ a + left)
          × AllFail (suc a) (suc left)
          × (result ≡ none)
          × (delays ≡ doubling (retry_delay_ms * 2 ^ a) left))

  accepted_distinct : {t : List ℕ} → accepted t ≢ failed
  accepted_distinct e = cc

  known_distinct : known ≢ failed
  known_distinct e = cc

  -- A post that does not fail is the last.
  after_post-Course :
      (a left : ℕ) (p : PostResult) (rest : Tried to_lower)
      → post_tx_to_esplora to_lower (answer (suc a)) ≡ p
      → (p ≡ failed → Course a left rest)
      → Course a left (after_post to_lower p rest)
  after_post-Course a left (accepted t) rest e h =
      inl (0, a, omega arith, omega arith, tt, rw e accepted_distinct, rw e refl, refl)
  after_post-Course a left known rest e h =
      inl (0, a, omega arith, omega arith, tt, rw e known_distinct, rw e refl, refl)
  after_post-Course a left failed rest e h = h refl

  pow_double : (a : ℕ) → 2 ^ suc a ≡ 2 * 2 ^ a
  pow_double a = simp unary_clauses (omega arith)

  pred_suc : (a : ℕ) → 2 ^ (suc a - 1) ≡ 2 ^ a
  pred_suc a = ap (λ n. 2 ^ n) (omega arith)

  -- A wait, and the waits behind it.
  doubling-suc :
      (a n : ℕ) (delays : List ℕ)
      → delays ≡ doubling (retry_delay_ms * 2 ^ suc a) n
      → ((retry_delay_ms * 2 ^ (suc a - 1)) ∷ delays) ≡ doubling (retry_delay_ms * 2 ^ a) (suc n)
  doubling-suc a n delays e =
      let next : retry_delay_ms * 2 ^ suc a ≡ 2 * (retry_delay_ms * 2 ^ a) =
        omega (arith, pow_double a) in
      let own : retry_delay_ms * 2 ^ (suc a - 1) ≡ retry_delay_ms * 2 ^ a =
        omega (arith, pred_suc a) in
      rw own (ap (λ ds. (retry_delay_ms * 2 ^ a) ∷ ds) (e ∙ ap (λ d. doubling d n) next))

  -- A failed post and the wait behind it.
  waited-Course :
      (a left : ℕ) (rest : Tried to_lower)
      → post_tx_to_esplora to_lower (answer (suc a)) ≡ failed
      → Course (suc a) left rest
      → Course a (suc left) (waited to_lower (retry_delay_ms * 2 ^ (suc a - 1)) rest)
  waited-Course a left (result, delays) e (inl (k, m, h, at, fails, taken, found, waits)) =
      inl (
        suc k,
        m,
        omega arith,
        omega arith,
        (e, fails),
        taken,
        found,
        doubling-suc a k delays waits,
      )
  waited-Course a left (result, delays) e (inr (m, at, fails, found, waits)) =
      inr (m, omega arith, (e, fails), found, doubling-suc a left delays waits)

  attempts-Course : (a left : ℕ) → Course a left (attempts to_lower answer (suc a) left)
  unfolding attempts
  attempts-Course a zero =
      after_post-Course a zero (post_tx_to_esplora to_lower (answer (suc a))) (none, []) refl
        (λ e. inr (a, omega arith, (e, tt), refl, refl))
  attempts-Course a (suc left) =
      after_post-Course a (suc left) (post_tx_to_esplora to_lower (answer (suc a)))
        (waited to_lower (retry_delay_ms * 2 ^ (suc a - 1))
          (attempts to_lower answer (suc (suc a)) left))
        refl
        (λ e.
          waited-Course a left (attempts to_lower answer (suc (suc a)) left) e
            (attempts-Course (suc a) left))

  -- However a server answers, `tryBroadcast` with at least one attempt returns what the first post that
  -- does not fail gives, its transaction id or the text for a known transaction, and `null` if and only
  -- if all the posts fail; it waits behind each failed post that another one follows, and nowhere else:
  -- one second first, and then each time twice as long as the time before.
  pub try_broadcast-Course : (left : ℕ) → Course 0 left (try_broadcast to_lower answer (suc left))
  unfolding try_broadcast
  try_broadcast-Course left = attempts-Course 0 left
