-- ===== src/Storage/Persist/Rule.antt =====
-- The invariant rule of the retry loop of src/ldk/traits/persist.ts.
use browser_wallet.Prelude.{ℕ, zero, suc, String, Bool}
use browser_wallet.Storage.Remote.{Bytes, Remote}
use browser_wallet.Storage.Persist.{
  Retry, Step, returned, again, Session, round, continue_with, loop,
}

-- `Q` holds where the call returns, and `P` where another round follows.
abbrev pub Post {ℓ} :
    {r : Remote} → (Retry → Session r → Type ℓ) → (Session r → Type ℓ) → Step × Session r → Type ℓ
Post P Q (returned, s) = Q s
Post P Q (again t, s) = P t s

module _ {ℓ} {r : Remote} (vss : Bool) (key : String) (value : Bytes)
    (P : Retry → Session r → Type ℓ) (Q : Session r → Type ℓ)
    (keep : (t : Retry) (s : Session r) → P t s → Post P Q (round vss key value t s)) where
  continue_with-Post :
      (next : Retry → Session r → Step × Session r) (x : Step × Session r)
      → ((t : Retry) (s : Session r) → P t s → Post P Q (next t s))
      → Post P Q x
      → Post P Q (continue_with vss key value next x)
  unfolding continue_with
  continue_with-Post next (returned, s) ih h = h
  continue_with-Post next (again t, s) ih h = ih t s h

  pub loop-Post :
      (fuel : ℕ) (t : Retry) (s : Session r) → P t s → Post P Q (loop vss key value fuel t s)
  unfolding loop
  loop-Post zero t s h = h
  loop-Post (suc fuel) t s h =
      continue_with-Post (loop vss key value fuel) (round vss key value t s) (loop-Post fuel)
        (keep t s h)
