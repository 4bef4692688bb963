-- ===== src/Events/Sound.antt =====
-- What must come before a call of the event handler (src/ldk/traits/event-handler.ts), and what keeps it.
use browser_wallet.Prelude.{
  ◌≤◌, String, ◌≡◌, ◌≢◌, refl, Bool, true, false, ◌⊎◌, inr, some, List, [], ◌∷◌, arith,
  if◌then◌else◌,
}
use browser_wallet.Prelude.Map
use browser_wallet.Prelude.Map.{Map, get-set, get-delete}
use browser_wallet.Events.Node.{
  Call, set_timeout, stores_funding_tx, funding_transaction_generated, broadcast_with_retry,
  accept_inbound_channel_0conf, State, Config, call, call_if,
}

abbrev pub Made : Call → List Call → Type 0
Made x [] = ⊥
Made x (y ∷ ys) = (y ≡ x) ⊎ Made x ys

-- What must have been called before a call.
abbrev pub Allowed : Config → Call → List Call → Type 0
Allowed c (funding_transaction_generated temp_id tx) before =
    Made (stores_funding_tx temp_id tx) before
Allowed c (broadcast_with_retry tx) before =
    (temp_id : String) × Made (stores_funding_tx temp_id tx) before
Allowed c (accept_inbound_channel_0conf temp_id peer id) before =
    (peer ≡ c.lsp_node_id) × (c.lsp_node_id ≢ "")
Allowed c (set_timeout delay) before = delay ≤ 10_000
Allowed c _ before = Unit

-- Each call, the newest first, was allowed when it was made.
abbrev pub IsSafe : Config → List Call → Type 0
IsSafe c [] = Unit
IsSafe c (x ∷ before) = Allowed c x before × IsSafe c before

-- The transactions in the store were put there by calls that were made.
abbrev pub AreStored : State → Type 0
AreStored s =
    (temp_id tx : String)
    → Map.get temp_id s.funding_txs ≡ some tx
    → Made (stores_funding_tx temp_id tx) s.calls

abbrev pub IsSound : Config → State → Type 0
IsSound c s = IsSafe c s.calls × AreStored s

pub call-IsSound :
    (c : Config) (x : Call) (s : State) → Allowed c x s.calls → IsSound c s → IsSound c (call x s)
call-IsSound c x s allowed (safe, stored) = ((allowed, safe), λ t tx e. inr (stored t tx e))

pub call_if-IsSound :
    (c : Config) (b : Bool) (x : Call) (s : State)
    → Allowed c x s.calls
    → IsSound c s
    → IsSound c (call_if b x s)
call_if-IsSound c false x s allowed h = h
call_if-IsSound c true x s allowed h = call-IsSound c x s allowed h

pub if-IsSound :
    (c : Config) (b : Bool) (s t : State)
    → (b ≡ true → IsSound c s)
    → (b ≡ false → IsSound c t)
    → IsSound c (if b then s else t)
if-IsSound c true s t hs ht = hs refl
if-IsSound c false s t hs ht = ht refl

-- Deleting a stored transaction.
pub forget-AreStored :
    (temp_id : String) (s : State)
    → AreStored s
    → AreStored (record s { funding_txs = Map.delete temp_id s.funding_txs })
forget-AreStored temp_id s h t tx e = h t tx (ground (arith, get-delete temp_id t s.funding_txs))
