-- ===== src/Sync/Esplora.antt =====
-- What src/ldk/sync/chain-sync.ts asks of an Esplora server, and what it tells LDK. `none` is a request
-- that throws. During one `syncOnce` a request is answered the same way each time.
use browser_wallet.Prelude.{ℕ, Bool, Option, none, some, List, [], ◌++◌}
use browser_wallet.Prelude.BigInt.{ℤ}

abbrev pub Text : Type 0
Text = List ℕ

abbrev pub Bytes : Type 0
Bytes = List ℕ

pub record TxStatus : Type 0 where
  pub confirmed : Bool
  pub block_hash : Option Text
  pub block_height : Option ℕ

pub record Outspend : Type 0 where
  pub spent : Bool
  pub txid : Option Text

pub record Esplora : Type 0 where
  pub get_tip_hash : Option Text
  pub get_block_status : Text → Option Bool
  pub get_block_height : Text → Option ℕ
  pub get_block_header : Text → Option Bytes
  pub get_tx_status : Text → Option TxStatus
  pub get_tx_hex : Text → Option Bytes
  pub get_tx_merkle_proof : Text → Text → Option ℕ
  pub get_outspend : Text → ℤ → Option Outspend

-- Calls of the `Confirm` objects, which are numbered.
pub data Call : Type 0 where
  transaction_unconfirmed : (confirmable : ℕ) (txid : Bytes) → Call
  best_block_updated : (confirmable : ℕ) (header : Bytes) (height : ℕ) → Call
  transactions_confirmed :
      (confirmable : ℕ) (header : Bytes) (pos : ℕ) (tx : Bytes) (height : ℕ) → Call

-- What a piece of code returns, `none` where it throws, and the calls that it has made by then.
abbrev pub Run : Type 0 → Type 0
Run A = Option A × List Call

abbrev pub after : {B : Type 0} → List Call → Run B → Run B
after cs (r, ds) = (r, cs ++ ds)

abbrev pub and_then : {A B : Type 0} → Run A → (A → Run B) → Run B
and_then (none, cs) k = (none, cs)
and_then (some a, cs) k = after cs (k a)

abbrev pub returns : {A : Type 0} → A → Run A
returns a = (some a, [])

-- The answer of a request.
abbrev pub asks : {A : Type 0} → Option A → Run A
asks o = (o, [])
