-- ===== src/Sync/Once.antt =====
-- `syncOnce` of src/ldk/sync/chain-sync.ts. The checks of different transactions, which the code runs side
-- by side, are made one after the other.
pub mod Told
mod Tests
use browser_wallet.Prelude.{
  ℕ, Bool, true, false, not, ◌&&◌, ◌||◌, Option, none, some, List, [], ◌∷◌, ◌++◌, map, reverse,
  if◌then◌else◌, Bool-cases,
}
use browser_wallet.Prelude.Hex.{bytes_to_hex, list_eq}
use browser_wallet.Peers.Text.{cut_first, parse_int}
use browser_wallet.Sync.Esplora.{
  Text, Bytes, TxStatus, Outspend, Esplora, Call, transaction_unconfirmed, best_block_updated,
  transactions_confirmed, Run, after, and_then, returns, asks,
}

-- `txidBytesToHex`
pub txid_bytes_to_hex : Bytes → Text
txid_bytes_to_hex bytes = bytes_to_hex (reverse bytes)

-- What `get_relevant_txids` lists for a `Confirm` object.
abbrev pub Relevant : Type 0
Relevant = List (Bytes × Option Bytes)

abbrev pub nonempty : Option (List ℕ) → Option (List ℕ)
nonempty (some (c ∷ cs)) = some (c ∷ cs)
nonempty _ = none

module _ (e : Esplora) where
  -- One turn of the loop that looks for reorganisations.
  abbrev pub check_block : ℕ → Bytes → Option Bytes → Run Unit
  check_block i txid none = returns tt
  check_block i txid (some hash) =
      and_then (asks (e.get_block_status (txid_bytes_to_hex hash))) (λ in_best_chain.
        if in_best_chain then returns tt else (some tt, transaction_unconfirmed i txid ∷ []))

  pub check_blocks : ℕ → Relevant → Run Unit
  check_blocks i [] = returns tt
  check_blocks i ((txid, hash) ∷ rest) =
      and_then (check_block i txid (nonempty hash)) (λ _. check_blocks i rest)

  pub detect_reorg : List (ℕ × Relevant) → Run Unit
  detect_reorg [] = returns tt
  detect_reorg ((i, relevant) ∷ rest) = and_then (check_blocks i relevant) (λ _. detect_reorg rest)

  -- The second part; the height is that of the tip whose hash was read.
  pub update_best_block : List ℕ → Text → Run Unit
  update_best_block confirmables tip = and_then (asks (e.get_block_height tip)) (λ height.
      and_then (asks (e.get_block_header tip))
        (λ header. (some tt, map (λ i. best_block_updated i header height) confirmables)))

  -- A confirmed transaction is given to each `Confirm` object.
  pub confirm : List ℕ → Text → Text → ℕ → Run Unit
  confirm confirmables txid block_hash height =
      and_then (asks (e.get_block_header block_hash)) (λ header.
        and_then (asks (e.get_tx_hex txid)) (λ tx.
          and_then (asks (e.get_tx_merkle_proof txid block_hash)) (λ pos.
            (some tt, map (λ i. transactions_confirmed i header pos tx height) confirmables))))

  -- The block of a status, if it is confirmed and complete.
  abbrev pub block_of : Bool → Option Text → Option ℕ → Option (Text × ℕ)
  block_of true (some hash) (some height) = some (hash, height)
  block_of _ _ _ = none

  abbrev pub confirm_in : List ℕ → Text → Option (Text × ℕ) → Run Unit
  confirm_in confirmables txid none = returns tt
  confirm_in confirmables txid (some (hash, height)) = confirm confirmables txid hash height

  pub check_tx : List ℕ → Text → Run Unit
  check_tx confirmables txid = and_then (asks (e.get_tx_status txid)) (λ status.
      confirm_in confirmables txid
        (block_of status.confirmed (nonempty status.block_hash) status.block_height))

  abbrev pub spender : Outspend → Option Text
  spender o = if o.spent then nonempty o.txid else none

  abbrev pub check_spender : List ℕ → Option Text → Run Unit
  check_spender confirmables none = returns tt
  check_spender confirmables (some txid) = check_tx confirmables txid

  -- A watched output is keyed by its transaction's id, a colon and its index.
  abbrev pub check_outpoint : List ℕ → Option (Text × Text) → Run Unit
  check_outpoint confirmables none = returns tt
  check_outpoint confirmables (some (txid, index)) = elim (parse_int index) [
    | none ↦ returns tt
    | some vout ↦
        and_then (asks (e.get_outspend txid vout)) (λ o. check_spender confirmables (spender o))
  ]

  pub check_output : List ℕ → Text → Run Unit
  check_output confirmables key = check_outpoint confirmables (cut_first b':' key)

  -- `Promise.allSettled`: a check that throws does not keep the others from running.
  pub all_settled : List (Run Unit) → List Call
  all_settled [] = []
  all_settled ((r, cs) ∷ runs) = cs ++ all_settled runs

  -- The parts behind the second, which do not throw.
  pub check_watched : List ℕ → List Text → List Text → List Call
  check_watched confirmables txids outputs =
      all_settled (map (check_tx confirmables) txids)
      ++ all_settled (map (check_output confirmables) outputs)

-- `allRelevantTxids`
abbrev pub relevant_texts : Relevant → List Text
relevant_texts [] = []
relevant_texts ((txid, hash) ∷ rest) = txid_bytes_to_hex txid ∷ relevant_texts rest

abbrev pub all_relevant : List (ℕ × Relevant) → List Text
all_relevant [] = []
all_relevant ((i, relevant) ∷ rest) = relevant_texts relevant ++ all_relevant rest

pub has : Text → List Text → Bool
has t [] = false
has t (x ∷ xs) = list_eq x t || has t xs

-- The fifth part.
pub prune : List Text → List Text → List Text
prune relevant [] = []
prune relevant (t ∷ ts) = let rest = prune relevant ts in if has t relevant then t ∷ rest else rest

-- `watchState`
pub record Watch : Type 0 where
  pub watched_txids : List Text
  pub watched_outputs : List Text

abbrev pub same_tip : Text → Option Text → Bool
same_tip tip none = false
same_tip tip (some last) = list_eq tip last

-- The third to fifth parts, behind the first two.
abbrev pub finish_sync :
    Text → List Call → List Text → (added watch : Watch) → Run Unit → Run Text × Watch
finish_sync tip checks relevant added watch (none, calls) = ((none, calls), watch)
finish_sync tip checks relevant added watch (some _, calls) = (
  (some tip, calls ++ checks),
  record {
    watched_txids = prune relevant (watch.watched_txids ++ added.watched_txids);
    watched_outputs = watch.watched_outputs ++ added.watched_outputs;
  },
)

abbrev pub numbers : List (ℕ × Relevant) → List ℕ
numbers before = map (λ c. c.0) before

abbrev pub checks : Esplora → List (ℕ × Relevant) → Watch → List Call
checks e before watch = check_watched e (numbers before) watch.watched_txids watch.watched_outputs

module _ (e : Esplora) (before behind : List (ℕ × Relevant)) (added : Watch) where
  abbrev pub sync_to : Option Text → Watch → Option Text → Run Text × Watch
  sync_to last watch none = ((none, []), watch)
  sync_to last watch (some tip) =
      if same_tip tip last
      then ((some tip, []), watch)
      else finish_sync tip (checks e before watch) (all_relevant behind) added watch
          (and_then (detect_reorg e before) (λ _. update_best_block e (numbers before) tip))

  -- What `syncOnce` returns, the calls that it makes, and the watch state behind it. `before` and
  -- `behind` are what the `Confirm` objects list before the reorganisation check and before the
  -- pruning, and `added` is what LDK registers to be watched while they are told.
  pub sync_once : Option Text → Watch → Run Text × Watch
  sync_once last watch = sync_to last watch e.get_tip_hash
