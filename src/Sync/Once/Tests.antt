-- ===== src/Sync/Once/Tests.antt =====
-- The theorem on one sync at a concrete input.
use browser_wallet.Prelude.{ℕ, ◌≡◌, refl, true, none, some, List, [], ◌∷◌}
use browser_wallet.Sync.Esplora.{Esplora}
use browser_wallet.Sync.Once.{
  Relevant, Watch, sync_once, detect_reorg, check_blocks, update_best_block, txid_bytes_to_hex,
}
use browser_wallet.Sync.Once.Told.{IsTold, sync_once-IsTold}

-- A server with one block, in which every transaction is confirmed.
abbrev one_block : Esplora
one_block = record {
  get_tip_hash = some (b'f' ∷ []);
  get_block_status = λ h. some true;
  get_block_height = λ h. some 7;
  get_block_header = λ h. some (1 ∷ []);
  get_tx_status =
      λ t. some (record { confirmed = true; block_hash = some (b'f' ∷ []); block_height = some 7 });
  get_tx_hex = λ t. some (2 ∷ []);
  get_tx_merkle_proof = λ t h. some 0;
  get_outspend = λ t n. none;
}

abbrev relevant : List (ℕ × Relevant)
relevant = (0, (9 ∷ [], some (3 ∷ [])) ∷ []) ∷ (1, []) ∷ []

abbrev watch : Watch
watch = record { watched_txids = (b'0' ∷ b'9' ∷ []) ∷ []; watched_outputs = [] }

finds_tip : (sync_once one_block relevant relevant watch none watch).0.0 ≡ some (b'f' ∷ [])
unfolding sync_once detect_reorg check_blocks update_best_block txid_bytes_to_hex
finds_tip = refl

sync_once-IsTold_example :
    IsTold one_block relevant relevant watch
      (b'f' ∷ [])
      watch
      (sync_once one_block relevant relevant watch none watch)
sync_once-IsTold_example =
    sync_once-IsTold one_block relevant relevant watch none watch (b'f' ∷ []) finds_tip refl
