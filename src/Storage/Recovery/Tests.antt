-- ===== src/Storage/Recovery/Tests.antt =====
-- The theorems on the recovery state at concrete inputs.
use browser_wallet.Prelude.{◌≡◌, true, [], ◌∷◌}
use browser_wallet.Storage.Solo.{solo, solo-IsFaithful}
use browser_wallet.Storage.Recovery.{Recovery, vss_key, idb_key, write_recovery_state}
use browser_wallet.Storage.Recovery.Kept.{Kept, write_recovery_state-Kept}

-- The server is at version 7, and the module at 0.
abbrev restarted : Recovery solo
restarted = record {
  vss_version = 0;
  world = record { server = (vss_key, (1 ∷ 2 ∷ [], 7)) ∷ []; disk = [] };
  reports = [];
}

write_recovery_state-Kept_example :
    ((write_recovery_state {r = solo} true (9 ∷ []) restarted).0
      ≡ (solo.idb_put idb_key (9 ∷ []) restarted.world).0)
    × Kept solo-IsFaithful
        (9 ∷ [])
        (solo-IsFaithful.kept restarted.world idb_key)
        (write_recovery_state {r = solo} true (9 ∷ []) restarted)
write_recovery_state-Kept_example =
    write_recovery_state-Kept solo-IsFaithful (9 ∷ []) true restarted
