-- ===== src/Storage/Manager/Tests.antt =====
-- The theorems on `persistChannelManager` at concrete inputs.
use browser_wallet.Prelude.{◌≡◌, true, [], ◌∷◌}
use browser_wallet.Storage.Remote.{ok}
use browser_wallet.Storage.Solo.{solo, solo-IsFaithful, solo-IsUp}
use browser_wallet.Storage.Manager.{Manager, cm_vss_key, cm_idb_key, persist_channel_manager}
use browser_wallet.Storage.Manager.Kept.{Kept, persist_channel_manager-Kept}
use browser_wallet.Storage.Manager.Mended.{persist_channel_manager_succeeds}

-- After a restart: the server is at version 7, and the reference at 0.
abbrev restarted : Manager solo
restarted = record {
  current = 0;
  world = record { server = (cm_vss_key, (1 ∷ 2 ∷ [], 7)) ∷ []; disk = [] };
}

persist_channel_manager-Kept_example :
    Kept solo-IsFaithful
      (9 ∷ [])
      true
      (solo-IsFaithful.kept restarted.world cm_idb_key)
      (persist_channel_manager {r = solo} true (9 ∷ []) restarted)
persist_channel_manager-Kept_example =
    persist_channel_manager-Kept solo-IsFaithful (9 ∷ []) true restarted

persist_channel_manager_succeeds_example :
    (persist_channel_manager {r = solo} true (9 ∷ []) restarted).0 ≡ ok tt
persist_channel_manager_succeeds_example =
    persist_channel_manager_succeeds solo-IsUp (9 ∷ []) restarted tt
