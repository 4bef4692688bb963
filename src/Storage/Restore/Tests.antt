-- ===== src/Storage/Restore/Tests.antt =====
-- The recovery of src/ldk/init.ts at a concrete service: one monitor, a manager, no peers.
use browser_wallet.Prelude.{
  ℕ, zero, suc, ◌≡◌, refl, true, false, Option, none, some, List, [], ◌∷◌, ◌++◌,
}
use browser_wallet.Prelude.Decimal.{is_digit}
use browser_wallet.Storage.Remote.{Bytes, ok}
use browser_wallet.Storage.Manifest.{Key, add, matches, all_digits, collect, parse_monitor_manifest}
use browser_wallet.Storage.Restore.{Answers, fresh, restore}
use browser_wallet.Storage.Restore.Live.{restore_succeeds}
use browser_wallet.Storage.Restore.Whole.{IsRecovered, IsRolledBack, restore-Whole}

abbrev zeros : ℕ → List ℕ
zeros zero = []
zeros (suc n) = b'0' ∷ zeros n

abbrev key : Key
key = zeros 64 ++ (b':' ∷ b'1' ∷ [])

abbrev decode : Bytes → Option (List (Option Key))
decode [] = some []
decode (b ∷ bs) = some (some (b ∷ bs) ∷ [])

abbrev service : Answers
service = record {
  get_manifest = ok (some (key, 7));
  get_monitor = λ k. ok (some (1 ∷ 2 ∷ [], 3));
  get_manager = ok (some (zeros 32, 4));
  get_peers = ok none;
  decode = decode;
  decode_peers = λ b. none;
  late = λ n. false;
  readable = λ b. true;
  puts_monitor = λ k. true;
  puts_manager = true;
  puts_peer = λ k. true;
  deletes_monitors = true;
  deletes_manager = true;
}

parsed : parse_monitor_manifest (decode key) ≡ some (key ∷ [])
unfolding parse_monitor_manifest collect add matches all_digits is_digit
parsed = refl

restore-Whole_example :
    ((restore service (fresh [])).0 ≡ true
      → IsRecovered service (fresh []) (restore service (fresh [])).1)
    × ((restore service (fresh [])).0 ≡ false → IsRolledBack service (restore service (fresh [])).1)
restore-Whole_example = restore-Whole service []

restore_succeeds_example : (restore service (fresh [])).0 ≡ true
restore_succeeds_example =
    restore_succeeds service [] key 7 (key ∷ []) refl parsed (λ k h. (1 ∷ 2 ∷ [], 3, refl, refl))
      (λ n. refl) refl tt (λ k. refl)
