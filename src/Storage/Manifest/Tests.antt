-- ===== src/Storage/Manifest/Tests.antt =====
-- The theorems on the monitor manifest at concrete inputs, on a service that answers.
use browser_wallet.Prelude.{
  ℕ, suc, arith, ◌≡◌, refl, ◌||◌, true, Option, none, some, List, [], ◌∷◌, ◌++◌, zero, length, ltb,
  ◌==◌, if◌then◌else◌,
}
use browser_wallet.Prelude.Hex.{list_eq}
use browser_wallet.Prelude.Map
use browser_wallet.Prelude.Decimal.{is_digit}
use browser_wallet.Storage.Remote.{Bytes}
use browser_wallet.Storage.Solo.{solo, solo-IsFaithful, solo-IsUp}
use browser_wallet.Storage.Manifest.{
  Key, has, add, matches, all_digits, collect, parse_monitor_manifest, Manifest, write_manifest,
  archive_channel,
}
use browser_wallet.Storage.Manifest.Listed.{Wrote, write_manifest-Wrote}
use browser_wallet.Storage.Manifest.Reread.{
  parse_monitor_manifest-written, Returned, archive_channel-returns,
}

abbrev zeros : ℕ → List ℕ
zeros zero = []
zeros (suc n) = b'0' ∷ zeros n

-- The key of a monitor.
abbrev key : Key
key = zeros 64 ++ (b':' ∷ b'1' ∷ [])

-- A stand-in for JSON: a byte for whether there is a key.
abbrev encode : List Key → Bytes
encode [] = []
encode (k ∷ ks) = k

abbrev decode : Bytes → Option (List (Option Key))
decode [] = some []
decode (b ∷ bs) = some (some (b ∷ bs) ∷ [])

abbrev fresh : Manifest solo
fresh = record { keys = key ∷ []; cached = none; world = record { server = []; disk = [] } }

write_manifest-Wrote_example :
    Wrote solo-IsFaithful encode decode (key ∷ []) (write_manifest {r = solo} encode decode fresh)
write_manifest-Wrote_example = write_manifest-Wrote {r = solo} solo-IsFaithful encode decode fresh

key_accepted : matches 64 key ≡ true
unfolding matches all_digits is_digit
key_accepted = refl

parse_monitor_manifest-written_example :
    parse_monitor_manifest (decode (encode (key ∷ [])))
    ≡ (if (length (key ∷ []) == 0) || ltb 1_000 (length (key ∷ [])) then none else some (key ∷ []))
parse_monitor_manifest-written_example =
    parse_monitor_manifest-written encode decode (key ∷ []) refl (key_accepted, tt)
      (unfold has in refl, tt)

-- The server's manifest is newer than the cached version.
abbrev behind : Manifest solo
behind = record {
  keys = key ∷ [];
  cached = some 1;
  world = record { server = ("_monitor_keys", (key, 2)) ∷ []; disk = [] };
}

parsed : parse_monitor_manifest (decode key) ≡ some (key ∷ [])
unfolding parse_monitor_manifest collect add matches all_digits is_digit
parsed = refl

archive_channel-returns_example :
    Returned solo-IsUp encode decode key (archive_channel {r = solo} encode decode key behind)
archive_channel-returns_example =
    archive_channel-returns solo-IsUp encode decode key behind key 2 (key ∷ []) tt
      (λ e. absurd (omega arith)) (unfold Map.get in refl) parsed (unfold has list_eq in refl)
