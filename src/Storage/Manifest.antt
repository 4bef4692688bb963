-- ===== src/Storage/Manifest.antt =====
-- The list of monitors in VSS, src/ldk/traits/persist.ts: `parseMonitorManifest` and `writeManifest`. Keys
-- are lists of code units. `encode` is the text of the keys as JSON, in UTF-8; `decode` is what
-- `JSON.parse` makes of such bytes, if that is an array, with `none` for an entry that is no string.
pub mod Listed
pub mod Reread
mod Tests
use browser_wallet.Prelude.{
  ℕ, zero, suc, ◌≤◌, String, Bool, true, false, not, ◌&&◌, ◌||◌, Option, none, some, List, [], ◌∷◌,
  length, ltb, leb, ◌==◌, if◌then◌else◌,
}
use browser_wallet.Prelude.Hex.{list_eq}
use browser_wallet.Prelude.Decimal.{is_digit}
use browser_wallet.Storage.Remote.{Bytes, Failure, conflict, unavailable, Result, ok, err, Remote}

abbrev pub Key : Type 0
Key = List ℕ

abbrev pub monitor_manifest_key : String
monitor_manifest_key = "_monitor_keys"

abbrev pub max_manifest_entries : ℕ
max_manifest_entries = 1_000

-- [0-9a-f]
abbrev pub is_lower_hex : ℕ → Bool
is_lower_hex c = is_digit c || (leb b'a' c && leb c b'f')

unfoldable pub all_digits : List ℕ → Bool
all_digits [] = true
all_digits (c ∷ cs) = is_digit c && all_digits cs

abbrev pub some_digits : List ℕ → Bool
some_digits [] = false
some_digits (c ∷ cs) = all_digits (c ∷ cs)

abbrev pub after_colon : List ℕ → Bool
after_colon [] = false
after_colon (c ∷ cs) = c == b':' && some_digits cs

-- `n` hexadecimal digits, a colon, and digits.
unfoldable pub matches : ℕ → List ℕ → Bool
matches zero cs = after_colon cs
matches (suc n) [] = false
matches (suc n) (c ∷ cs) = is_lower_hex c && matches n cs

-- `MONITOR_KEY_PATTERN`
abbrev pub is_monitor_key : Key → Bool
is_monitor_key text = matches 64 text

unfoldable pub has : Key → List Key → Bool
has k [] = false
has k (j ∷ js) = list_eq j k || has k js

-- `add` of a set, which keeps the order of insertion.
unfoldable pub add : Key → List Key → List Key
add k [] = k ∷ []
add k (j ∷ js) = let rest = add k js in if list_eq j k then j ∷ js else j ∷ rest

unfoldable pub add_all : List Key → List Key → List Key
add_all [] keys = keys
add_all (k ∷ ks) keys = add_all ks (add k keys)

-- The loop of `parseMonitorManifest`; `none` where it throws.
unfoldable pub collect : List (Option Key) → List Key → Option (List Key)
collect [] seen = some seen
collect (none ∷ entries) seen = none
collect (some k ∷ entries) seen =
    let rest = collect entries (add k seen) in if is_monitor_key k then rest else none

unfoldable pub parse_monitor_manifest : Option (List (Option Key)) → Option (List Key)
parse_monitor_manifest none = none
parse_monitor_manifest (some []) = none
parse_monitor_manifest (some (e ∷ entries)) =
    if ltb max_manifest_entries (length (e ∷ entries)) then none else collect (e ∷ entries) []

abbrev pub or_zero : Option ℕ → ℕ
or_zero none = 0
or_zero (some v) = v

abbrev pub merged : Option (List Key) → List Key → List Key
merged none keys = keys
merged (some server_keys) keys = add_all server_keys keys

unfoldable pub remove : Key → List Key → List Key
remove k [] = []
remove k (j ∷ js) = let rest = remove k js in if list_eq j k then rest else j ∷ rest

abbrev pub has_cached : Option ℕ → Bool
has_cached none = false
has_cached (some v) = true

module _ (r : Remote) where
  -- `monitorKeys`, the manifest's entry in `versionCache`, and the stores.
  pub record Manifest : Type 0 where
    pub keys : List Key
    pub cached : Option ℕ
    pub world : r.World

module _ {r : Remote} where
  -- A write that came back; the Boolean tells whether the manifest was written.
  abbrev pub noted : Result ℕ → Manifest r → Bool × Manifest r
  noted (ok v) m = (true, record m { cached = some v })
  noted (err e) m = (false, m)

module _ {r : Remote} (encode : List Key → Bytes)
    (decode : Bytes → Option (List (Option Key))) where
  unfoldable pub put : ℕ → Manifest r → Result ℕ × Manifest r
  put v m =
      let (x, w) = r.put_object monitor_manifest_key (encode m.keys) v m.world in
      (x, record m { world = w })

  -- The second write, with the server's version and keys.
  unfoldable pub put_merged : Bytes → ℕ → Manifest r → Bool × Manifest r
  put_merged value version m =
      let (x, m') = put version (record m {
        keys = merged (parse_monitor_manifest (decode value)) m.keys;
        cached = some version;
      }) in
      noted x m'

  abbrev pub after_read : Result (Option (Bytes × ℕ)) → Manifest r → Bool × Manifest r
  after_read (ok (some (value, version))) m = put_merged value version m
  after_read (ok none) m = (false, m)
  after_read (err e) m = (false, m)

  abbrev pub after_put : Result ℕ × Manifest r → Bool × Manifest r
  after_put (ok v, m) = noted (ok v) m
  after_put (err unavailable, m) = (false, m)
  after_put (err conflict, m) =
      let (x, w) = r.get_object monitor_manifest_key m.world in
      after_read x (record m { world = w })

  -- One link of the chain of manifest writes.
  unfoldable pub write_manifest : Manifest r → Bool × Manifest r
  write_manifest m = after_put (put (or_zero m.cached) m)

  -- The manifest's part of `persist_new_channel`, of `archive_persisted_channel`, and `backfillManifest`.
  pub new_channel : Key → Manifest r → Bool × Manifest r
  new_channel k m = write_manifest (record m { keys = add k m.keys })

  pub archive_channel : Key → Manifest r → Bool × Manifest r
  archive_channel k m = write_manifest (record m { keys = remove k m.keys })

  pub backfill_manifest : Manifest r → Bool × Manifest r
  backfill_manifest m =
      if ltb 0 (length m.keys) && not (has_cached m.cached) then write_manifest m else (false, m)
