-- ===== src/Storage/Vss.antt =====
-- `VssClient` of src/ldk/storage/vss-client.ts and src/ldk/storage/vss-crypto.ts. A request and a response
-- are the messages that the protocol buffers encode; versions are below 2 ^ 53, where `Number` of a
-- `bigint` is exact.
pub mod Framing
pub mod Listing
pub mod Refines
mod Tests
use browser_wallet.Prelude.{
  ℕ, zero, suc, ◌+◌, String, Bool, true, false, not, Option, none, some, List, [], ◌∷◌, ◌++◌,
  length, ◌==◌, ltb, if◌then◌else◌,
}
use browser_wallet.Prelude.Hex.{bytes_to_hex}
use browser_wallet.Storage.Remote.{Bytes, Failure, conflict, unavailable, Result, ok, err}

abbrev pub nonce_length : ℕ
nonce_length = 12

abbrev pub key_length : ℕ
key_length = 32

abbrev pub max_list_pages : ℕ
max_list_pages = 100

abbrev pub take : ℕ → Bytes → Bytes
take zero bs = []
take (suc n) [] = []
take (suc n) (b ∷ bs) = b ∷ take n bs

abbrev pub drop : ℕ → Bytes → Bytes
drop zero bs = bs
drop (suc n) [] = []
drop (suc n) (b ∷ bs) = drop n bs

-- The primitives of the browser and of `@noble/ciphers`: ChaCha20-Poly1305, HMAC-SHA256, UTF-8.
pub record Primitives : Type 0 where
  pub encrypt : (key nonce plaintext : Bytes) → Bytes
  pub decrypt : (key nonce ciphertext : Bytes) → Option Bytes
  pub hmac : (key data_bytes : Bytes) → Bytes
  pub utf8 : String → Bytes

module _ (p : Primitives) where
  -- `vssEncrypt` with the nonce that it draws; `none` where it throws.
  unfoldable pub vss_encrypt : (key nonce plaintext : Bytes) → Option Bytes
  vss_encrypt key nonce plaintext =
      if length key == key_length then some (nonce ++ p.encrypt key nonce plaintext) else none

  unfoldable pub vss_decrypt : (key blob : Bytes) → Option Bytes
  vss_decrypt key blob =
      if not (length key == key_length)
      then none
      else if ltb (length blob) (nonce_length + 16)
      then none
      else p.decrypt key (take nonce_length blob) (drop nonce_length blob)

  pub obfuscate_key : (key : Bytes) → String → List ℕ
  obfuscate_key key name = bytes_to_hex (p.hmac key (p.utf8 name))

-- The codes of an error response.
pub data ErrorCode : Type 0 where
  conflict_exception other_code : ErrorCode

-- How `#post` ends: by a throw, or with a response. What can be decoded of its body is a message.
pub data Reply (A : Type 0) : Type 0 where
  unreachable : Reply A
  responded : A → Reply A
  garbled : Reply A
  refused : (status : ℕ) → Option ErrorCode → Reply A

-- `#parseError`, as what `isVssConflict` makes of it.
abbrev pub parse_error : Option ErrorCode → Failure
parse_error (some conflict_exception) = conflict
parse_error _ = unavailable

-- A key, a version and an encrypted value.
pub record KeyValue : Type 0 where
  pub key : List ℕ
  pub version : ℕ
  pub value : Bytes

-- A page of `listKeyVersions`: the entries and the token of the next page.
pub record Page : Type 0 where
  pub key_versions : List (List ℕ × ℕ)
  pub next_page_token : Option (List ℕ)

-- The server, over whatever the world holds; `store` is the store id. `draw` gives random bytes.
pub record Service : Type 1 where
  pub World : Type 0
  pub draw : ℕ → World → Bytes × World
  pub get_object : (store : String) (key : List ℕ) → World → Reply (Option KeyValue) × World
  pub put_objects : (store : String) (items : List KeyValue) → World → Reply (Unit {0}) × World
  pub delete_object :
      (store : String) (key : List ℕ) (version : ℕ) → World → Reply (Unit {0}) × World
  pub list_key_versions : (store : String) (token : Option (List ℕ)) → World → Reply Page × World

-- The fields of a client.
pub record Client : Type 0 where
  pub store_id : String
  pub encryption_key : Bytes

-- The promise of a call whose response carries nothing.
abbrev pub done : {A : Type 0} → A → Reply (Unit {0}) → Result A
done a unreachable = err unavailable
done a (responded _) = ok a
done a garbled = ok a
done a (refused status code) = err (parse_error code)

module _ (p : Primitives) (s : Service) (c : Client) where
  abbrev pub opened : ℕ → Option Bytes → Result (Option (Bytes × ℕ))
  opened version none = err unavailable
  opened version (some value) = ok (some (value, version))

  -- What `getObject` makes of a reply.
  abbrev pub read_object : Reply (Option KeyValue) → Result (Option (Bytes × ℕ))
  read_object unreachable = err unavailable
  read_object (refused status code) = if status == 404 then ok none else err (parse_error code)
  read_object garbled = err unavailable
  read_object (responded none) = ok none
  read_object (responded (some kv)) = opened kv.version (vss_decrypt p c.encryption_key kv.value)

  unfoldable pub get_object : String → s.World → Result (Option (Bytes × ℕ)) × s.World
  get_object name w =
      let (reply, w') = s.get_object c.store_id (obfuscate_key p c.encryption_key name) w in
      (read_object reply, w')

  abbrev pub send_object :
      (name : String) (version : ℕ) → Option Bytes → s.World → Result ℕ × s.World
  send_object name version none w = (err unavailable, w)
  send_object name version (some encrypted) w =
      let (reply, w') =
        s.put_objects c.store_id
          (record {
            key = obfuscate_key p c.encryption_key name;
            version = version;
            value = encrypted;
          }
            ∷ [])
          w in
      (done (version + 1) reply, w')

  unfoldable pub put_object : String → Bytes → ℕ → s.World → Result ℕ × s.World
  put_object name value version w =
      let (nonce, w') = s.draw nonce_length w in
      send_object name version (vss_encrypt p c.encryption_key nonce value) w'

  -- The loop of `putObjects` that builds the request; `none` where `vssEncrypt` throws.
  abbrev pub add_item : Option KeyValue → Option (List KeyValue) → Option (List KeyValue)
  add_item (some kv) (some kvs) = some (kv ∷ kvs)
  add_item _ _ = none

  abbrev pub item : String → ℕ → Option Bytes → Option KeyValue
  item name version none = none
  item name version (some encrypted) =
      some (record {
        key = obfuscate_key p c.encryption_key name;
        version = version;
        value = encrypted;
      })

  pub transaction_items : List (String × Bytes × ℕ) → s.World → Option (List KeyValue) × s.World
  transaction_items [] w = (some [], w)
  transaction_items ((name, value, version) ∷ items) w =
      let (nonce, w1) = s.draw nonce_length w in
      let (rest, w2) = transaction_items items w1 in
      (add_item (item name version (vss_encrypt p c.encryption_key nonce value)) rest, w2)

  abbrev pub send_items : Option (List KeyValue) → s.World → Result (Unit {0}) × s.World
  send_items none w = (err unavailable, w)
  send_items (some items) w =
      let (reply, w') = s.put_objects c.store_id items w in (done tt reply, w')

  pub put_objects : List (String × Bytes × ℕ) → s.World → Result (Unit {0}) × s.World
  put_objects items w = let (request, w') = transaction_items items w in send_items request w'

  pub delete_object : String → ℕ → s.World → Result (Unit {0}) × s.World
  delete_object name version w =
      let (reply, w') =
        s.delete_object c.store_id (obfuscate_key p c.encryption_key name) version w in
      (done tt reply, w')

  -- A token that is there and not empty.
  abbrev pub token_of : Option (List ℕ) → Option (List ℕ)
  token_of (some (t ∷ ts)) = some (t ∷ ts)
  token_of _ = none

  abbrev pub Listed : Type 0
  Listed = Result (List (List ℕ × ℕ))

  abbrev pub prepend : List (List ℕ × ℕ) → Listed → Listed
  prepend es (ok fs) = ok (es ++ fs)
  prepend es (err e) = err e

  -- A page and, where it has a token, the pages behind it.
  abbrev pub after_page :
      List (List ℕ × ℕ) → Option (List ℕ) → s.World → (List ℕ → Listed × s.World) → Listed × s.World
  after_page es none w rest = (ok es, w)
  after_page es (some next) w rest = let (listed, w') = rest next in (prepend es listed, w')

  abbrev pub after_reply : Reply Page → s.World → (List ℕ → Listed × s.World) → Listed × s.World
  after_reply unreachable w rest = (err unavailable, w)
  after_reply garbled w rest = (err unavailable, w)
  after_reply (refused status code) w rest = (err (parse_error code), w)
  after_reply (responded page) w rest =
      after_page page.key_versions (token_of page.next_page_token) w rest

  -- The loop of `listKeyVersions`, with `left` pages that it may still ask for.
  unfoldable pub list_pages : (left : ℕ) → Option (List ℕ) → s.World → Listed × s.World
  list_pages zero token w = (err unavailable, w)
  list_pages (suc left) token w =
      let (reply, w') = s.list_key_versions c.store_id token w in
      after_reply reply w' (λ next. list_pages left (some next) w')

  unfoldable pub list_key_versions : s.World → Listed × s.World
  list_key_versions w = list_pages max_list_pages none w
