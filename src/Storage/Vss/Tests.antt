-- ===== src/Storage/Vss/Tests.antt =====
-- The theorems on the VSS client at concrete inputs: a service that answers, and a stand-in for a cipher.
use browser_wallet.Prelude.{
  ℕ, zero, suc, ◌+◌, ◌≤◌, String, ◌≡◌, ◌≢◌, refl, ap, ◌⊎◌, inl, inr, ◌↔◌, Option, none, some, List,
  [], ◌∷◌, ◌++◌, length, str_eq, arith, eq_iff, if◌then◌else◌,
}
use browser_wallet.Prelude.Hex.{list_eq, list_eq_self}
use browser_wallet.Storage.Remote.{Bytes, ok, Failure, err, IsFaithful}
use browser_wallet.Storage.Vss.{
  Primitives, take, drop, Reply, responded, refused, ErrorCode, KeyValue, Page, Service, Client,
  vss_encrypt, vss_decrypt, list_key_versions,
}
use browser_wallet.Storage.Vss.Framing.{IsCipher, vss_decrypt-vss_encrypt}
use browser_wallet.Storage.Vss.Listing.{Serves, list_key_versions_iff}
use browser_wallet.Storage.Vss.Refines.{IdbPut, IsHonest, client, held, client_refines}

abbrev zeros : ℕ → Bytes
zeros zero = []
zeros (suc n) = 0 ∷ zeros n

length-zeros : (n : ℕ) → length (zeros n) ≡ n
length-zeros zero = refl
length-zeros (suc n) = ap suc (length-zeros n)

abbrev tag : Bytes
tag = 0 ∷ 0 ∷ 0 ∷ 0 ∷ 0 ∷ 0 ∷ 0 ∷ 0 ∷ 0 ∷ 0 ∷ 0 ∷ 0 ∷ 0 ∷ 0 ∷ 0 ∷ 0 ∷ []

abbrev primitives : Primitives
primitives = record {
  encrypt = λ key nonce m. tag ++ m;
  decrypt = λ key nonce m. some (drop 16 m);
  hmac = λ key m. m;
  utf8 = λ name. if str_eq name "m" then 1 ∷ [] else 2 ∷ [];
}

abbrev primitives-IsCipher : IsCipher primitives
primitives-IsCipher = record { decrypts = λ key nonce m. refl; tagged = λ key nonce m. omega arith }

vss_decrypt-vss_encrypt_example :
    ((length (zeros 32) ≡ 32)
      × (blob : Bytes) × (vss_encrypt primitives (zeros 32) (zeros 12) (7 ∷ []) ≡ some blob)
      × (take 12 blob ≡ zeros 12)
      × (length blob ≡ 1 + 28)
      × (vss_decrypt primitives (zeros 32) blob ≡ some (7 ∷ [])))
    ⊎ ((length (zeros 32) ≢ 32)
        × (vss_encrypt primitives (zeros 32) (zeros 12) (7 ∷ []) ≡ none)
        × ((blob : Bytes) → vss_decrypt primitives (zeros 32) blob ≡ none))
vss_decrypt-vss_encrypt_example =
    vss_decrypt-vss_encrypt primitives primitives-IsCipher (zeros 32) (zeros 12) (7 ∷ []) refl

pub record Shelves : Type 0 where
  pub objects : List ℕ → Option (Bytes × ℕ)
  pub disk : String → Option Bytes

abbrev put : List KeyValue → Shelves → Shelves
put [] w = w
put (kv ∷ kvs) w = put kvs (record w {
  objects = λ k. if list_eq kv.key k then some (kv.value, kv.version + 1) else w.objects k;
})

abbrev as_reply : List ℕ → Option (Bytes × ℕ) → Reply (Option KeyValue)
as_reply k none = responded none
as_reply k (some (d, v)) = responded (some (record { key = k; version = v; value = d }))

abbrev one_page : Page
one_page = record { key_versions = (3 ∷ [], 1) ∷ []; next_page_token = none }

abbrev service : Service
service = record {
  World = Shelves;
  draw = λ n w. (zeros n, w);
  get_object = λ store k w. (as_reply k (w.objects k), w);
  put_objects = λ store items w. (responded tt, put items w);
  delete_object = λ store k v w. (responded tt, w);
  list_key_versions = λ store token w. (responded one_page, w);
}

abbrev local : IdbPut service
local k d w = (ok tt, record w { disk = λ j. if str_eq k j then some d else w.disk j })

as_reply-finds :
    (k : List ℕ) (kv : KeyValue) (o : Option (Bytes × ℕ))
    → as_reply k o ≡ responded (some kv)
    → o ≡ some (kv.value, kv.version)
as_reply-finds k kv none e = absurd (ground arith)
as_reply-finds k kv (some (d, v)) e = cc

as_reply-misses :
    (k : List ℕ) (code : Option ErrorCode) (o : Option (Bytes × ℕ))
    → (as_reply k o ≡ responded none) ⊎ (as_reply k o ≡ refused 404 code)
    → o ≡ none
as_reply-misses k code none e = refl
as_reply-misses k code (some (d, v)) (inl e) = absurd (ground arith)
as_reply-misses k code (some (d, v)) (inr e) = absurd (ground arith)

local-stores : (k : String) (d : Bytes) (w : Shelves) → (local k d w).1.disk k ≡ some d
local-stores k d w = ground (arith, eq_iff k k)

local-succeeds :
    (k : String) (d : Bytes) (x : Failure) (w : Shelves)
    → (local k d w).0 ≡ err x
    → (local k d w).1.disk k ≡ w.disk k
local-succeeds k d x w e = absurd (ground arith)

abbrev service-IsHonest : IsHonest service local "store"
service-IsHonest = record {
  stored = λ w k. w.objects k;
  disk = λ w k. w.disk k;
  draws = λ n w. length-zeros n;
  draw_keeps_disk = λ n w k. refl;
  put_takes = λ kv w e. rw (list_eq_self kv.key) refl;
  put_keeps_disk = λ kv w k. refl;
  get_finds = λ k kv w e. as_reply-finds k kv (w.objects k) e;
  get_misses = λ k code w e. as_reply-misses k code (w.objects k) e;
  get_keeps_disk = λ k w j. refl;
  idb_stores = λ k d w e. local-stores k d w;
  idb_fails = λ k d x w e. local-succeeds k d x w e;
  idb_keeps_stored = λ k j d w. refl;
}

abbrev vss : Client
vss = record { store_id = "store"; encryption_key = zeros 32 }

client_refines_example :
    (f : IsFaithful (client primitives service vss local)) × (f.held
      ≡ held primitives service vss local primitives-IsCipher service-IsHonest)
    × (f.kept ≡ service-IsHonest.disk)
client_refines_example =
    client_refines primitives service vss local primitives-IsCipher service-IsHonest

abbrev bare : Shelves
bare = record { objects = λ k. none; disk = λ k. none }

list_key_versions_iff_example :
    ((list_key_versions primitives service vss bare).0 ≡ ok ((3 ∷ [], 1) ∷ []))
    ↔ ((n : ℕ) × (n ≤ 100) × Serves primitives service vss none bare ((3 ∷ [], 1) ∷ []) n)
list_key_versions_iff_example = list_key_versions_iff primitives service vss bare ((3 ∷ [], 1) ∷ [])
