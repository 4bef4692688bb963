-- ===== src/Bolt11/Fields.antt =====
-- The data part of an invoice: tagged fields and route hints of src/ldk/lsps2/bolt11-encoder.ts.
-- `bech32.toWords` and the UTF-8 encoder are parameters.
pub mod Reader
pub mod Hops
use browser_wallet.Prelude.{
  ℕ, zero, suc, ◌+◌, ◌/◌, ◌%◌, ◌^◌, ◌<◌, List, [], ◌∷◌, ◌++◌, length, ltb, if◌then◌else◌, Option,
  none, some,
}
use browser_wallet.Bolt11.Words.{
  shift_right, pattern_mod, int_to_words, timestamp_words, big_endian,
}

pub record RouteHintEntry : Type 0 where
  pub pubkey : List ℕ
  pub short_channel_id : ℕ
  pub fee_base_msat : ℕ
  pub fee_proportional_millionths : ℕ
  pub cltv_expiry_delta : ℕ

-- The description is given as the bytes of its UTF-8 encoding.
pub record InvoiceParams : Type 0 where
  pub payment_hash : List ℕ
  pub payment_secret : List ℕ
  pub description : List ℕ
  pub expiry_secs : ℕ
  pub min_final_cltv_expiry : ℕ
  pub payee_node_id : List ℕ
  pub route_hints : List (List RouteHintEntry)

-- `none` is the exception of `addTaggedField`.
infixl 5 ◌>>=◌
abbrev pub ◌>>=◌ {ℓ κ} : {A : Type ℓ} {B : Type κ} → Option A → (A → Option B) → Option B
none >>= f = none
some a >>= f = f a

-- `addTaggedField`. The length is below 1024, so that its upper five bits are `len / 32`.
pub add_tagged_field : List ℕ → ℕ → List ℕ → Option (List ℕ)
add_tagged_field words tag field =
    let n = length field in
    if ltb 1023 n then none else some (words ++ tag ∷ (n / 32 % 32) ∷ (n % 32) ∷ field)

-- `(v >> 24) & 0xff`, …, `v & 0xff`
abbrev pub four_bytes : ℕ → List ℕ
four_bytes v =
    let p = v % pattern_mod in
    (shift_right p 24 % 256) ∷ (shift_right p 16 % 256) ∷ (shift_right p 8 % 256) ∷ (p % 256) ∷ []

abbrev pub two_bytes : ℕ → List ℕ
two_bytes v = let p = v % pattern_mod in (shift_right p 8 % 256) ∷ (p % 256) ∷ []

-- The bytes of one hop.
pub hop_bytes : RouteHintEntry → List ℕ
hop_bytes hop =
    hop.pubkey
    ++ (big_endian hop.short_channel_id 8
        ++ (four_bytes hop.fee_base_msat
            ++ (four_bytes hop.fee_proportional_millionths ++ two_bytes hop.cltv_expiry_delta)))

-- The loop of `encodeRouteHint`, before the bytes become words.
pub route_bytes : List RouteHintEntry → List ℕ
route_bytes [] = []
route_bytes (hop ∷ hops) = hop_bytes hop ++ route_bytes hops

abbrev pub feature_words : List ℕ
feature_words = 5 ∷ 0 ∷ 16 ∷ 0 ∷ []

module _ (to_words : List ℕ → List ℕ) where
  abbrev pub encode_route_hint : List RouteHintEntry → List ℕ
  encode_route_hint hops = to_words (route_bytes hops)

  pub add_route_hints : List ℕ → List (List RouteHintEntry) → Option (List ℕ)
  add_route_hints words [] = some words
  add_route_hints words (route ∷ routes) = do
    next ← add_tagged_field words 3 (encode_route_hint route)
    add_route_hints next routes

  pub build_data_part : InvoiceParams → ℕ → Option (List ℕ)
  build_data_part params timestamp = do
    w1 ← add_tagged_field (timestamp_words timestamp) 1 (to_words params.payment_hash)
    w2 ← add_tagged_field w1 16 (to_words params.payment_secret)
    w3 ← add_tagged_field w2 13 (to_words params.description)
    w4 ← add_tagged_field w3 6 (int_to_words params.expiry_secs)
    w5 ← add_tagged_field w4 24 (int_to_words params.min_final_cltv_expiry)
    w6 ← add_tagged_field w5 19 (to_words params.payee_node_id)
    w7 ← add_tagged_field w6 5 feature_words
    add_route_hints w7 params.route_hints
