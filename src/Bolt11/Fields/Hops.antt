-- ===== src/Bolt11/Fields/Hops.antt =====
-- The bytes of a route hint (`encodeRouteHint` of src/ldk/lsps2/bolt11-encoder.ts), and what a reader
-- of BOLT 11 finds in them.
use browser_wallet.Prelude.{ℕ, ◌^◌, ◌<◌, ◌≡◌, refl, List, [], ◌∷◌, ◌++◌, arith, length}
use mathlib.Core.List.{append_assoc}
use browser_wallet.Bolt11.Words.{big_endian, value_of}
use browser_wallet.Bolt11.Words.Integers.{big_endian-value, length-big_endian}
use browser_wallet.Bolt11.Fields.{RouteHintEntry, four_bytes, two_bytes, hop_bytes, route_bytes}

-- Each hop takes 33, 8, 4, 4 and 2 bytes; the numbers are big-endian.
pub data ReadsHops : List ℕ → List RouteHintEntry → Type 0 where
  done : ReadsHops [] []
  hop :
      (scid base rate delta : List ℕ) {rest bytes : List ℕ} {h : RouteHintEntry}
      {hs : List RouteHintEntry}
      → bytes ≡ h.pubkey ++ (scid ++ (base ++ (rate ++ (delta ++ rest))))
      → length h.pubkey ≡ 33
      → (length scid ≡ 8) × (value_of 256 scid ≡ h.short_channel_id)
      → (length base ≡ 4) × (value_of 256 base ≡ h.fee_base_msat)
      → (length rate ≡ 4) × (value_of 256 rate ≡ h.fee_proportional_millionths)
      → (length delta ≡ 2) × (value_of 256 delta ≡ h.cltv_expiry_delta)
      → ReadsHops rest hs
      → ReadsHops bytes (h ∷ hs)

-- The ranges of the fields of a hop.
pub record IsHop (h : RouteHintEntry) : Type 0 where
  pub key_size : length h.pubkey ≡ 33
  pub scid_range : h.short_channel_id < 2 ^ 64
  pub base_range : h.fee_base_msat < 2 ^ 32
  pub rate_range : h.fee_proportional_millionths < 2 ^ 32
  pub delta_range : h.cltv_expiry_delta < 2 ^ 16

abbrev pub AreHops : List RouteHintEntry → Type 0
AreHops [] = Unit
AreHops (h ∷ hs) = IsHop h × AreHops hs

four_bytes-value : (v : ℕ) → v < 2 ^ 32 → value_of 256 (four_bytes v) ≡ v
four_bytes-value v h = ground arith

two_bytes-value : (v : ℕ) → v < 2 ^ 16 → value_of 256 (two_bytes v) ≡ v
two_bytes-value v h = ground arith

hop_bytes-append :
    (h : RouteHintEntry) (rest : List ℕ)
    → hop_bytes h ++ rest
      ≡ h.pubkey
        ++ (big_endian h.short_channel_id 8
            ++ (four_bytes h.fee_base_msat
                ++ (four_bytes h.fee_proportional_millionths
                    ++ (two_bytes h.cltv_expiry_delta ++ rest))))
unfolding hop_bytes
hop_bytes-append h rest = simp append_assoc

-- The bytes of a route are read back as its hops, where the key has 33 bytes and each number fits
-- its field: 64 bits for the channel, 32 for the two fees (with the sign bit), 16 for the delta.
pub route_bytes-ReadsHops :
    (hops : List RouteHintEntry) → AreHops hops → ReadsHops (route_bytes hops) hops
unfolding route_bytes
route_bytes-ReadsHops [] p = done
route_bytes-ReadsHops (h ∷ hs) (p, ps) =
    hop (big_endian h.short_channel_id 8) (four_bytes h.fee_base_msat)
      (four_bytes h.fee_proportional_millionths) (two_bytes h.cltv_expiry_delta)
      (hop_bytes-append h (route_bytes hs)) p.key_size
      (length-big_endian h.short_channel_id 8, big_endian-value h.short_channel_id 8 p.scid_range)
      (refl, four_bytes-value h.fee_base_msat p.base_range)
      (refl, four_bytes-value h.fee_proportional_millionths p.rate_range)
      (refl, two_bytes-value h.cltv_expiry_delta p.delta_range) (route_bytes-ReadsHops hs ps)
