-- ===== src/Bolt11/Tests.antt =====
-- The invoice encoder at concrete inputs.
use browser_wallet.Prelude.{
  ℕ, ◌+◌, ◌*◌, ◌%◌, ◌^◌, ◌<◌, ◌≡◌, ◌↔◌, refl, List, [], ◌∷◌, ◌++◌, some, arith, length, All, ltb,
  if◌then◌else◌,
}
use browser_wallet.Prelude.BigInt.{pos, split, big_int}
use browser_wallet.Bolt11.Words.{words_to_buffer, int_to_words, timestamp_words, value_of}
use browser_wallet.Bolt11.Words.Regroup.{IsByte, words_to_buffer-value}
use browser_wallet.Bolt11.Words.Integers.{int_to_words-value_iff, timestamp_words-value}
use browser_wallet.Bolt11.Fields.{RouteHintEntry, InvoiceParams, build_data_part}
use browser_wallet.Bolt11.Fields.Reader.{Fits, IsDataPart, fields_of, build_data_part-Reads}
use browser_wallet.Bolt11.Scid.{ok, parse_lsps2_scid}
use browser_wallet.Bolt11.Hrp.{build_hrp, invoice_prefix, read_amount, read-build_hrp}

words_to_buffer-value_example :
    (pad : ℕ) × (pad < 8)
    × (length (words_to_buffer (31 ∷ 0 ∷ 31 ∷ [])) * 8 ≡ 3 * 5 + pad)
    × (value_of 256 (words_to_buffer (31 ∷ 0 ∷ 31 ∷ [])) ≡ value_of 32 (31 ∷ 0 ∷ 31 ∷ []) * 2 ^ pad)
    × All IsByte (words_to_buffer (31 ∷ 0 ∷ 31 ∷ []))
words_to_buffer-value_example = words_to_buffer-value (31 ∷ 0 ∷ 31 ∷ []) (omega arith)

int_to_words-value_iff_example : (value_of 32 (int_to_words 3600) ≡ 3600) ↔ (3600 < 2 ^ 31)
int_to_words-value_iff_example = int_to_words-value_iff 3600

-- 2040-01-01.
timestamp_words-value_example : value_of 32 (timestamp_words 2208988800) ≡ (
    if ltb (2208988800 % 2 ^ 32) (2 ^ 31)
    then 2208988800 % 2 ^ 32
    else 2208988800 % 2 ^ 32 + 7 * 2 ^ 32)
timestamp_words-value_example = timestamp_words-value 2208988800

abbrev key : List ℕ
key =
    2 ∷ 1 ∷ 1 ∷ 1 ∷ 1 ∷ 1 ∷ 1 ∷ 1 ∷ 1 ∷ 1 ∷ 1 ∷ 1 ∷ 1 ∷ 1 ∷ 1 ∷ 1 ∷ 1 ∷ 1 ∷ 1 ∷ 1 ∷ 1 ∷ 1 ∷ 1 ∷ 1
    ∷ 1 ∷ 1 ∷ 1 ∷ 1 ∷ 1 ∷ 1 ∷ 1 ∷ 1 ∷ 1 ∷ []

abbrev hint : RouteHintEntry
hint = record {
  pubkey = key;
  short_channel_id = 17592186044416;
  fee_base_msat = 0;
  fee_proportional_millionths = 4294967295;
  cltv_expiry_delta = 144;
}

abbrev invoice : InvoiceParams
invoice = record {
  payment_hash = 1 ∷ 2 ∷ [];
  payment_secret = 3 ∷ [];
  description = [];
  expiry_secs = 3600;
  min_final_cltv_expiry = 20;
  payee_node_id = key;
  route_hints = (hint ∷ []) ∷ [];
}

build_data_part-Reads_example :
    (Fits (fields_of (λ bs. bs) invoice)
      → (words : List ℕ) × (build_data_part (λ bs. bs) invoice 1700000000 ≡ some words)
        × IsDataPart (λ bs. bs) invoice 1700000000 words)
    × ((words : List ℕ)
        → build_data_part (λ bs. bs) invoice 1700000000 ≡ some words
        → Fits (fields_of (λ bs. bs) invoice))
build_data_part-Reads_example = build_data_part-Reads (λ bs. bs) invoice 1700000000

-- " 1x0x2": blanks are ignored.
abbrev spaced : List ℕ
spaced = 32 ∷ 49 ∷ b'x' ∷ 48 ∷ b'x' ∷ 50 ∷ []

spaced_parsed : parse_lsps2_scid spaced ≡ ok 1099511627778
unfolding parse_lsps2_scid split big_int
spaced_parsed = refl

-- "xx": an empty part reads as 0.
empty_parts : parse_lsps2_scid (b'x' ∷ b'x' ∷ []) ≡ ok 0
unfolding parse_lsps2_scid split big_int
empty_parts = refl

read-build_hrp_example :
    (text : List ℕ) × (build_hrp (pos 2500001) ≡ invoice_prefix ++ text)
    × (read_amount 0 text ≡ some (2500001 * 10))
read-build_hrp_example = read-build_hrp 2500000
