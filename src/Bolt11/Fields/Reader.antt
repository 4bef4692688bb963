-- ===== src/Bolt11/Fields/Reader.antt =====
-- A reader of the data part, as BOLT 11 describes it, and what it finds in the encoder's output
-- (src/ldk/lsps2/bolt11-encoder.ts).
use browser_wallet.Prelude.{
  ℕ, ◌+◌, ◌*◌, ◌/◌, ◌%◌, ◌<◌, ◌≡◌, refl, sym, false, ◌∙◌, ap, List, [], ◌∷◌, ◌++◌, arith, length,
  map, ltb, All, Option, some, Bool-cases, inl, inr,
}
use mathlib.Core.List.{append_assoc, append-nil}
use browser_wallet.Bolt11.Words.{int_to_words, timestamp_words, value_of}
use browser_wallet.Bolt11.Words.Regroup.{IsWord}
use browser_wallet.Bolt11.Words.Integers.{
  seen_time, timestamp_words-value, length-timestamp_words, timestamp_words-All,
}
use browser_wallet.Bolt11.Fields.{
  RouteHintEntry, InvoiceParams, add_tagged_field, add_route_hints, build_data_part,
  encode_route_hint, ◌>>=◌,
}

-- The fields of a list of words: a tag, the length in two words, and the data.
pub data Reads : List ℕ → List (ℕ × List ℕ) → Type 0 where
  done : Reads [] []
  field :
      {hi lo tag : ℕ} {text rest words : List ℕ} {fields : List (ℕ × List ℕ)}
      → words ≡ tag ∷ hi ∷ lo ∷ (text ++ rest)
      → length text ≡ hi * 32 + lo
      → hi < 32
      → lo < 32
      → Reads rest fields
      → Reads words ((tag, text) ∷ fields)

-- One field, as words.
abbrev field_words : ℕ × List ℕ → List ℕ
field_words (tag, text) = tag ∷ (length text / 32 % 32) ∷ (length text % 32) ∷ text

abbrev fields_words : List (ℕ × List ℕ) → List ℕ
fields_words [] = []
fields_words (f ∷ fs) = field_words f ++ fields_words fs

abbrev pub Fits : List (ℕ × List ℕ) → Type 0
Fits [] = Unit
Fits (f ∷ fs) = (length f.1 < 1024) × Fits fs

fields_words-Reads : (fs : List (ℕ × List ℕ)) → Fits fs → Reads (fields_words fs) fs
fields_words-Reads [] h = done
fields_words-Reads ((tag, text) ∷ fs) (h, hs) =
    field refl (omega arith) (omega arith) (omega arith) (fields_words-Reads fs hs)

add_all : List ℕ → List (ℕ × List ℕ) → Option (List ℕ)
add_all words [] = some words
add_all words ((tag, text) ∷ fs) = do next ← add_tagged_field words tag text; add_all next fs

add_all-Fits :
    (fs : List (ℕ × List ℕ)) (words : List ℕ)
    → Fits fs
    → add_all words fs ≡ some (words ++ fields_words fs)
unfolding add_all add_tagged_field
add_all-Fits [] words h = ap some (sym (append-nil words))
add_all-Fits ((tag, text) ∷ fs) words (h, hs) =
    let small : ltb 1023 (length text) ≡ false = ground arith in
    rw small (
      add_all-Fits fs (words ++ field_words (tag, text)) hs
      ∙ ap some (append_assoc words (field_words (tag, text)) (fields_words fs)))

add_all→Fits :
    (fs : List (ℕ × List ℕ)) (words result : List ℕ) → add_all words fs ≡ some result → Fits fs
unfolding add_all add_tagged_field
add_all→Fits [] words result e = tt
add_all→Fits ((tag, text) ∷ fs) words result e = elim (Bool-cases (ltb 1023 (length text))) [
  | inl p ↦ cc (rw p at e)
  | inr p ↦ (ground arith, add_all→Fits fs _ result (rw p at e))
]

module _ (to_words : List ℕ → List ℕ) where
  -- The fields of an invoice, in their order.
  abbrev pub fields_of : InvoiceParams → List (ℕ × List ℕ)
  fields_of params =
      (1, to_words params.payment_hash)
      ∷ (16, to_words params.payment_secret)
      ∷ (13, to_words params.description)
      ∷ (6, int_to_words params.expiry_secs)
      ∷ (24, int_to_words params.min_final_cltv_expiry)
      ∷ (19, to_words params.payee_node_id)
      ∷ (5, 5 ∷ 0 ∷ 16 ∷ 0 ∷ [])
      ∷ map (λ route. (3, encode_route_hint to_words route)) params.route_hints

  add_route_hints-add_all :
      (routes : List (List RouteHintEntry)) (words : List ℕ)
      → add_route_hints to_words words routes
        ≡ add_all words (map (λ route. (3, encode_route_hint to_words route)) routes)
  unfolding add_route_hints add_all
  add_route_hints-add_all [] words = refl
  add_route_hints-add_all (route ∷ routes) words = simp (add_route_hints-add_all routes)

  build-add_all :
      (params : InvoiceParams) (t : ℕ)
      → build_data_part to_words params t ≡ add_all (timestamp_words t) (fields_of params)
  unfolding build_data_part add_all
  build-add_all params t = simp (add_route_hints-add_all params.route_hints)

  -- A data part as a reader takes it: seven words whose 35 bits show a time, and behind them the fields
  -- of the parameters.
  abbrev pub IsDataPart : InvoiceParams → ℕ → List ℕ → Type 0
  IsDataPart params t words =
      (head : List ℕ) × (body : List ℕ) × (words ≡ head ++ body)
      × (length head ≡ 7)
      × All IsWord head
      × (value_of 32 head ≡ seen_time t)
      × Reads body (fields_of params)

  -- The encoder succeeds exactly if each field has at most 1023 words. What it returns begins with seven
  -- words of five bits, in which a reader of BOLT 11 sees the lower 32 bits of the time if bit 31 is not
  -- set (so the time itself below 2 ^ 31 seconds), and 7 * 2 ^ 32 seconds more if it is; behind them
  -- the reader finds the fields of the parameters, in their order, and nothing else.
  pub build_data_part-Reads :
      (params : InvoiceParams) (t : ℕ)
      → (Fits (fields_of params)
          → (words : List ℕ) × (build_data_part to_words params t ≡ some words)
            × IsDataPart params t words)
        × ((words : List ℕ)
            → build_data_part to_words params t ≡ some words
            → Fits (fields_of params))
  build_data_part-Reads params t = (
    λ h. (
      timestamp_words t ++ fields_words (fields_of params),
      build-add_all params t ∙ add_all-Fits (fields_of params) (timestamp_words t) h,
      (
        timestamp_words t,
        fields_words (fields_of params),
        refl,
        length-timestamp_words t,
        timestamp_words-All t,
        timestamp_words-value t,
        fields_words-Reads (fields_of params) h,
      ),
    ),
    λ words e.
        add_all→Fits (fields_of params) (timestamp_words t) words
          (sym (build-add_all params t) ∙ e),
  )
