-- ===== src/Events/History.antt =====
-- src/ldk/storage/payment-history.ts: the payments, as the store `ldk_payment_history` keeps them. Keys
-- are the hexadecimal texts of hashes; a `bigint` is stored as its decimal text.
pub mod Replay
use browser_wallet.Prelude.{ℕ, suc, String, Bool, Option, none, some, List, [], ◌∷◌}
use browser_wallet.Prelude.Map
use browser_wallet.Prelude.Map.{Map}
use browser_wallet.Prelude.Decimal.{decimal}
use browser_wallet.Prelude.BigInt.{ℤ, pos, negsuc, big_int}

pub data Direction : Type 0 where
  inbound outbound : Direction

pub data Status : Type 0 where
  pending succeeded failed : Status

pub record PersistedPayment : Type 0 where
  pub payment_hash : String
  pub direction : Direction
  pub amount_msat : ℤ
  pub status : Status
  pub fee_paid_msat : Option ℤ
  pub created_at : ℕ
  pub failure_reason : Option String

pub record SerializedPayment : Type 0 where
  pub payment_hash : String
  pub direction : Direction
  pub amount_msat : List ℕ
  pub status : Status
  pub fee_paid_msat : Option (List ℕ)
  pub created_at : ℕ
  pub failure_reason : Option String

-- `toString` of a `bigint`.
pub to_text : ℤ → List ℕ
to_text (pos n) = decimal n
to_text (negsuc n) = b'-' ∷ decimal (suc n)

abbrev pub fee_text : Option ℤ → Option (List ℕ)
fee_text none = none
fee_text (some n) = some (to_text n)

pub serialize : PersistedPayment → SerializedPayment
unfolding to_text
serialize p = record {
  payment_hash = p.payment_hash;
  direction = p.direction;
  amount_msat = to_text p.amount_msat;
  status = p.status;
  fee_paid_msat = fee_text p.fee_paid_msat;
  created_at = p.created_at;
  failure_reason = p.failure_reason;
}

pub persist_payment : PersistedPayment → Map SerializedPayment → Map SerializedPayment
unfolding serialize
persist_payment p store = Map.set p.payment_hash (serialize p) store

-- `value.feePaidMsat ? BigInt(value.feePaidMsat) : null`; the outer `none` is a SyntaxError.
abbrev pub fee_of : Option (List ℕ) → Option (Option ℤ)
fee_of none = some none
fee_of (some []) = some none
fee_of (some (c ∷ cs)) = elim (big_int (c ∷ cs)) [ none ↦ none | some n ↦ some (some n) ]

abbrev pub with_amounts : SerializedPayment → Option ℤ → Option (Option ℤ) → Option PersistedPayment
with_amounts v (some amount) (some fee) = some (record {
  payment_hash = v.payment_hash;
  direction = v.direction;
  amount_msat = amount;
  status = v.status;
  fee_paid_msat = fee;
  created_at = v.created_at;
  failure_reason = v.failure_reason;
})
with_amounts v _ _ = none

pub deserialize_payment : SerializedPayment → Option PersistedPayment
deserialize_payment v = with_amounts v (big_int v.amount_msat) (fee_of v.fee_paid_msat)

-- `a ?? b`
abbrev pub or_else {ℓ} : {A : Type ℓ} → Option A → Option A → Option A
or_else none b = b
or_else (some a) b = some a

abbrev pub updated : Status → Option ℤ → Option String → PersistedPayment → PersistedPayment
updated status fee reason p = record p {
  status = status;
  fee_paid_msat = or_else fee p.fee_paid_msat;
  failure_reason = or_else reason p.failure_reason;
}

-- What is done with the entry that was read; nothing where it does not parse.
pub update_entry :
    Status
    → Option ℤ
    → Option String
    → Option PersistedPayment
    → Map SerializedPayment
    → Map SerializedPayment
unfolding persist_payment
update_entry status fee reason none store = store
update_entry status fee reason (some p) store = persist_payment (updated status fee reason p) store

abbrev pub parsed : Option SerializedPayment → Option PersistedPayment
parsed none = none
parsed (some raw) = deserialize_payment raw

pub update_payment_status :
    String → Status → Option ℤ → Option String → Map SerializedPayment → Map SerializedPayment
unfolding update_entry
update_payment_status hash status fee reason store =
    update_entry status fee reason (parsed (Map.get hash store)) store
