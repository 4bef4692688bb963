-- ===== src/Events/History/Replay.antt =====
-- The payment history (src/ldk/storage/payment-history.ts) as a function from hashes to payments.
use browser_wallet.Prelude.{
  ℕ, ◌≡◌, refl, ap, sym, ◌∙◌, String, true, false, Option, none, some, List, [], ◌∷◌, arith, eq_iff,
  if◌then◌else◌, Bool-cases, inl, inr, str_eq, length, ◌<◌,
}
use browser_wallet.Prelude.Map
use browser_wallet.Prelude.Map.{Map, get-set}
use browser_wallet.Prelude.Decimal.{decimal_nonempty}
use browser_wallet.Prelude.BigInt.{ℤ, pos, negsuc, big_int}
use browser_wallet.Prelude.BigInt.Laws.{big_int-decimal, big_int-negated}
use browser_wallet.Events.History.{
  PersistedPayment, SerializedPayment, Status, to_text, fee_text, serialize, persist_payment,
  fee_of, deserialize_payment, or_else, updated, update_entry, parsed, update_payment_status,
}

big_int-to_text : (n : ℤ) → big_int (to_text n) ≡ some n
unfolding to_text
big_int-to_text (pos n) = big_int-decimal n
big_int-to_text (negsuc n) = big_int-negated n

fee_of_nonempty :
    (cs : List ℕ) (n : ℤ) → 0 < length cs → big_int cs ≡ some n → fee_of (some cs) ≡ some (some n)
fee_of_nonempty [] n h e = absurd (omega arith)
fee_of_nonempty (c ∷ cs) n h e = rw (e, fee_of) refl

nonempty_text : (n : ℤ) → 0 < length (to_text n)
unfolding to_text
nonempty_text (pos n) = decimal_nonempty n
nonempty_text (negsuc n) = omega arith

fee_of-fee_text : (o : Option ℤ) → fee_of (fee_text o) ≡ some o
fee_of-fee_text none = refl
fee_of-fee_text (some n) = fee_of_nonempty (to_text n) n (nonempty_text n) (big_int-to_text n)

-- What was stored is read back.
deserialize-serialize : (p : PersistedPayment) → deserialize_payment (serialize p) ≡ some p
unfolding deserialize_payment serialize
deserialize-serialize p =
    rw (big_int-to_text p.amount_msat) (rw (fee_of-fee_text p.fee_paid_msat) refl)

-- A call of `persistPayment`, or of `updatePaymentStatus`.
pub data Change : Type 0 where
  persists : PersistedPayment → Change
  updates : String → Status → Option ℤ → Option String → Change

pub apply : Change → Map SerializedPayment → Map SerializedPayment
apply (persists p) store = persist_payment p store
apply (updates hash status fee reason) store = update_payment_status hash status fee reason store

pub run : List Change → Map SerializedPayment → Map SerializedPayment
run [] store = store
run (c ∷ cs) store = run cs (apply c store)

-- The abstract history: a payment, or none, for each hash.
abbrev pub History : Type 0
History = String → Option PersistedPayment

-- What stands after an update: the new value where there is one, and the old one otherwise.
abbrev pub latest {ℓ} : {A : Type ℓ} → (new old : Option A) → Option A
latest (some a) old = some a
latest none (some a) = some a
latest none none = none

-- A payment behind an update, field by field.
abbrev pub amended :
    Status → Option ℤ → Option String → Option PersistedPayment → Option PersistedPayment
amended status fee reason none = none
amended status fee reason (some p) = some (record {
  payment_hash = p.payment_hash;
  direction = p.direction;
  amount_msat = p.amount_msat;
  status = status;
  fee_paid_msat = latest fee p.fee_paid_msat;
  created_at = p.created_at;
  failure_reason = latest reason p.failure_reason;
})

or_else-latest {ℓ} : {A : Type ℓ} (new old : Option A) → or_else new old ≡ latest new old
or_else-latest (some a) old = refl
or_else-latest none (some a) = refl
or_else-latest none none = refl

updated-amended :
    (status : Status) (fee : Option ℤ) (reason : Option String) (p : PersistedPayment)
    → some (updated status fee reason p) ≡ amended status fee reason (some p)
updated-amended status fee reason p =
    rw (or_else-latest fee p.fee_paid_msat, or_else-latest reason p.failure_reason) refl

abbrev pub apply_abstract : Change → History → History
apply_abstract (persists p) f k = if str_eq p.payment_hash k then some p else f k
apply_abstract (updates hash status fee reason) f k =
    if str_eq hash k then amended status fee reason (f k) else f k

pub replay : List Change → History → History
replay [] f = f
replay (c ∷ cs) f = replay cs (apply_abstract c f)

-- What `loadAllPayments` shows under a key.
abbrev pub view : Map SerializedPayment → History
view store k = parsed (Map.get k store)

-- Each payment stands under its own hash.
abbrev pub IsKeyed : Map SerializedPayment → Type 0
IsKeyed store = (k : String) (p : PersistedPayment) → view store k ≡ some p → p.payment_hash ≡ k

view-persist :
    (p : PersistedPayment) (store : Map SerializedPayment) (k : String)
    → view (persist_payment p store) k ≡ (if str_eq p.payment_hash k then some p else view store k)
unfolding persist_payment
view-persist p store k = elim (Bool-cases (str_eq p.payment_hash k)) [
  | inl e ↦ rw (get-set p.payment_hash k (serialize p) store) (rw e (deserialize-serialize p))
  | inr e ↦ rw (get-set p.payment_hash k (serialize p) store) (rw e refl)
]

persist-IsKeyed :
    (p : PersistedPayment) (store : Map SerializedPayment)
    → IsKeyed store
    → IsKeyed (persist_payment p store)
persist-IsKeyed p store h k q e =
    ground (arith, view-persist p store k, eq_iff p.payment_hash k, h k q)

update_entry-view :
    (hash : String) (status : Status) (fee : Option ℤ) (reason : Option String)
    (store : Map SerializedPayment) (o : Option PersistedPayment)
    → view store hash ≡ o
    → IsKeyed store
    → (view (update_entry status fee reason o store)
        ≡ apply_abstract (updates hash status fee reason) (view store))
      × IsKeyed (update_entry status fee reason o store)
unfolding update_entry
update_entry-view hash status fee reason store none e h = (λ i k. missing k i, h)
  where
    missing :
        (k : String)
        → view store k
          ≡ (if str_eq hash k then amended status fee reason (view store k) else view store k)
    missing k = elim (Bool-cases (str_eq hash k)) [
      | inl p ↦ rw p (
          let same : hash ≡ k = ground (arith, eq_iff hash k) in
          let gone : view store k ≡ none = rw (sym same) e in rw gone refl)
      | inr p ↦ rw p refl
    ]
update_entry-view hash status fee reason store (some q) e h =
    (λ i k. there k i, persist-IsKeyed (updated status fee reason q) store h)
  where
    there :
        (k : String)
        → view (persist_payment (updated status fee reason q) store) k
          ≡ (if str_eq hash k then amended status fee reason (view store k) else view store k)
    there k =
        let own : q.payment_hash ≡ hash = h hash q e in
        view-persist (updated status fee reason q) store k ∙ elim (Bool-cases (str_eq hash k)) [
          | inl p ↦
              (let same : hash ≡ k = ground (arith, eq_iff hash k) in
                let at_k : view store k ≡ some q = rw (sym same) e in
                let test : str_eq q.payment_hash k ≡ true = rw own p in
                rw (test, p, at_k) (updated-amended status fee reason q))
          | inr p ↦ (let test : str_eq q.payment_hash k ≡ false = rw own p in rw (test, p) refl)
        ]

apply-view :
    (c : Change) (store : Map SerializedPayment)
    → IsKeyed store
    → (view (apply c store) ≡ apply_abstract c (view store)) × IsKeyed (apply c store)
unfolding apply update_payment_status
apply-view (persists p) store h = (λ i k. view-persist p store k i, persist-IsKeyed p store h)
apply-view (updates hash status fee reason) store h =
    update_entry-view hash status fee reason store (view store hash) refl h

run-view :
    (cs : List Change) (store : Map SerializedPayment)
    → IsKeyed store
    → view (run cs store) ≡ replay cs (view store)
unfolding run replay
run-view [] store h = refl
run-view (c ∷ cs) store h =
    let (e, keyed) = apply-view c store h in run-view cs (apply c store) keyed ∙ ap (replay cs) e

empty-view : (k : String) → view [] k ≡ none
unfolding Map.get
empty-view k = refl

-- However payments are persisted and updated, the stored history reads, under every hash, as the same
-- changes make on a plain function from hashes to payments: a persisted payment replaces what stood
-- under its hash; an update of a payment that is there sets its status, sets its fee and its reason where
-- one is given, and leaves the rest of it; an update of a payment that is not there does nothing; and
-- no change touches another hash. Nothing is lost by the decimal texts in which amounts are stored.
pub run_refines : (cs : List Change) → view (run cs []) ≡ replay cs (λ _. none)
run_refines cs =
    run-view cs [] (λ k p e. cc (empty-view k)) ∙ ap (replay cs) (λ i k. empty-view k i)
