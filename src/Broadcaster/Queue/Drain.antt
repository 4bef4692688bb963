-- ===== src/Broadcaster/Queue/Drain.antt =====
-- What `drainPendingBroadcasts` of src/ldk/traits/broadcaster.ts leaves in the store.
use browser_wallet.Prelude.{
  ℕ, ◌+◌, ◌<◌, String, ◌≡◌, refl, sym, ap, ◌∙◌, Bool, true, false, ◌⊎◌, inl, inr, none, some, [],
  ◌∷◌, arith, eq_iff, ltb, ltb→lt, str_eq, Bool-cases,
}
use browser_wallet.Prelude.Map
use browser_wallet.Prelude.Map.{Map, get-set, get-delete}
use browser_wallet.Broadcaster.{pending_broadcast_ttl_ms}
use browser_wallet.Broadcaster.Queue.{Queue, has, forget, begin_broadcast, drain}
use browser_wallet.Broadcaster.Queue.Keys.{IsMap}

abbrev pub IsPending : String → Queue → Type 0
IsPending tx q = (t : ℕ) × (Map.get tx q.pending ≡ some t)

pub forget-IsPending :
    (deletes : Bool) (t tx : String) (q : Queue)
    → IsPending tx q
    → IsPending tx (forget deletes t q) ⊎ (t ≡ tx)
forget-IsPending false t tx q h = inl h
forget-IsPending true t tx q (n, h) = elim (Bool-cases (str_eq t tx)) [
  | inl e ↦ inr (ground (arith, eq_iff t tx))
  | inr e ↦ inl (n, ground (arith, get-delete t tx q.pending))
]

pub begin-IsPending :
    (deletes : Bool) (t tx : String) (q : Queue)
    → IsPending tx q
    → IsPending tx (begin_broadcast deletes t q) ⊎ ((t ≡ tx) × (has tx q.inflight ≡ true))
unfolding begin_broadcast
begin-IsPending deletes t tx q h = elim (Bool-cases (has t q.inflight)) [
  | inl e ↦ rw e (elim (forget-IsPending deletes t tx q h) [
    | inl kept ↦ inl kept
    | inr same ↦ inr (same, rw (sym same) e)
  ])
  | inr e ↦ rw e (inl h)
]

pub has-begin :
    (deletes : Bool) (t tx : String) (q : Queue)
    → str_eq t tx ≡ false
    → has tx (begin_broadcast deletes t q).inflight ≡ has tx q.inflight
unfolding begin_broadcast has
has-begin deletes t tx q e = ground arith

pub differs : (t tx : String) → str_eq t tx ≡ false → (t ≡ tx) → ⊥
differs t tx e h = ground (arith, eq_iff t tx)

-- What is not among the entries stays.
pub drain_others-IsPending :
    (now : ℕ) (deletes : Bool) (entries : Map ℕ) (tx : String) (q : Queue)
    → Map.get tx entries ≡ none
    → IsPending tx q
    → IsPending tx (drain now deletes entries q)
unfolding drain Map.get
drain_others-IsPending now deletes [] tx q e h = h
drain_others-IsPending now deletes ((t, c) ∷ entries) tx q e h =
    let other : str_eq t tx ≡ false = ground arith in
    let rest : Map.get tx entries ≡ none = ground arith in
    elim (Bool-cases (ltb (c + pending_broadcast_ttl_ms) now)) [
      | inl old ↦ rw old (
          drain_others-IsPending now deletes entries tx _ rest
            (elim (forget-IsPending deletes t tx q h) [
              | inl kept ↦ kept
              | inr same ↦ absurd (differs t tx other same)
            ]))
      | inr young ↦ rw young (
          drain_others-IsPending now deletes entries tx _ rest
            (elim (begin-IsPending deletes t tx q h) [
              | inl kept ↦ kept
              | inr (same, _) ↦ absurd (differs t tx other same)
            ]))
    ]

pub empty : (tx : String) → Map.get {V = ℕ} tx [] ≡ none
unfolding Map.get
empty tx = refl

-- Why `drain` over some entries may forget a transaction.
abbrev pub Overdue : ℕ → Map ℕ → String → Queue → Type 0
Overdue now entries tx q =
    ((c : ℕ) × (Map.get tx entries ≡ some c) × (c + pending_broadcast_ttl_ms < now))
    ⊎ (has tx q.inflight ≡ true)

pub later-Overdue :
    (now : ℕ) (t : String) (c : ℕ) (entries : Map ℕ) (tx : String) (q q' : Queue)
    → str_eq t tx ≡ false
    → has tx q'.inflight ≡ has tx q.inflight
    → Overdue now entries tx q'
    → Overdue now ((t, c) ∷ entries) tx q
unfolding Map.get
later-Overdue now t c entries tx q q' other same (inl (n, e, old)) = inl (n, rw other e, old)
later-Overdue now t c entries tx q q' other same (inr e) = inr (sym same ∙ e)

pub forget-inflight :
    (deletes : Bool) (t : String) (q : Queue) → (forget deletes t q).inflight ≡ q.inflight
forget-inflight false t q = refl
forget-inflight true t q = refl

-- The transaction's own entry.
pub drain_own-IsPending :
    (now : ℕ) (deletes : Bool) (c : ℕ) (entries : Map ℕ) (tx : String) (q : Queue)
    → Map.get tx entries ≡ none
    → IsPending tx q
    → IsPending tx (drain now deletes ((tx, c) ∷ entries) q) ⊎ Overdue now ((tx, c) ∷ entries) tx q
unfolding drain Map.get
drain_own-IsPending now deletes c entries tx q fresh h =
    elim (Bool-cases (ltb (c + pending_broadcast_ttl_ms) now)) [
      | inl old ↦
          inr (inl (c, ground (arith, eq_iff tx tx), ltb→lt (c + pending_broadcast_ttl_ms) now old))
      | inr young ↦ elim (begin-IsPending deletes tx tx q h) [
        | inl kept ↦ inl (rw young (drain_others-IsPending now deletes entries tx _ fresh kept))
        | inr (_, e) ↦ inr (inr e)
      ]
    ]

-- An entry of another transaction.
pub drain_other-IsPending :
    (now : ℕ) (deletes : Bool) (t : String) (c : ℕ) (entries : Map ℕ) (tx : String) (q : Queue)
    → str_eq t tx ≡ false
    → ((q' : Queue)
        → IsPending tx q'
        → IsPending tx (drain now deletes entries q') ⊎ Overdue now entries tx q')
    → IsPending tx q
    → IsPending tx (drain now deletes ((t, c) ∷ entries) q) ⊎ Overdue now ((t, c) ∷ entries) tx q
unfolding drain
drain_other-IsPending now deletes t c entries tx q other rest h =
    elim (Bool-cases (ltb (c + pending_broadcast_ttl_ms) now)) [
      | inl old ↦ rw old (elim (forget-IsPending deletes t tx q h) [
        | inl kept ↦ elim (rest (forget deletes t q) kept) [
          | inl there ↦ inl there
          | inr why ↦ inr (
              later-Overdue now t c entries tx q (forget deletes t q) other
                (ap (has tx) (forget-inflight deletes t q)) why)
        ]
        | inr same ↦ absurd (differs t tx other same)
      ])
      | inr young ↦ rw young (elim (begin-IsPending deletes t tx q h) [
        | inl kept ↦ elim (rest (begin_broadcast deletes t q) kept) [
          | inl there ↦ inl there
          | inr why ↦ inr (
              later-Overdue now t c entries tx q (begin_broadcast deletes t q) other
                (has-begin deletes t tx q other) why)
        ]
        | inr (same, _) ↦ absurd (differs t tx other same)
      ])
    ]

pub drain-IsPending :
    (now : ℕ) (deletes : Bool) (entries : Map ℕ) (tx : String) (q : Queue)
    → IsMap entries
    → IsPending tx q
    → IsPending tx (drain now deletes entries q) ⊎ Overdue now entries tx q
drain-IsPending now deletes [] tx q m h =
    inl (drain_others-IsPending now deletes [] tx q (empty tx) h)
drain-IsPending now deletes ((t, c) ∷ entries) tx q (fresh, m) h = elim (Bool-cases (str_eq t tx)) [
  | inl same ↦
      (let e : t ≡ tx = ground (arith, eq_iff t tx) in
        rw e (drain_own-IsPending now deletes c entries tx q (rw (sym e) fresh) h))
  | inr other ↦
      drain_other-IsPending now deletes t c entries tx q other
        (λ q' k. drain-IsPending now deletes entries tx q' m k) h
]
