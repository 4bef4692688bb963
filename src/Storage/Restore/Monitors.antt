-- ===== src/Storage/Restore/Monitors.antt =====
-- The monitors that the recovery of src/ldk/init.ts stores.
use browser_wallet.Prelude.{
  ℕ, zero, suc, ◌+◌, ◌≤◌, ◌≡◌, refl, sym, ◌⊎◌, inl, inr, true, false, not, ◌&&◌, ◌||◌, Option, none,
  some, List, [], ◌∷◌, length, arith, Bool-cases,
}
use browser_wallet.Prelude.Hex.{list_eq, list_eq→eq, list_eq_self}
use browser_wallet.Storage.Remote.{Bytes, Result, ok, err}
use browser_wallet.Storage.Manifest.{Key, has}
use browser_wallet.Storage.Restore.{
  Local, Answers, first, behind, Tried, and_then, lookup, remove, put, chunk_size, all_answered,
  store_object, store_chunk, chunks,
}
use browser_wallet.Storage.Restore.Entries.{Covered, remove-wider, cons-Covered, lookup-put}

module _ (a : Answers) where
  abbrev pub IsCovered : Local → Type 0
  IsCovered l = Covered l.written_keys l.monitors × (l.wrote_manager ≡ false → l.manager ≡ none)

  -- A monitor is in the local store as VSS has it, and its version is known.
  abbrev pub IsRestored : Local → Key → Type 0
  IsRestored l k =
      (d : Bytes) × (v : ℕ) × (a.get_monitor k ≡ ok (some (d, v)))
      × (lookup k l.monitors ≡ some d)
      × (lookup k l.versions ≡ some v)

  -- A piece of the recovery keeps what was restored, and what it stores is noted.
  abbrev pub Extends : Local → Tried → Type 0
  Extends l (b, l') = IsCovered l' × ((j : Key) → IsRestored l j → IsRestored l' j)

  -- What `store_object` makes of a monitor that it takes.
  abbrev pub stored : Key → Bytes → ℕ → Local → Local
  stored k d v l = record l {
    monitors = put k d l.monitors;
    written_keys = k ∷ l.written_keys;
    versions = put k v l.versions;
  }

  pub stored-own :
      (k : Key) (d : Bytes) (v : ℕ) (l : Local)
      → a.get_monitor k ≡ ok (some (d, v))
      → IsRestored (stored k d v l) k
  stored-own k d v l h = (
    d,
    v,
    h,
    ground (arith, lookup-put k k d l.monitors, list_eq_self k),
    ground (arith, lookup-put k k v l.versions, list_eq_self k),
  )

  pub stored-Extends :
      (k : Key) (d : Bytes) (v : ℕ) (l : Local)
      → a.get_monitor k ≡ ok (some (d, v))
      → IsCovered l
      → Extends l (true, stored k d v l)
  unfolding has
  stored-Extends k d v l h (c, none_yet) = (
    (
      (
        ground (arith, list_eq_self k),
        cons-Covered k l.written_keys (remove k l.monitors)
            (remove-wider k l.written_keys l.monitors c),
      ),
      none_yet,
    ),
    keep_others,
  )
    where
      keep_others : (j : Key) → IsRestored l j → IsRestored (stored k d v l) j
      keep_others j (d', v', g, m, n) = elim (Bool-cases (list_eq k j)) [
        | inl e ↦ rw (sym (list_eq→eq k j e)) (stored-own k d v l h)
        | inr e ↦ (
          d',
          v',
          g,
          ground (arith, lookup-put j k d l.monitors),
          ground (arith, lookup-put j k v l.versions),
        )
      ]

  pub object-Extends :
      (k : Key) (l : Local) (x : Result (Option (Bytes × ℕ)))
      → a.get_monitor k ≡ x
      → IsCovered l
      → Extends l (store_object a k x l)
        × ((store_object a k x l).0 ≡ true → IsRestored (store_object a k x l).1 k)
  object-Extends k l (err e) h c = ((c, λ j r. r), λ p. absurd (ground arith))
  object-Extends k l (ok none) h c = ((c, λ j r. r), λ p. absurd (ground arith))
  object-Extends k l (ok (some (d, v))) h c = elim (Bool-cases (a.readable d && a.puts_monitor k)) [
    | inl p ↦ rw p (stored-Extends k d v l h c, λ _. stored-own k d v l h)
    | inr p ↦ rw p ((c, λ j r. r), λ q. absurd (ground arith))
  ]

  -- Two pieces, one behind the other.
  pub then-Extends :
      (l : Local) (r : Tried) (k : Local → Tried)
      → Extends l r
      → ((m : Local) → IsCovered m → Extends m (k m))
      → Extends l (and_then r k)
  then-Extends l (false, m) k (c, keep) rest = (c, keep)
  then-Extends l (true, m) k (c, keep) rest =
      let (c', keep') = rest m c in (c', λ j r. keep' j (keep j r))

  -- What was asked for has been restored, if the piece got to its end.
  abbrev pub Reaches : List Key → Local → Tried → Type 0
  Reaches ks l r = Extends l r × (r.0 ≡ true → (j : Key) → has j ks ≡ true → IsRestored r.1 j)

  pub then-Reaches :
      (ks ks1 ks2 : List Key) (l : Local) (r : Tried) (k : Local → Tried)
      → ((j : Key) → has j ks ≡ true → (has j ks1 ≡ true) ⊎ (has j ks2 ≡ true))
      → Reaches ks1 l r
      → ((m : Local) → IsCovered m → Reaches ks2 m (k m))
      → Reaches ks l (and_then r k)
  then-Reaches ks ks1 ks2 l (false, m) k split (e, own) rest = (e, λ p. absurd (ground arith))
  then-Reaches ks ks1 ks2 l (true, m) k split ((c, keep), own) rest =
      let ((c', keep'), own') = rest m c in
      (
        (c', λ j r. keep' j (keep j r)),
        λ p j h. elim (split j h) [ inl u ↦ keep' j (own refl j u) | inr u ↦ own' p j u ],
      )

  pub one-Reaches :
      (k : Key) (l : Local)
      → IsCovered l
      → Reaches (k ∷ []) l (store_object a k (a.get_monitor k) l)
  unfolding has
  one-Reaches k l c =
      let (e, own) = object-Extends k l (a.get_monitor k) refl c in
      (e, λ p j h. rw (sym (list_eq→eq k j (ground arith))) (own p))

  pub split_first :
      (k : Key) (ks : List Key) (j : Key)
      → has j (k ∷ ks) ≡ true
      → (has j (k ∷ []) ≡ true) ⊎ (has j ks ≡ true)
  unfolding has
  split_first k ks j h = elim (Bool-cases (list_eq k j)) [
    | inl e ↦ inl (ground arith)
    | inr e ↦ inr (ground arith)
  ]

  pub chunk-Reaches : (ks : List Key) (l : Local) → IsCovered l → Reaches ks l (store_chunk a ks l)
  unfolding store_chunk has
  chunk-Reaches [] l c = ((c, λ j r. r), λ p j h. absurd (ground arith))
  chunk-Reaches (k ∷ ks) l c =
      then-Reaches (k ∷ ks) (k ∷ []) ks l (store_object a k (a.get_monitor k) l) (store_chunk a ks)
        (split_first k ks) (one-Reaches k l c) (chunk-Reaches ks)

  pub split_chunk :
      (n : ℕ) (ks : List Key) (j : Key)
      → has j ks ≡ true
      → (has j (first n ks) ≡ true) ⊎ (has j (behind n ks) ≡ true)
  unfolding has
  split_chunk zero ks j h = inr h
  split_chunk (suc n) [] j h = inr h
  split_chunk (suc n) (k ∷ ks) j h = elim (Bool-cases (list_eq k j)) [
    | inl e ↦ inl (ground arith)
    | inr e ↦ elim (split_chunk n ks j (ground arith)) [
      | inl u ↦ inl (ground arith)
      | inr u ↦ inr u
    ]
  ]

  pub behind_shorter : (n : ℕ) (ks : List Key) → length (behind n ks) ≤ length ks
  behind_shorter zero ks = omega arith
  behind_shorter (suc n) [] = omega arith
  behind_shorter (suc n) (k ∷ ks) = omega (arith, behind_shorter n ks)

  -- As many rounds as there are keys are enough.
  pub chunks-Reaches :
      (rounds asked : ℕ) (ks : List Key) (l : Local)
      → length ks ≤ rounds
      → IsCovered l
      → Reaches ks l (chunks a rounds asked ks l)
  unfolding chunks has
  chunks-Reaches zero asked [] l h c = ((c, λ j r. r), λ p j u. absurd (ground arith))
  chunks-Reaches zero asked (k ∷ ks) l h c = absurd (omega arith)
  chunks-Reaches (suc n) asked [] l h c = ((c, λ j r. r), λ p j u. absurd (ground arith))
  chunks-Reaches (suc n) asked (k ∷ ks) l h c =
      elim (Bool-cases (a.late asked || not (all_answered a (first chunk_size (k ∷ ks))))) [
        | inl e ↦ rw e ((c, λ j r. r), λ p j u. absurd (ground arith))
        | inr e ↦ rw e (
            then-Reaches (k ∷ ks) (first chunk_size (k ∷ ks)) (behind chunk_size (k ∷ ks)) l
              (store_chunk a (first chunk_size (k ∷ ks)) l)
              (chunks a n (asked + chunk_size) (behind chunk_size (k ∷ ks)))
              (split_chunk chunk_size (k ∷ ks)) (chunk-Reaches (first chunk_size (k ∷ ks)) l c)
              (λ m d.
                chunks-Reaches n (asked + chunk_size) (behind chunk_size (k ∷ ks)) m
                  (omega (arith, behind_shorter 9 ks)) d))
      ]
