-- ===== src/Storage/Restore/Entries.antt =====
-- Entries of a store, for the recovery of src/ldk/init.ts.
use browser_wallet.Prelude.{
  ◌≡◌, refl, inl, inr, true, false, ◌&&◌, none, some, List, [], ◌∷◌, arith, if◌then◌else◌,
  Bool-cases,
}
use browser_wallet.Prelude.Hex.{list_eq, list_eq→eq, list_eq_self}
use browser_wallet.Storage.Remote.{Bytes}
use browser_wallet.Storage.Manifest.{Key, has}
use browser_wallet.Storage.Restore.{
  Local, Answers, lookup, remove, remove_all, put, delete_monitors, delete_manager,
}

-- The stored monitors are among those noted as written.
abbrev pub Covered : List Key → List (Key × Bytes) → Type 0
Covered ks [] = Unit
Covered ks ((k, d) ∷ m) = (has k ks ≡ true) × Covered ks m

pub remove-Covered :
    (k : Key) (ks : List Key) (m : List (Key × Bytes))
    → Covered (k ∷ ks) m
    → Covered ks (remove k m)
unfolding remove has
remove-Covered k ks [] h = tt
remove-Covered k ks ((j, d) ∷ m) (there, h) = elim (Bool-cases (list_eq j k)) [
  | inl e ↦ rw e (remove-Covered k ks m h)
  | inr e ↦ rw e (ground (arith, list_eq→eq k j, list_eq_self j), remove-Covered k ks m h)
]

pub remove-wider :
    (k : Key) (ks : List Key) (m : List (Key × Bytes)) → Covered ks m → Covered ks (remove k m)
unfolding remove
remove-wider k ks [] h = tt
remove-wider k ks ((j, d) ∷ m) (there, h) = elim (Bool-cases (list_eq j k)) [
  | inl e ↦ rw e (remove-wider k ks m h)
  | inr e ↦ rw e (there, remove-wider k ks m h)
]

pub cons-Covered :
    (k : Key) (ks : List Key) (m : List (Key × Bytes)) → Covered ks m → Covered (k ∷ ks) m
unfolding has
cons-Covered k ks [] h = tt
cons-Covered k ks ((j, d) ∷ m) (there, h) = (ground arith, cons-Covered k ks m h)

pub remove_all-Covered :
    (ks : List Key) (m : List (Key × Bytes)) → Covered ks m → remove_all ks m ≡ []
unfolding remove_all has
remove_all-Covered [] [] h = refl
remove_all-Covered [] ((k, d) ∷ m) (there, h) = absurd (ground arith)
remove_all-Covered (k ∷ ks) m h = remove_all-Covered ks (remove k m) (remove-Covered k ks m h)

pub lookup-remove :
    {A : Type 0} (j k : Key) (m : List (Key × A))
    → lookup j (remove k m) ≡ (if list_eq k j then none else lookup j m)
unfolding lookup remove
lookup-remove j k [] = ground arith
lookup-remove j k ((i, x) ∷ m) =
    ground
      (arith, lookup-remove j k m, list_eq→eq i k, list_eq→eq i j, list_eq→eq k j, list_eq_self j)

pub lookup-put :
    {A : Type 0} (j k : Key) (x : A) (m : List (Key × A))
    → lookup j (put k x m) ≡ (if list_eq k j then some x else lookup j m)
unfolding lookup
lookup-put j k x m = ground (arith, lookup-remove j k m)

module _ (a : Answers) where
  pub monitors-gone :
      (l : Local)
      → Covered l.written_keys l.monitors
      → a.deletes_monitors ≡ true
      → (delete_manager a (delete_monitors a l)).monitors ≡ []
  monitors-gone l c e = elim (Bool-cases (l.wrote_manager && a.deletes_manager)) [
    | inl w ↦ rw (e, w) (remove_all-Covered l.written_keys l.monitors c)
    | inr w ↦ rw (e, w) (remove_all-Covered l.written_keys l.monitors c)
  ]

  pub manager-gone :
      (l : Local)
      → (l.wrote_manager ≡ false → l.manager ≡ none)
      → a.deletes_manager ≡ true
      → (delete_manager a (delete_monitors a l)).manager ≡ none
  manager-gone l c e = elim (Bool-cases a.deletes_monitors) [
    | inl d ↦ elim (Bool-cases l.wrote_manager) [
      | inl w ↦ rw (d, e, w) refl
      | inr w ↦ rw (d, e, w) (c w)
    ]
    | inr d ↦ elim (Bool-cases l.wrote_manager) [
      | inl w ↦ rw (d, e, w) refl
      | inr w ↦ rw (d, e, w) (c w)
    ]
  ]
