-- ===== src/Sync/Once/Told.antt =====
-- What LDK has been told when `syncOnce` of src/ldk/sync/chain-sync.ts returns a new tip.
use browser_wallet.Prelude.{
  ℕ, ◌≡◌, refl, sym, ap, false, ◌&&◌, ◌⊎◌, inl, inr, Option, none, some, List, [], ◌∷◌, ◌++◌, map,
  arith, Bool-cases,
}
use browser_wallet.Prelude.Hex.{list_eq, list_eq→eq, list_eq_self}
use browser_wallet.Sync.Esplora.{
  Text, Bytes, TxStatus, Esplora, Call, best_block_updated, transactions_confirmed, Run, and_then,
  asks,
}
use browser_wallet.Sync.Once.{
  Relevant, nonempty, detect_reorg, update_best_block, confirm, block_of, check_tx, all_settled,
  check_watched, all_relevant, has, prune, Watch, same_tip, finish_sync, numbers, checks, sync_once,
  sync_to,
}

abbrev pub Among : {A : Type 0} → A → List A → Type 0
Among x [] = ⊥
Among x (y ∷ ys) = (y ≡ x) ⊎ Among x ys

Among-front : {A : Type 0} (x : A) (xs ys : List A) → Among x xs → Among x (xs ++ ys)
Among-front x [] ys h = absurd h
Among-front x (y ∷ xs) ys (inl e) = inl e
Among-front x (y ∷ xs) ys (inr h) = inr (Among-front x xs ys h)

Among-back : {A : Type 0} (x : A) (xs ys : List A) → Among x ys → Among x (xs ++ ys)
Among-back x [] ys h = h
Among-back x (y ∷ xs) ys h = inr (Among-back x xs ys h)

Among-map : {A B : Type 0} (f : A → B) (x : A) (xs : List A) → Among x xs → Among (f x) (map f xs)
Among-map f x [] h = absurd h
Among-map f x (y ∷ xs) (inl e) = inl (ap f e)
Among-map f x (y ∷ xs) (inr h) = inr (Among-map f x xs h)

and_then-some :
    {A B : Type 0} (x : Run A) (k : A → Run B) (b : B)
    → (and_then x k).0 ≡ some b
    → (a : A) × (x.0 ≡ some a) × ((k a).0 ≡ some b) × ((and_then x k).1 ≡ x.1 ++ (k a).1)
and_then-some (none, cs) k b e = absurd (ground arith)
and_then-some (some a, cs) k b e = (a, refl, e, refl)

module _ (e : Esplora) where
  -- A check that returned has its calls among all of them.
  settled-Among :
      (c : Call) (cs : List Call) (runs : List (Run Unit))
      → Among (some tt, cs) runs
      → Among c cs
      → Among c (all_settled e runs)
  unfolding all_settled
  settled-Among c cs [] m h = absurd m
  settled-Among c cs ((r, ds) ∷ runs) (inl same) h =
      Among-front c ds (all_settled e runs) (rw (ap (λ p. p.1) same) h)
  settled-Among c cs ((r, ds) ∷ runs) (inr m) h =
      Among-back c ds (all_settled e runs) (settled-Among c cs runs m h)

  -- The tip that a sync returns was told to every `Confirm` object, with its own height and header.
  abbrev pub IsBestTold : List ℕ → Text → List Call → Type 0
  IsBestTold confirmables tip calls =
      (height : ℕ) × (header : Bytes) × (e.get_block_height tip ≡ some height)
      × (e.get_block_header tip ≡ some header)
      × ((i : ℕ) → Among i confirmables → Among (best_block_updated i header height) calls)

  update-IsBestTold :
      (confirmables : List ℕ) (tip : Text)
      → (update_best_block e confirmables tip).0 ≡ some tt
      → IsBestTold confirmables tip (update_best_block e confirmables tip).1
  unfolding update_best_block
  update-IsBestTold confirmables tip h =
      let (height, eh, h', _) = and_then-some (asks (e.get_block_height tip)) _ tt h in
      let (header, ehd, _, _) = and_then-some (asks (e.get_block_header tip)) _ tt h' in
      (
        height,
        header,
        eh,
        ehd,
        λ i m. rw (eh, ehd) (Among-map (λ j. best_block_updated j header height) i confirmables m),
      )

  -- What is known of a transaction that is confirmed.
  pub record Confirmed (txid : Text) : Type 0 where
    pub status : TxStatus
    pub hash : Text
    pub height : ℕ
    pub header : Bytes
    pub tx : Bytes
    pub pos : ℕ
    pub has_status : e.get_tx_status txid ≡ some status
    pub has_block :
        block_of e status.confirmed (nonempty status.block_hash) status.block_height
        ≡ some (hash, height)
    pub has_header : e.get_block_header hash ≡ some header
    pub has_tx : e.get_tx_hex txid ≡ some tx
    pub has_proof : e.get_tx_merkle_proof txid hash ≡ some pos

  check_tx-Confirmed :
      (confirmables : List ℕ) (txid : Text) (c : Confirmed txid)
      → check_tx e confirmables txid
        ≡ (some tt, map (λ i. transactions_confirmed i c.header c.pos c.tx c.height) confirmables)
  unfolding check_tx confirm
  check_tx-Confirmed confirmables txid c =
      rw (c.has_status, c.has_block, c.has_header, c.has_tx, c.has_proof) refl

has-prune :
    (relevant ts : List Text) (t : Text) → has t (prune relevant ts) ≡ (has t ts && has t relevant)
unfolding has prune
has-prune relevant [] t = refl
has-prune relevant (x ∷ ts) t = elim (Bool-cases (list_eq x t)) [
  | inl same ↦ rw (list_eq→eq x t same) (ground (arith, has-prune relevant ts t, list_eq_self t))
  | inr other ↦ ground (arith, has-prune relevant ts t)
]

module _ (e : Esplora) (before behind : List (ℕ × Relevant)) (added : Watch) where
  -- What holds behind a sync that returns a new tip.
  abbrev pub IsTold : Text → Watch → Run Text × Watch → Type 0
  IsTold tip watch ((result, calls), watch') =
      IsBestTold e (numbers before) tip calls
      × ((txid : Text)
          → Among txid watch.watched_txids
          → (c : Confirmed e txid) → (i : ℕ) → Among i (numbers before)
          → Among (transactions_confirmed i c.header c.pos c.tx c.height) calls)
      × ((t : Text)
          → has t watch'.watched_txids
            ≡ (has t (watch.watched_txids ++ added.watched_txids) && has t (all_relevant behind)))

  check_watched-Among :
      (watch : Watch) (txid : Text) (c : Confirmed e txid) (i : ℕ)
      → Among txid watch.watched_txids
      → Among i (numbers before)
      → Among (transactions_confirmed i c.header c.pos c.tx c.height) (checks e before watch)
  unfolding check_watched
  check_watched-Among watch txid c i m n =
      Among-front _ (all_settled e (map (check_tx e (numbers before)) watch.watched_txids)) _ (
        settled-Among e _ _ (map (check_tx e (numbers before)) watch.watched_txids)
          (rw (sym (check_tx-Confirmed e (numbers before) txid c))
            (Among-map (check_tx e (numbers before)) txid watch.watched_txids m))
          (Among-map (λ j. transactions_confirmed j c.header c.pos c.tx c.height) i (numbers before)
            n))

  back-IsBestTold :
      (tip : Text) (cs ds : List Call)
      → IsBestTold e (numbers before) tip ds
      → IsBestTold e (numbers before) tip (cs ++ ds)
  back-IsBestTold tip cs ds (height, header, p, q, told) =
      (height, header, p, q, λ i m. Among-back _ cs ds (told i m))

  front-IsBestTold :
      (tip : Text) (cs ds : List Call)
      → IsBestTold e (numbers before) tip cs
      → IsBestTold e (numbers before) tip (cs ++ ds)
  front-IsBestTold tip cs ds (height, header, p, q, told) =
      (height, header, p, q, λ i m. Among-front _ cs ds (told i m))

  abbrev first_parts : Text → Run Unit
  first_parts tip = and_then (detect_reorg e before) (λ _. update_best_block e (numbers before) tip)

  first_parts-IsBestTold :
      (tip : Text)
      → (first_parts tip).0 ≡ some tt
      → IsBestTold e (numbers before) tip (first_parts tip).1
  first_parts-IsBestTold tip h =
      let (_, _, done, calls) =
        and_then-some (detect_reorg e before) (λ _. update_best_block e (numbers before) tip) tt
          h in
      rw calls (
        back-IsBestTold tip (detect_reorg e before).1 _
          (update-IsBestTold e (numbers before) tip done))

  finish-IsTold :
      (tip t : Text) (watch : Watch) (updated : Run Unit)
      → (updated.0 ≡ some tt → IsBestTold e (numbers before) t updated.1)
      → (finish_sync t (checks e before watch) (all_relevant behind) added watch updated).0.0
        ≡ some tip
      → IsTold tip watch
          (finish_sync t (checks e before watch) (all_relevant behind) added watch updated)
  finish-IsTold tip t watch (none, calls) told h = absurd (ground arith)
  finish-IsTold tip t watch (some u, calls) told h =
      let same : t ≡ tip = ground arith in
      (
        rw (sym same) (front-IsBestTold t calls (checks e before watch) (told refl)),
        (λ txid m c i n.
            Among-back _ calls (checks e before watch) (check_watched-Among watch txid c i m n)),
        (λ x. has-prune (all_relevant behind) (watch.watched_txids ++ added.watched_txids) x),
      )

  sync_to-IsTold :
      (last : Option Text) (watch : Watch) (tip : Text) (o : Option Text)
      → (sync_to e before behind added last watch o).0.0 ≡ some tip
      → same_tip tip last ≡ false
      → IsTold tip watch (sync_to e before behind added last watch o)
  sync_to-IsTold last watch tip none h new = absurd (ground arith)
  sync_to-IsTold last watch tip (some t) h new = elim (Bool-cases (same_tip t last)) [
    | inl old ↦ (let same : some t ≡ some tip = rw old at h in absurd (ground arith))
    | inr p ↦
        rw p (finish-IsTold tip t watch (first_parts t) (first_parts-IsBestTold t) (rw p at h))
  ]

  -- When a sync returns a tip other than the last one, it has given every `Confirm` object the header and
  -- the height of that tip, and each watched transaction that Esplora reports as confirmed and for which
  -- it answers the further requests, with its block's header and height, its position and its bytes; and
  -- of the transactions watched, or registered meanwhile, exactly those are watched from then on that some `Confirm` object lists.
  pub sync_once-IsTold :
      (last : Option Text) (watch : Watch) (tip : Text)
      → (sync_once e before behind added last watch).0.0 ≡ some tip
      → same_tip tip last ≡ false
      → IsTold tip watch (sync_once e before behind added last watch)
  unfolding sync_once
  sync_once-IsTold last watch tip h new = sync_to-IsTold last watch tip e.get_tip_hash h new
