-- ===== src/Storage/Vss/Listing.antt =====
-- `listKeyVersions` of src/ldk/storage/vss-client.ts against the pages that a server has.
use browser_wallet.Prelude.{
  ℕ, zero, suc, ◌≤◌, ◌≡◌, refl, sym, ◌⊎◌, inl, inr, ◌↔◌, Option, none, some, List, ◌++◌, arith,
  Option-cases,
}
use browser_wallet.Storage.Remote.{Result, ok, err, unavailable}
use browser_wallet.Storage.Vss.{
  Primitives, Service, Client, Reply, unreachable, responded, garbled, refused, ErrorCode, Page,
  token_of, prepend, after_page, parse_error, list_pages, list_key_versions,
}

module _ (p : Primitives) (s : Service) (c : Client) where
  -- A server has `n` pages from a token on, with these entries.
  pub data Serves : Option (List ℕ) → s.World → List (List ℕ × ℕ) → ℕ → Type 0 where
    ends :
        (token : Option (List ℕ)) (w : s.World) (page : Page)
        → (s.list_key_versions c.store_id token w).0 ≡ responded page
        → token_of p s c page.next_page_token ≡ none
        → Serves token w page.key_versions 1
    continues :
        (token : Option (List ℕ)) (w : s.World) (page : Page) (next : List ℕ)
        (es : List (List ℕ × ℕ)) (n : ℕ)
        → (s.list_key_versions c.store_id token w).0 ≡ responded page
        → token_of p s c page.next_page_token ≡ some next
        → Serves (some next) (s.list_key_versions c.store_id token w).1 es n
        → Serves token w (page.key_versions ++ es) (suc n)

  complete :
      (token : Option (List ℕ)) (w : s.World) (es : List (List ℕ × ℕ)) (n left : ℕ)
      → Serves token w es n
      → n ≤ left
      → (list_pages p s c left token w).0 ≡ ok es
  unfolding list_pages
  complete _ _ _ _ zero (ends token w page r e) h = absurd (omega arith)
  complete _ _ _ _ zero (continues token w page next fs m r e rest) h = absurd (omega arith)
  complete _ _ _ _ (suc left) (ends token w page r e) h = rw (r, e) refl
  complete _ _ _ _ (suc left) (continues token w page next fs m r e rest) h =
      rw
        (
          r,
          e,
          complete (some next) (s.list_key_versions c.store_id token w).1 fs m left rest
              (omega arith),
        )
        refl

  Reply-cases :
      {A : Type 0} (r : Reply A)
      → (r ≡ unreachable)
        ⊎ (((a : A) × (r ≡ responded a))
            ⊎ ((r ≡ garbled) ⊎ ((n : ℕ) × (o : Option ErrorCode) × (r ≡ refused n o))))
  Reply-cases unreachable = inl refl
  Reply-cases (responded a) = inr (inl (a, refl))
  Reply-cases garbled = inr (inr (inl refl))
  Reply-cases (refused n o) = inr (inr (inr (n, o, refl)))

  prepend-ok :
      (es fs : List (List ℕ × ℕ)) (r : Result (List (List ℕ × ℕ)))
      → prepend p s c es r ≡ ok fs
      → (gs : List (List ℕ × ℕ)) × (r ≡ ok gs) × (fs ≡ es ++ gs)
  prepend-ok es fs (ok gs) e = (gs, refl, cc)
  prepend-ok es fs (err x) e = absurd (ground arith)

  -- A page with a token, and what follows it.
  sound_page :
      (left : ℕ) (token : Option (List ℕ)) (w : s.World) (es : List (List ℕ × ℕ)) (page : Page)
      → (s.list_key_versions c.store_id token w).0 ≡ responded page
      → ((next : List ℕ) (fs : List (List ℕ × ℕ))
          → (list_pages p s c left (some next) (s.list_key_versions c.store_id token w).1).0 ≡ ok fs
          → (n : ℕ) × (n ≤ left)
            × Serves (some next) (s.list_key_versions c.store_id token w).1 fs n)
      → (after_page p s c page.key_versions
          (token_of p s c page.next_page_token)
          (s.list_key_versions c.store_id token w).1
          (λ next. list_pages p s c left (some next) (s.list_key_versions c.store_id token w).1)).0
        ≡ ok es
      → (n : ℕ) × (n ≤ suc left) × Serves token w es n
  sound_page left token w es page e ih h =
      elim (Option-cases (token_of p s c page.next_page_token)) [
        | inl q ↦
            (let h' : ok page.key_versions ≡ ok es = rw q at h in
              let same : page.key_versions ≡ es = cc in
              (1, omega arith, rw (sym same) (ends token w page e q)))
        | inr (next, q) ↦
            (let (fs, k, same) = prepend-ok page.key_versions es _ (rw q at h) in
              let (n, le, served) = ih next fs k in
              (suc n, omega arith, rw same (continues token w page next fs n e q served)))
      ]

  sound :
      (left : ℕ) (token : Option (List ℕ)) (w : s.World) (es : List (List ℕ × ℕ))
      → (list_pages p s c left token w).0 ≡ ok es
      → (n : ℕ) × (n ≤ left) × Serves token w es n
  unfolding list_pages
  sound zero token w es h = absurd (ground arith)
  sound (suc left) token w es h = elim (Reply-cases (s.list_key_versions c.store_id token w).0) [
    | inl e ↦ (let h' : err unavailable ≡ ok es = rw e at h in absurd (ground arith))
    | inr (inl (page, e)) ↦
        sound_page left token w es page e
          (λ next fs k. sound left (some next) (s.list_key_versions c.store_id token w).1 fs k)
          (rw e at h)
    | inr (inr (inl e)) ↦ (let h' : err unavailable ≡ ok es = rw e at h in absurd (ground arith))
    | inr (inr (inr (n, o, e))) ↦
        (let h' : err (parse_error o) ≡ ok es = rw e at h in absurd (ground arith))
  ]

  -- `listKeyVersions` returns a list exactly if the server has it on at most 100 pages: otherwise, with
  -- more pages, without end or with an error on the way, it throws.
  pub list_key_versions_iff :
      (w : s.World) (es : List (List ℕ × ℕ))
      → ((list_key_versions p s c w).0 ≡ ok es) ↔ ((n : ℕ) × (n ≤ 100) × Serves none w es n)
  unfolding list_key_versions
  list_key_versions_iff w es =
      (sound 100 none w es, λ served. complete none w es served.0 100 served.2 served.1)
