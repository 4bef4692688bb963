-- ===== src/Proxy/Path/Route.antt =====
-- The way of an address from `connectToPeer` (src/ldk/peers/peer-connection.ts) to the proxy
-- (proxy/src/validation.ts): dots are written as underscores, and read back as dots.
use browser_wallet.Prelude.{
  ℕ, suc, ◌≡◌, ◌≢◌, ◌↔◌, refl, ap, ◌∙◌, true, none, some, List, [], ◌∷◌, map, arith, ltb, length,
}
use browser_wallet.Prelude.Decimal.{decimal, read_digits-decimal, decimal_nonempty}
use browser_wallet.Prelude.BigInt.{split, split_from}
use browser_wallet.Prelude.BigInt.Laws.{decimal-Lacks, Lacks, split_from-append, split_from_last}
use browser_wallet.Peers.Text.{all}
use browser_wallet.Prelude.Hex.{list_eq}
use browser_wallet.Peers.Address.{
  is_host, is_host_char, connect_refusal, proxy_path, dot_to_underscore,
}
use browser_wallet.Proxy.Path.{underscore_to_dot, target, match_path, parse_proxy_path}

sent-Lacks : (cs : List ℕ) → all is_host_char cs ≡ true → Lacks b'/' (map dot_to_underscore cs)
unfolding all
sent-Lacks [] h = tt
sent-Lacks (c ∷ cs) h =
    let here : dot_to_underscore c ≢ b'/' = ground arith in
    let there : all is_host_char cs ≡ true = ground arith in (here, sent-Lacks cs there)

length-map : (f : ℕ → ℕ) (cs : List ℕ) → length (map f cs) ≡ length cs
length-map f [] = refl
length-map f (c ∷ cs) = ap suc (length-map f cs)

received :
    (cs : List ℕ) → map underscore_to_dot (map dot_to_underscore cs) ≡ map underscore_to_dot cs
received [] = refl
received (c ∷ cs) = ground (arith, received cs)

split-proxy_path :
    (host : List ℕ) (port : ℕ)
    → all is_host_char host ≡ true
    → split b'/' (proxy_path host port)
      ≡ [] ∷ (b'v' ∷ b'1' ∷ []) ∷ map dot_to_underscore host ∷ decimal port ∷ []
unfolding split proxy_path split_from
split-proxy_path host port h =
    ap (λ ps. [] ∷ (b'v' ∷ b'1' ∷ []) ∷ ps)
      (split_from-append b'/' [] (map dot_to_underscore host) (decimal port) (sent-Lacks host h)
        ∙ ap (λ ps. map dot_to_underscore host ∷ ps)
            (split_from_last b'/' [] (decimal port) (decimal-Lacks b'/' port (λ d. omega arith))))

parse_sent :
    (pubkey host : List ℕ) (port : ℕ)
    → connect_refusal pubkey host port ≡ none
    → parse_proxy_path (proxy_path host port)
      ≡ some (record { host = map underscore_to_dot host; port = port })
unfolding parse_proxy_path match_path target connect_refusal is_host list_eq
parse_sent pubkey host port h =
    let chars : all is_host_char host ≡ true = ground arith in
    let sent = map dot_to_underscore host in
    let there : ltb 0 (length sent) ≡ true = ground (arith, length-map dot_to_underscore host) in
    let digits : ltb 0 (length (decimal port)) ≡ true = ground (arith, decimal_nonempty port) in
    rw (split-proxy_path host port chars)
      (rw there (rw digits (rw (read_digits-decimal port) (ground (arith, received host)))))

dots_only : (cs : List ℕ) → map underscore_to_dot cs ≡ cs → Lacks b'_' cs
dots_only [] e = tt
dots_only (c ∷ cs) e =
    let here : c ≢ b'_' = ground arith in
    let there : map underscore_to_dot cs ≡ cs = cc in (here, dots_only cs there)

unchanged : (cs : List ℕ) → Lacks b'_' cs → map underscore_to_dot cs ≡ cs
unchanged [] h = refl
unchanged (c ∷ cs) (n, h) = ground (arith, unchanged cs h)

-- Whatever address `connectToPeer` does not refuse, the proxy reads its port and its host in the
-- path, with each underscore of the host changed into a dot: it is the host that was meant exactly
-- if that has no underscore.
pub parse-proxy_path :
    (pubkey host : List ℕ) (port : ℕ)
    → connect_refusal pubkey host port ≡ none
    → (parse_proxy_path (proxy_path host port)
        ≡ some (record { host = map underscore_to_dot host; port = port }))
      × ((map underscore_to_dot host ≡ host) ↔ Lacks b'_' host)
parse-proxy_path pubkey host port h =
    (parse_sent pubkey host port h, (dots_only host, unchanged host))
