-- ===== src/Proxy/Gate/Wallet.antt =====
-- The wallet's requests (src/ldk/peers/peer-connection.ts) at the proxy (proxy/src/index.ts).
use browser_wallet.Prelude.{
  ℕ, ◌<◌, ◌≡◌, ◌↔◌, refl, ap, true, false, Bool-cases, inl, inr, Option, none, some, List, [], ◌∷◌,
  All, arith,
}
use browser_wallet.Prelude.BigInt.{ℤ}
use browser_wallet.Prelude.BigInt.Laws.{Lacks}
use browser_wallet.Peers.Address.{connect_refusal, proxy_path}
use browser_wallet.Proxy.Path.{ProxyTarget, parse_proxy_path}
use browser_wallet.Proxy.Path.Route.{parse-proxy_path}
use browser_wallet.Proxy.Target.{validate_origin, validate_target, includes, includes_port}
use browser_wallet.Proxy.Target.Public.{
  Reserved, dotted, Numeric, dotted-Numeric, validate_target-dotted_iff,
}
use browser_wallet.Proxy.Gate.{
  Request, Env, Answer, connects, is_websocket, origins, ports, is_empty, fetch_target, fetch,
}

Numeric-Lacks : (cs : List ℕ) → All Numeric cs → Lacks b'_' cs
Numeric-Lacks [] h = tt
Numeric-Lacks (c ∷ cs) (d, h) = (λ e. omega arith, Numeric-Lacks cs h)

listed :
    (origin : Option (List ℕ)) (os : List (List ℕ))
    → validate_origin origin os ≡ true
    → is_empty os ≡ false
unfolding validate_origin includes
listed none os h = cc
listed (some o) [] h = ground arith
listed (some o) (x ∷ os) h = refl

listed_port : (port : ℕ) (ps : List ℤ) → includes_port ps port ≡ true → is_empty ps ≡ false
unfolding includes_port
listed_port port [] h = cc
listed_port port (p ∷ ps) h = refl

fetch_target-valid :
    (target : ProxyTarget) (allowed : List ℤ)
    → fetch_target (some target) allowed ≡ connects target
    → validate_target target.host target.port allowed ≡ true
unfolding fetch_target
fetch_target-valid target allowed h = ground arith

fetch_target-connects :
    (target : ProxyTarget) (allowed : List ℤ)
    → is_empty allowed ≡ false
    → validate_target target.host target.port allowed ≡ true
    → fetch_target (some target) allowed ≡ connects target
unfolding fetch_target
fetch_target-connects target allowed h v = ground arith

-- The request is a WebSocket upgrade from a listed origin, to a listed port, and the address is not
-- reserved.
pub record Admitted (request : Request) (env : Env) (a b port : ℕ) : Type 0 where
  pub upgrades : is_websocket request.upgrade ≡ true
  pub from_listed : validate_origin request.origin (origins env) ≡ true
  pub to_listed : includes_port (ports env) port ≡ true
  pub public_address : ¬ Reserved a b

checked :
    (request : Request) (env : Env) (answer : Answer) (target : ProxyTarget)
    → fetch_target (parse_proxy_path request.pathname) (ports env) ≡ answer
    → (fetch request env ≡ connects target) ↔ (
        (is_websocket request.upgrade ≡ true)
        × (validate_origin request.origin (origins env) ≡ true)
        × (answer ≡ connects target))
unfolding fetch
checked request env answer target e =
    elim (Bool-cases (validate_origin request.origin (origins env))) [
      | inl v ↦ rw e (rw v (rw (listed request.origin (origins env) v) (ground arith)))
      | inr v ↦ rw v (ground arith)
    ]

abbrev pub named : ℕ → ℕ → ℕ → ℕ → ℕ → ProxyTarget
named a b c d port = record { host = dotted a b c d; port = port }

module _ (a b c d : ℕ) (la : a < 256) (lb : b < 256) (lc : c < 256) (ld : d < 256) where
  route :
      (pubkey : List ℕ) (port : ℕ)
      → connect_refusal pubkey (dotted a b c d) port ≡ none
      → parse_proxy_path (proxy_path (dotted a b c d) port) ≡ some (named a b c d port)
  route pubkey port h =
      let (e, (_, same)) = parse-proxy_path pubkey (dotted a b c d) port h in
      rw (same (Numeric-Lacks _ (dotted-Numeric a b c d))) at e

  at_target :
      (port : ℕ) (allowed : List ℤ)
      → (fetch_target (some (named a b c d port)) allowed ≡ connects (named a b c d port))
        ↔ ((includes_port allowed port ≡ true) × ¬ Reserved a b)
  at_target port allowed =
      let (to, from) = validate_target-dotted_iff a b c d la lb lc ld port allowed in
      (
        λ e. to (fetch_target-valid (named a b c d port) allowed e),
        λ q.
            fetch_target-connects (named a b c d port) allowed (listed_port port allowed q.0)
              (from q),
      )

  -- The wallet asks for an IPv4 address that `connectToPeer` does not refuse: the proxy connects to
  -- that address and port exactly if the request is a WebSocket upgrade from a listed origin, the port
  -- is listed, and the address is in no reserved range.
  pub fetch_iff :
      (pubkey : List ℕ) (port : ℕ) (request : Request) (env : Env)
      → connect_refusal pubkey (dotted a b c d) port ≡ none
      → request.pathname ≡ proxy_path (dotted a b c d) port
      → (fetch request env ≡ connects (named a b c d port)) ↔ Admitted request env a b port
  fetch_iff pubkey port request env h path =
      let found : parse_proxy_path request.pathname ≡ some (named a b c d port) =
        rw path (route pubkey port h) in
      let (to, from) =
        checked request env _ (named a b c d port) (ap (λ t. fetch_target t (ports env)) found) in
      let (inward, outward) = at_target port (ports env) in
      (
        λ e.
            let (u, o, t) = to e in
            let (p, n) = inward t in
            record { upgrades = u; from_listed = o; to_listed = p; public_address = n },
        λ x. from (x.upgrades, x.from_listed, outward (x.to_listed, x.public_address)),
      )
