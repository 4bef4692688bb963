-- ===== src/Proxy/Tests.antt =====
-- The theorems on the proxy at concrete inputs.
use browser_wallet.Prelude.{ℕ, List, [], ◌∷◌, ◌≡◌, ◌↔◌, refl, none, some, map}
use browser_wallet.Prelude.Hex.{bytes_to_hex}
use browser_wallet.Prelude.BigInt.Laws.{Lacks}
use browser_wallet.Peers.Text.{all}
use browser_wallet.Peers.Address.{is_pubkey, is_host, connect_refusal, proxy_path}
use browser_wallet.Prelude.{arith}
use browser_wallet.Prelude.Decimal.{decimal, digits_acc, lt_wf}
use native.Mathlib.Decide.{dec_lt}
use browser_wallet.Proxy.Target.Public.{dotted}
use browser_wallet.Proxy.Gate.{Request, Env, websocket, fetch, connects}
use browser_wallet.Proxy.Gate.Wallet.{Admitted, named, fetch_iff}
use browser_wallet.Proxy.Path.{parse_proxy_path, underscore_to_dot}
use browser_wallet.Proxy.Path.Route.{parse-proxy_path}

abbrev key : List ℕ
key = bytes_to_hex (
    2 ∷ 1 ∷ 2 ∷ 3 ∷ 4 ∷ 5 ∷ 6 ∷ 7 ∷ 8 ∷ 9 ∷ 10 ∷ 11 ∷ 12 ∷ 13 ∷ 14 ∷ 15 ∷ 16 ∷ 17 ∷ 18 ∷ 19 ∷ 20
    ∷ 21 ∷ 22 ∷ 23 ∷ 24 ∷ 25 ∷ 26 ∷ 27 ∷ 28 ∷ 29 ∷ 30 ∷ 31 ∷ 255 ∷ [])

-- "my_ln.org"
abbrev host : List ℕ
host = b'm' ∷ b'y' ∷ b'_' ∷ b'l' ∷ b'n' ∷ b'.' ∷ b'o' ∷ b'r' ∷ b'g' ∷ []

host_accepted : connect_refusal key host 9735 ≡ none
unfolding connect_refusal bytes_to_hex is_pubkey all is_host
host_accepted = refl

parse-proxy_path_example :
    (parse_proxy_path (proxy_path host 9735)
      ≡ some (record {
        host = b'm' ∷ b'y' ∷ b'.' ∷ b'l' ∷ b'n' ∷ b'.' ∷ b'o' ∷ b'r' ∷ b'g' ∷ [];
        port = 9735;
      }))
    × ((map underscore_to_dot host ≡ host) ↔ Lacks b'_' host)
parse-proxy_path_example = parse-proxy_path key host 9735 host_accepted

-- 8.8.4.4 from the wallet's origin, on port 9735.
abbrev env : Env
env = record {
  allowed_origins = some (b'w' ∷ []);
  allowed_ports = some (b'9' ∷ b'7' ∷ b'3' ∷ b'5' ∷ []);
}

abbrev request : Request
request = record {
  upgrade = some websocket;
  origin = some (b'w' ∷ []);
  pathname = proxy_path (dotted 8 8 4 4) 9735;
}

address_accepted : connect_refusal key (dotted 8 8 4 4) 9735 ≡ none
unfolding connect_refusal bytes_to_hex is_pubkey all is_host decimal digits_acc lt_wf dec_lt
address_accepted = refl

fetch_iff_example :
    (fetch request env ≡ connects (named 8 8 4 4 9735)) ↔ Admitted request env 8 8 9735
fetch_iff_example =
    fetch_iff 8 8 4 4 (omega arith) (omega arith) (omega arith) (omega arith) key 9735 request env
      address_accepted refl
