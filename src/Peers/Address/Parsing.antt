-- ===== src/Peers/Address/Parsing.antt =====
-- What `parsePeerAddress` of src/ldk/peers/peer-connection.ts accepts is what `connectToPeer` accepts.
use browser_wallet.Prelude.{ℕ, ◌≡◌, ◌↔◌, refl, true, Option, none, some, List, ◌∷◌, ◌++◌, arith}
use browser_wallet.Prelude.Decimal.{decimal}
use browser_wallet.Prelude.BigInt.{ℤ, pos, negsuc}
use browser_wallet.Prelude.BigInt.Laws.{decimal-Lacks, Lacks}
use browser_wallet.Peers.Text.{
  parse_int, cut_last, all, all-Lacks, cut_first, cut_first-append, cut_last-append,
  parse_int-decimal,
}
use browser_wallet.Peers.Address.{
  is_pubkey, is_hex, Refusal, connect_refusal, check_port, parse_host_port, parse_at,
  parse_peer_address, PeerAddress, ok, printed,
}

abbrev accepts : PeerAddress → Option Refusal
accepts p = connect_refusal p.pubkey p.host p.port

check_port-printed :
    (p : PeerAddress) → accepts p ≡ none → check_port p.pubkey p.host (some (pos p.port)) ≡ ok p
unfolding check_port connect_refusal
check_port-printed p h = ground arith

check_port-accepts :
    (p : PeerAddress) (pubkey host : List ℕ) (port : Option ℤ)
    → check_port pubkey host port ≡ ok p
    → accepts p ≡ none
unfolding check_port connect_refusal
check_port-accepts p pubkey host (some (pos port)) h = ground arith
check_port-accepts p pubkey host (some (negsuc n)) h = cc
check_port-accepts p pubkey host none h = cc

parse_host_port-accepts :
    (p : PeerAddress) (pubkey : List ℕ) (o : Option (List ℕ × List ℕ))
    → parse_host_port pubkey o ≡ ok p
    → accepts p ≡ none
unfolding parse_host_port
parse_host_port-accepts p pubkey none h = cc
parse_host_port-accepts p pubkey (some (host, port)) h =
    check_port-accepts p pubkey host (parse_int port) h

parse_at-accepts :
    (p : PeerAddress) (o : Option (List ℕ × List ℕ)) → parse_at o ≡ ok p → accepts p ≡ none
unfolding parse_at
parse_at-accepts p none h = cc
parse_at-accepts p (some (pubkey, rest)) h = parse_host_port-accepts p pubkey (cut_last b':' rest) h

pubkey-Lacks : (p : PeerAddress) → accepts p ≡ none → Lacks b'@' p.pubkey
unfolding connect_refusal is_pubkey
pubkey-Lacks p h =
    let hex : all is_hex p.pubkey ≡ true = ground arith in all-Lacks is_hex b'@' p.pubkey refl hex

parse-printed : (p : PeerAddress) → accepts p ≡ none → parse_peer_address (printed p) ≡ ok p
unfolding parse_peer_address parse_at parse_host_port
parse-printed p h =
    rw (cut_first-append b'@' p.pubkey (p.host ++ b':' ∷ decimal p.port) (pubkey-Lacks p h)) (
      rw
        (cut_last-append b':' p.host (decimal p.port)
          (decimal-Lacks b':' p.port (λ d. omega arith)))
        (rw (parse_int-decimal p.port) (check_port-printed p h)))

-- A printed address is parsed back exactly if `connectToPeer` does not refuse its parts; and whatever
-- the text, `connectToPeer` does not refuse what `parsePeerAddress` returns.
pub parse_peer_address_iff :
    (p : PeerAddress)
    → ((parse_peer_address (printed p) ≡ ok p) ↔ (connect_refusal p.pubkey p.host p.port ≡ none))
      × ((text : List ℕ)
          → parse_peer_address text ≡ ok p
          → connect_refusal p.pubkey p.host p.port ≡ none)
unfolding parse_peer_address
parse_peer_address_iff p = (
  (λ e. parse_at-accepts p (cut_first b'@' (printed p)) e, parse-printed p),
  λ text e. parse_at-accepts p (cut_first b'@' text) e,
)
