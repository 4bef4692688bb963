-- ===== src/Peers/Address.antt =====
-- Addresses of peers, src/ldk/peers/peer-connection.ts: `parsePeerAddress`, the tests at the start
-- of `connectToPeer`, and the path that it asks the proxy for. Texts are lists of UTF-16 code units.
pub mod Parsing
use browser_wallet.Prelude.{
  ℕ, ◌+◌, ◌≤◌, ◌≡◌, refl, Bool, true, false, ◌&&◌, ◌||◌, not, Option, none, some, List, [], ◌∷◌,
  ◌++◌, length, map, ◌==◌, leb, ltb, if◌then◌else◌, arith, All, ap, ◌∙◌, Bool-cases, inl, inr,
}
use browser_wallet.Prelude.Decimal.{
  is_digit, IsDigit, decimal, decimal-All, read_digits-decimal, read_digits, decimal_nonempty,
}
use browser_wallet.Prelude.BigInt.{ℤ, pos, negsuc}
use browser_wallet.Peers.Text.{
  cut_first, cut_last, parse_int, all, all-Lacks, cut_first-append, cut_last-append,
}
use browser_wallet.Prelude.BigInt.Laws.{digits-Lacks}

-- [0-9a-f]
abbrev pub is_hex : ℕ → Bool
is_hex c = (leb 48 c && leb c 57) || (leb 97 c && leb c 102)

-- /^[0-9a-f]{66}$/
unfoldable pub is_pubkey : List ℕ → Bool
is_pubkey text = length text == 66 && all is_hex text

-- [a-zA-Z0-9._-]
abbrev pub is_host_char : ℕ → Bool
is_host_char c =
    (leb 97 c && leb c 122)
    || (leb 65 c && leb c 90)
    || (leb 48 c && leb c 57)
    || c == b'.'
    || c == b'_'
    || c == b'-'

-- /^[a-zA-Z0-9._-]+$/
unfoldable pub is_host : List ℕ → Bool
is_host text = ltb 0 (length text) && all is_host_char text

-- The tests of `connectToPeer`, in their order, each with its exception.
pub data Refusal : Type 0 where
  invalid_pubkey invalid_host invalid_port : Refusal

-- The port is a whole number: each caller has parsed it.
unfoldable pub connect_refusal : List ℕ → List ℕ → ℕ → Option Refusal
connect_refusal pubkey host port =
    if not (is_pubkey pubkey)
    then some invalid_pubkey
    else if not (is_host host)
    then some invalid_host
    else if ltb port 1 || ltb 65535 port
    then some invalid_port
    else none

-- `host.replace(/\./g, '_')`
abbrev pub dot_to_underscore : ℕ → ℕ
dot_to_underscore c = if c == b'.' then b'_' else c

-- The path of the WebSocket's address: "/v1/host/port".
unfoldable pub proxy_path : List ℕ → ℕ → List ℕ
proxy_path host port =
    b'/' ∷ b'v' ∷ b'1' ∷ b'/' ∷ (map dot_to_underscore host ++ b'/' ∷ decimal port)

pub data AddressError : Type 0 where
  no_at no_colon bad_port bad_pubkey bad_host : AddressError

pub record PeerAddress : Type 0 where
  pub pubkey : List ℕ
  pub host : List ℕ
  pub port : ℕ

pub data Parsed : Type 0 where
  ok : PeerAddress → Parsed
  err : AddressError → Parsed

pub check_port : List ℕ → List ℕ → Option ℤ → Parsed
check_port pubkey host (some (pos port)) =
    if ltb port 1 || ltb 65535 port
    then err bad_port
    else if not (is_pubkey pubkey)
    then err bad_pubkey
    else if not (is_host host)
    then err bad_host
    else ok (record { pubkey = pubkey; host = host; port = port })
check_port pubkey host _ = err bad_port

pub parse_host_port : List ℕ → Option (List ℕ × List ℕ) → Parsed
unfolding check_port
parse_host_port pubkey none = err no_colon
parse_host_port pubkey (some (host, port)) = check_port pubkey host (parse_int port)

pub parse_at : Option (List ℕ × List ℕ) → Parsed
unfolding parse_host_port
parse_at none = err no_at
parse_at (some (pubkey, host_port)) = parse_host_port pubkey (cut_last b':' host_port)

pub parse_peer_address : List ℕ → Parsed
unfolding parse_at
parse_peer_address address = parse_at (cut_first b'@' address)

-- The address as `parsePeerAddress` expects it.
abbrev pub printed : PeerAddress → List ℕ
printed p = p.pubkey ++ b'@' ∷ (p.host ++ b':' ∷ decimal p.port)
