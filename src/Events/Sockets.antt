-- ===== src/Events/Sockets.antt =====
-- `parseFirstSocketAddress` of src/ldk/traits/event-handler.ts: the address that a ConnectionNeeded
-- event is answered with. Texts are lists of UTF-16 code units.
pub mod Reachable
use browser_wallet.Prelude.{
  ℕ, ◌+◌, ◌*◌, ◌/◌, ◌%◌, Option, none, some, List, [], ◌∷◌, ◌++◌, ltb, if◌then◌else◌,
}
use browser_wallet.Prelude.Decimal.{decimal}
use browser_wallet.Prelude.Hex.{hex_digit}

pub data SocketAddress : Type 0 where
  tcp_ip_v4 : ℕ → ℕ → ℕ → ℕ → ℕ → SocketAddress
  tcp_ip_v6 : List ℕ → ℕ → SocketAddress
  hostname : List ℕ → ℕ → SocketAddress
  other_address : SocketAddress

-- `toString(16)` of a number below 65536.
pub to_hex : ℕ → List ℕ
to_hex n =
    if ltb n 16
    then hex_digit n ∷ []
    else if ltb n 256
    then hex_digit (n / 16) ∷ hex_digit (n % 16) ∷ []
    else if ltb n 4096
    then hex_digit (n / 256) ∷ hex_digit (n / 16 % 16) ∷ hex_digit (n % 16) ∷ []
    else hex_digit (n / 4096)
      ∷ hex_digit (n / 256 % 16)
      ∷ hex_digit (n / 16 % 16)
      ∷ hex_digit (n % 16)
      ∷ []

-- The loop over the pairs of bytes.
pub groups : List ℕ → List (List ℕ)
unfolding to_hex
groups [] = []
groups (hi ∷ []) = []
groups (hi ∷ lo ∷ bytes) = to_hex (hi * 256 + lo) ∷ groups bytes

-- `join(':')`
pub join_colon : List (List ℕ) → List ℕ
join_colon [] = []
join_colon (g ∷ []) = g
join_colon (g ∷ h ∷ gs) = g ++ b':' ∷ join_colon (h ∷ gs)

abbrev pub v4_host : ℕ → ℕ → ℕ → ℕ → List ℕ
v4_host a b c d = decimal a ++ b'.' ∷ (decimal b ++ b'.' ∷ (decimal c ++ b'.' ∷ decimal d))

pub parse_first_socket_address : List SocketAddress → Option (List ℕ × ℕ)
unfolding groups join_colon
parse_first_socket_address [] = none
parse_first_socket_address (tcp_ip_v4 a b c d port ∷ rest) = some (v4_host a b c d, port)
parse_first_socket_address (tcp_ip_v6 bytes port ∷ rest) = some (join_colon (groups bytes), port)
parse_first_socket_address (hostname host port ∷ rest) = some (host, port)
parse_first_socket_address (other_address ∷ rest) = parse_first_socket_address rest
