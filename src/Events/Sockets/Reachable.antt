-- ===== src/Events/Sockets/Reachable.antt =====
-- Which of LDK's socket addresses (src/ldk/traits/event-handler.ts) `connectToPeer`
-- (src/ldk/peers/peer-connection.ts) is able to use.
use browser_wallet.Prelude.{
  ℕ, ◌+◌, ◌*◌, ◌≤◌, ◌≡◌, refl, ◌∙◌, Bool, true, false, ◌&&◌, none, some, List, [], ◌∷◌, ◌++◌,
  length-append, All, arith,
}
use browser_wallet.Prelude.Decimal.{IsDigit, decimal, decimal-All, decimal_nonempty}
use browser_wallet.Peers.Text.{all}
use browser_wallet.Peers.Address.{is_host_char, is_host, is_pubkey, connect_refusal, invalid_host}
use browser_wallet.Events.Sockets.{
  SocketAddress, tcp_ip_v4, tcp_ip_v6, v4_host, to_hex, groups, join_colon,
  parse_first_socket_address,
}

all-append : (f : ℕ → Bool) (xs ys : List ℕ) → all f (xs ++ ys) ≡ (all f xs && all f ys)
unfolding all
all-append f [] ys = refl
all-append f (x ∷ xs) ys = ground (arith, all-append f xs ys)

digits-all : (cs : List ℕ) → All IsDigit cs → all is_host_char cs ≡ true
unfolding all
digits-all [] h = refl
digits-all (c ∷ cs) (d, h) = ground (arith, digits-all cs h)

decimal-all : (n : ℕ) → all is_host_char (decimal n) ≡ true
decimal-all n = digits-all (decimal n) (decimal-All n)

after_dot :
    (n : ℕ) (cs : List ℕ)
    → all is_host_char cs ≡ true
    → all is_host_char (decimal n ++ b'.' ∷ cs) ≡ true
after_dot n cs h =
    all-append is_host_char (decimal n) (b'.' ∷ cs) ∙ (unfold all in ground (arith, decimal-all n))

v4-all : (a b c d : ℕ) → all is_host_char (v4_host a b c d) ≡ true
v4-all a b c d = after_dot a _ (after_dot b _ (after_dot c _ (decimal-all d)))

v4-is_host : (a b c d : ℕ) → is_host (v4_host a b c d) ≡ true
unfolding is_host
v4-is_host a b c d = ground (
  arith,
  v4-all a b c d,
  decimal_nonempty a,
  length-append (decimal a) (b'.' ∷ (decimal b ++ b'.' ∷ (decimal c ++ b'.' ∷ decimal d))),
)

colon-all : (g cs : List ℕ) → all is_host_char (g ++ b':' ∷ cs) ≡ false
colon-all g cs = all-append is_host_char g (b':' ∷ cs) ∙ (unfold all in ground arith)

v6-is_host :
    (a b c d : ℕ) (bytes : List ℕ) → is_host (join_colon (groups (a ∷ b ∷ c ∷ d ∷ bytes))) ≡ false
unfolding is_host groups join_colon
v6-is_host a b c d bytes =
    ground
      (arith, colon-all (to_hex (a * 256 + b)) (join_colon (to_hex (c * 256 + d) ∷ groups bytes)))

-- LDK names a peer by its IPv4 address first: `connectToPeer` takes the host, for every key and port
-- that it takes at all. It refuses every IPv6 address, so that such a peer is never connected to, even
-- where a usable address follows in the list.
pub parse_first_socket_address-connects :
    (pubkey : List ℕ) (port : ℕ) (rest : List SocketAddress)
    → is_pubkey pubkey ≡ true
    → 1 ≤ port
    → port ≤ 65535
    → ((a b c d : ℕ)
        → (parse_first_socket_address (tcp_ip_v4 a b c d port ∷ rest)
            ≡ some (v4_host a b c d, port))
          × (connect_refusal pubkey (v4_host a b c d) port ≡ none))
      × ((a b c d : ℕ) (bytes host : List ℕ)
          → parse_first_socket_address (tcp_ip_v6 (a ∷ b ∷ c ∷ d ∷ bytes) port ∷ rest)
            ≡ some (host, port)
          → connect_refusal pubkey host port ≡ some invalid_host)
unfolding parse_first_socket_address connect_refusal
parse_first_socket_address-connects pubkey port rest key low high = (
  λ a b c d. (refl, ground (arith, v4-is_host a b c d)),
  λ a b c d bytes host e.
      let same : join_colon (groups (a ∷ b ∷ c ∷ d ∷ bytes)) ≡ host = cc in
      ground (arith, v6-is_host a b c d bytes, same),
)
