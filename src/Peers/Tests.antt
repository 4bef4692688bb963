-- ===== src/Peers/Tests.antt =====
-- The theorems on peers' addresses and connections at concrete inputs.
use browser_wallet.Prelude.{ℕ, List, [], ◌∷◌, ◌≡◌, ◌↔◌, refl, none, true}
use browser_wallet.Prelude.Hex.{bytes_to_hex, list_eq}
use browser_wallet.Peers.Text.{all}
use browser_wallet.Peers.Address.{
  is_pubkey, is_host, PeerAddress, printed, parse_peer_address, connect_refusal, ok,
}
use browser_wallet.Peers.Address.Parsing.{parse_peer_address_iff}
use browser_wallet.Peers.Connection.{
  Phase, Connection, init, Frame, lists, Reachable, Happens, on_open, on_message, on_close,
}
use browser_wallet.Peers.Connection.Sound.{Sound}
use browser_wallet.Peers.Connection.Settled.{Reachable-Sound}

-- A node id: 33 bytes.
abbrev id_bytes : List ℕ
id_bytes =
    2 ∷ 1 ∷ 2 ∷ 3 ∷ 4 ∷ 5 ∷ 6 ∷ 7 ∷ 8 ∷ 9 ∷ 10 ∷ 11 ∷ 12 ∷ 13 ∷ 14 ∷ 15 ∷ 16 ∷ 17 ∷ 18 ∷ 19 ∷ 20
    ∷ 21 ∷ 22 ∷ 23 ∷ 24 ∷ 25 ∷ 26 ∷ 27 ∷ 28 ∷ 29 ∷ 30 ∷ 31 ∷ 255 ∷ []

abbrev peer : PeerAddress
peer = record {
  pubkey = bytes_to_hex id_bytes;
  host = b'l' ∷ b'n' ∷ b'.' ∷ b'o' ∷ b'r' ∷ b'g' ∷ [];
  port = 9735;
}

peer_accepted : connect_refusal peer.pubkey peer.host peer.port ≡ none
unfolding connect_refusal bytes_to_hex is_pubkey all is_host
peer_accepted = refl

parse_peer_address_iff_example :
    ((parse_peer_address (printed peer) ≡ ok peer)
      ↔ (connect_refusal peer.pubkey peer.host peer.port ≡ none))
    × ((text : List ℕ)
        → parse_peer_address text ≡ ok peer
        → connect_refusal peer.pubkey peer.host peer.port ≡ none)
parse_peer_address_iff_example = parse_peer_address_iff peer

abbrev greeting : Frame
greeting = record { binary = true; readable = true; peers = id_bytes ∷ [] }

abbrev key : List ℕ
key = bytes_to_hex id_bytes

-- The socket opens, the handshake ends, and the socket closes.
abbrev after_open : Connection
after_open = on_open true init

abbrev after_greeting : Connection
after_greeting = on_message true key greeting after_open

abbrev after_close : Connection
after_close = on_close (record after_greeting { phase = Phase.closed })

after_close-Reachable : Reachable true key after_close
after_close-Reachable =
    Reachable.goes_on
      (Reachable.goes_on (Reachable.goes_on Reachable.starts (Happens.opens true init refl))
        (Happens.receives greeting after_open (unfold on_open in refl)))
      (Happens.closes after_greeting
        (unfold on_message on_open lists list_eq bytes_to_hex in λ e. cc))

Reachable-Sound_example : Sound after_close
Reachable-Sound_example = Reachable-Sound after_close after_close-Reachable
