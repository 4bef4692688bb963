-- ===== src/Events/Handler/Tests.antt =====
-- The theorems on LDK's events at concrete inputs.
use browser_wallet.Prelude.{ℕ, ◌≡◌, refl, true, false, none, some, List, [], ◌∷◌, arith}
use browser_wallet.Prelude.BigInt.{pos}
use browser_wallet.Prelude.Hex.{bytes_to_hex}
use browser_wallet.Peers.Address.{is_pubkey, connect_refusal, invalid_host}
use browser_wallet.Peers.Text.{all}
use browser_wallet.Events.Sockets.{tcp_ip_v4, tcp_ip_v6, v4_host, parse_first_socket_address}
use browser_wallet.Events.Sockets.Reachable.{parse_first_socket_address-connects}
use browser_wallet.Events.History.{outbound, pending, succeeded, PersistedPayment}
use browser_wallet.Events.History.Replay
use browser_wallet.Events.History.Replay.{Change, persists, updates, view, replay, run_refines}
use browser_wallet.Events.Node.{
  funding_generation_ready, funding_tx_broadcast_safe, open_channel_request,
  pending_htlcs_forwardable, Config, Answers, init,
}
use browser_wallet.Events.Sound.{IsSafe}
use browser_wallet.Events.Handler.{Step, receives, fires, run}
use browser_wallet.Events.Handler.Funding.{run-IsSafe}

abbrev config : Config
config = record {
  lsp_node_id = "02ab";
  has_payment_event = true;
  has_channel_closed = true;
  has_sync_needed = true;
  has_connection_needed = true;
  has_recovery_needed = true;
  has_bump_handler = false;
}

abbrev answers : Answers
answers = record {
  put_ok = true;
  get_ok = true;
  delete_ok = true;
  delete_again_ok = true;
  now = 7;
  uuid = "u";
  random_bytes = 1 ∷ 2 ∷ [];
  channel_peers = [];
  built = some "0200";
  funding_ok = true;
  changeset_ok = true;
  accept_ok = true;
  broadcast_ok = true;
  sweep_ok = true;
  unspent = none;
  bump_error = none;
}

abbrev funding : List Step
funding =
    receives answers (funding_generation_ready "t" "02cd")
    ∷ receives answers (funding_tx_broadcast_safe "t")
    ∷ receives answers (open_channel_request "v" "02ab")
    ∷ receives answers (pending_htlcs_forwardable 60)
    ∷ fires
    ∷ []

run-IsSafe_example : IsSafe config (run config funding init).calls
run-IsSafe_example = run-IsSafe config funding

abbrev payment : PersistedPayment
payment = record {
  payment_hash = "aa";
  direction = outbound;
  amount_msat = pos 1000;
  status = pending;
  fee_paid_msat = none;
  created_at = 5;
  failure_reason = none;
}

abbrev changes : List Change
changes =
    persists payment
    ∷ updates "aa" succeeded (some (pos 3)) none
    ∷ updates "bb" succeeded none none
    ∷ []

run_refines_example : view (Replay.run changes []) ≡ replay changes (λ _. none)
run_refines_example = run_refines changes

-- A node id: 33 bytes.
abbrev pubkey : List ℕ
pubkey = bytes_to_hex (
    2 ∷ 1 ∷ 2 ∷ 3 ∷ 4 ∷ 5 ∷ 6 ∷ 7 ∷ 8 ∷ 9 ∷ 10 ∷ 11 ∷ 12 ∷ 13 ∷ 14 ∷ 15 ∷ 16 ∷ 17 ∷ 18 ∷ 19 ∷ 20
    ∷ 21 ∷ 22 ∷ 23 ∷ 24 ∷ 25 ∷ 26 ∷ 27 ∷ 28 ∷ 29 ∷ 30 ∷ 31 ∷ 255 ∷ [])

pubkey_accepted : is_pubkey pubkey ≡ true
unfolding is_pubkey bytes_to_hex all
pubkey_accepted = refl

parse_first_socket_address-connects_example :
    ((a b c d : ℕ)
      → (parse_first_socket_address (tcp_ip_v4 a b c d 9735 ∷ []) ≡ some (v4_host a b c d, 9735))
        × (connect_refusal pubkey (v4_host a b c d) 9735 ≡ none))
    × ((a b c d : ℕ) (bytes host : List ℕ)
        → parse_first_socket_address (tcp_ip_v6 (a ∷ b ∷ c ∷ d ∷ bytes) 9735 ∷ [])
          ≡ some (host, 9735)
        → connect_refusal pubkey host 9735 ≡ some invalid_host)
parse_first_socket_address-connects_example =
    parse_first_socket_address-connects pubkey 9735 [] pubkey_accepted (omega arith) (omega arith)
