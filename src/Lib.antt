-- ===== src/Lib.antt =====
-- Models and theorems for the browser wallet: a Lightning and on-chain wallet that runs LDK in the
-- browser. Channel monitors and the channel manager are kept in a remote versioned store (VSS) and in
-- IndexedDB; peers are reached over WebSockets through a proxy worker; channels for the first payment
-- are bought from an LSP with LSPS2 messages, and the invoice for it is encoded by the wallet itself.
--
-- Parts, and the code that they follow:
-- - Prelude: what the rest shares. Native numbers with Boolean tests, JavaScript's `Map` as an
--   association list, `bigint`, `toString`, `trim`, `split` and `BigInt(text)` on lists of UTF-16 code
--   units, `bytesToHex` of src/ldk/utils.ts.
-- - Storage.Remote: the methods of VssClient (src/ldk/storage/vss-client.ts) and idbPut
--   (src/storage/idb.ts) as a record of operations with their laws; Storage.Solo is an instance, and
--   Storage.Vss is the real one: src/ldk/storage/vss-client.ts and src/ldk/storage/vss-crypto.ts, with
--   the server and the cryptographic primitives as parameters. The 100 pages that listKeyVersions may
--   ask for are the fuel of its loop.
--   Storage.Persist: persistWithRetry of src/ldk/traits/persist.ts. Its `while (true)` is `loop`, with
--   a bound on the rounds; the theorems hold for every bound, and termination is a result of its own.
--   Storage.Manifest: parseMonitorManifest and writeManifest of src/ldk/traits/persist.ts.
--   Storage.Restore: the recovery from VSS in initializeLdk of src/ldk/init.ts. Its loop over chunks has
--   as many rounds as there are keys, each of which takes ten of them.
--   Storage.Manager: src/ldk/storage/persist-cm.ts.
--   Storage.Recovery: writeRecoveryState and roundUpDepositNeeded of src/ldk/recovery/recovery-state.ts.
-- - Lsps2.Handler: createLspsMessageHandler of src/ldk/lsps2/message-handler.ts, one function for each
--   callback, `step` and `run` for sequences of calls. Lsps2.Fees and Lsps2.Json: src/ldk/lsps2/types.ts.
-- - Bolt11: src/ldk/lsps2/bolt11-encoder.ts. Words has the regrouping of bits and the 32-bit operators,
--   Fields the tagged fields and route hints, Hrp the human readable part, Scid the channel ids. The
--   inner loop of wordsToBuffer takes as many rounds as there are bits: each round takes eight of them. `bech32.toWords`
--   is a parameter.
-- - Peers: src/ldk/peers/peer-connection.ts. Address has parsePeerAddress and the tests of connectToPeer,
--   Connection the callbacks of one connection and the orders in which a WebSocket and a timer call them.
-- - Proxy: proxy/src/validation.ts (Path, Target) and fetch of proxy/src/index.ts (Gate), up to the TCP
--   connection. Gate.Wallet puts the wallet's requests and the proxy together.
-- - Events: src/ldk/traits/event-handler.ts. Node has the events, the calls and the state, Outcomes and
--   Channels a function for each kind of event, Handler the dispatch and the runs; Reasons and Sockets
--   its pure helpers; History is src/ldk/storage/payment-history.ts.
-- - Broadcaster: src/ldk/traits/broadcaster.ts, the attempts first, then Queue with the transactions
--   under way and the store of pending ones.
-- - Sync: src/ldk/sync/chain-sync.ts. Once is syncOnce over the answers of an Esplora server, Loop one
--   tick of startSyncLoop and sequences of ticks.
-- - FeeCache: src/shared/fee-cache.ts, whose promise chain is split into its start and its two ends.
-- - Payments.Amount: btcStringToSats and satsToBtcString of src/onchain/bip321.ts.
-- - Payments.Keypad: src/components/numpad-reducer.ts.
--
-- A JavaScript number that counts is a natural number, and stays below 2 ^ 53; the code's 32-bit
-- operators have their wrap-around written out. A promise is its result, and one call's awaits follow
-- each other; where calls interleave they are the steps of a sequence. LDK, BDK, the VSS service, the
-- browser's sockets and timers, and cryptographic libraries are parameters or events.
--
-- Not modelled: the user interface, generated protobuf code, LDK and BDK glue, the HTTP requests of the
-- Esplora and VSS clients, the start of the node but for the recovery from VSS, and the classification
-- of payment inputs.
pub mod Prelude
pub mod Storage
pub mod Bolt11
pub mod Lsps2
pub mod Peers
pub mod Proxy
pub mod Payments
pub mod FeeCache
pub mod Events
pub mod Broadcaster
pub mod Sync
