-- ===== src/Lib.antt =====
-- The F1r3fly RGB Lightning node (src/): a daemon that runs a Lightning node whose channels carry RGB
-- assets, behind an HTTP API. This library models the node's own logic as functions and proves what
-- the parts promise each other.
--
-- The parts, and the files that model them:
--
-- Error: src/error.rs. `ApiError` has the variants of `APIError` in snake case, with texts as bytes;
--   `to_string` is the `#[error]` attributes, `name` the variant's name, `status` and `into_response`
--   the response, `from_rgb_lib` the conversion from the RGB library's error.
-- Hex, Decimal, Lines: `hex_str`, `hex_str_to_vec` of src/utils.rs, the `u64` text of the standard library,
--   and its lines and trimming of texts.
-- Swap: src/swap.rs. `SwapInfo`, `SwapData`, `SwapString` with `Display` (`to_string`) and `FromStr`
--   (`from_str`). The contract id's parser and printer are the fields of `Codec`; what the round trip
--   needs of them is `IsLawful`.
-- Node: `UnlockedAppState` of src/utils.rs with its maps and their copies in the file store, and the
--   operations of src/ldk.rs on them. Node.Events is `handle_ldk_events`, for the payments and the funding,
--   pending, discarded and intercepted cases, over the list of the payment files of the data directory;
--   Node.Funding is its event `FundingGenerationReady` and Node.Intercepted its event `HTLCIntercepted`.
--   `Action` is a step that returns, fails with an `ApiError` or panics, and keeps what it wrote;
--   `Node.Invariant` is what every step that does not panic keeps; `Node.Ensures` is what holds of a step
--   that returns.
-- Routes: the handlers of src/routes.rs on the unlocked node. Routes.Swaps is `list_swaps` and
--   `get_swap`; Routes.Maker is `maker_init`, `maker_execute` (with `get_route` of src/utils.rs) and
--   `taker`; Routes.Payments is `keysend`, `send_payment`, `ln_invoice`, `invoice_status`,
--   `list_payments` and `get_payment`; Routes.Channels is `open_channel`, `close_channel` and
--   `get_channel_id`; Routes.Runs is the relation of the states that requests and events reach. The
--   Lightning and RGB libraries are the fields of `Library`, `PaymentLibrary` and `ChannelLibrary`: lookups, parsers, and the answers to calls; the calls that change something
--   outside of the state are recorded in its field `calls`.
-- Peers: the peer file of src/disk.rs, `parse_peer_info`, `connect_peer_if_necessary` and
--   `do_connect_peer` of src/utils.rs, and `connect_peer` and `disconnect_peer` of src/routes.rs. The
--   parsers and printers of keys and addresses are the fields of `PeerCodec`.
-- Backup: src/backup.rs. The cipher, the password hash and the archive format are the fields of
--   `BackupLibrary`; Backup.Archive has `do_backup` and `restore_backup` without the underscored names.
-- Wallet: the locked outputs, the balances, the outputs for claims and the claims of
--   src/f1r3fly_rgb_adapter.rs, with `handle_rgb_channel_close` of src/ldk.rs (Wallet.Closing). The
--   JSON library is the fields of `Json`, and the wallet's answers those of `Utxos` and `WalletManager`.
-- Auth: src/auth.rs, and `revoke_token` of src/routes.rs. The Biscuit library is the fields of
--   `BiscuitLibrary` and what `Biscuit` says of a token.
-- Lifecycle: `AppState` of src/utils.rs with `lock`, `unlock`, `shutdown` (src/routes.rs), `stop_ldk`
--   (src/ldk.rs) and `wait_state_change` (src/main.rs). `lock` and `unlock` are parted where they wait:
--   `begin_*` reads the flag, `enter_*` holds the guard of the unlocked state, and the parts after it each
--   run to the next wait. Lifecycle.Storage is the mnemonic and its password, with `init`,
--   `change_password`, `backup` and `restore`, each without a change of state while it waits.
-- Common and Outcome: tests on numbers, byte strings, maps as association lists, and results.
-- Tests: every property at a concrete input.
--
-- How the parts meet: the handlers of Routes run after `check_unlocked` of Lifecycle, on the state that
-- Node models, and report by Error; a swap travels between two nodes as the text of Swap, in
-- hexadecimal from Hex; a payment that crosses the taker meets its swap in Node.Intercepted; `open_channel`
-- connects to its peer by Peers, takes the lock that the events of Node.Events release, and the channel's
-- id is then found by `get_channel_id`. Wallet answers for the balances that `open_channel` asks.
--
-- Conventions. Numbers are natural numbers; a `u64` sum that can pass its bound is written with its
-- wrap-around (`wrapping_add`, a release build), and a parsed `u64` is bounded by `u64_bound`. A public
-- key, a contract id and a payment hash are their bytes; a text is its bytes, and is ASCII where it is
-- trimmed. A hash map is an association list, in some order. Every reading of the clock takes the next
-- value of `clock`. A poisoned mutex, the log, and the order in which a hash map is listed are not
-- modelled. Loops are structural, but for three that run on fuel: the wait of `do_connect_peer`, which ends
-- with the first turn that sees the peer or the end of the connection, and the two loops over the chunks of
-- a backup, with one unit for every byte of the file and one more, where a read fills the buffer unless the
-- file ends.
--
-- Not modelled: of src/ldk.rs, the start, the event of a closed channel around `handle_rgb_channel_close`,
-- and the events that only pass a request on; of src/routes.rs, the lists of channels and peers and the
-- handlers of RGB assets, which pass requests on to the RGB libraries; of src/f1r3fly_rgb_adapter.rs, what
-- passes on to the wallet manager and the contracts; the RGB wallet of src/rgb.rs, the Bitcoin client
-- (src/bitcoind.rs), the command line, the router and the log (src/args.rs, src/main.rs, src/disk.rs).
pub mod Common
pub mod Decimal
pub mod Hex
pub mod Error
pub mod Outcome
pub mod Swap
pub mod Node
pub mod Routes
pub mod Auth
pub mod Lines
pub mod Peers
pub mod Backup
pub mod Lifecycle
pub mod Tests
pub mod Wallet
