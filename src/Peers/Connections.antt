-- ===== src/Peers/Connections.antt =====
-- The connection to a peer (`do_connect_peer`, `connect_peer_if_necessary` of src/utils.rs), and the handlers
-- `connect_peer` and `disconnect_peer` (src/routes.rs).
use f1r3fly_rgb_lightning_no.Common.{
  ℕ, zero, suc, Bool, true, false, Option, none, some, List, ◌++◌, Bytes, str, contains,
}
use f1r3fly_rgb_lightning_no.Hex.{hex_str}
use f1r3fly_rgb_lightning_no.Error.{ApiError}
use f1r3fly_rgb_lightning_no.Outcome.{Outcome, ok, err, panicked}
use f1r3fly_rgb_lightning_no.Peers.{
  PeerCodec, PeerStore, persist_channel_peer, delete_channel_peer, parse_peer_info,
}

-- What one turn of the waiting loop of `do_connect_peer` sees: the connection closes, or 10 ms pass, and the peer is
-- known then or not.
pub data Poll : Type 0 where
  closed : Poll
  slept : Bool → Poll

-- The turns, one for each number; the fuel bounds how many are taken.
unfoldable pub await_peer : ℕ → (ℕ → Poll) → ℕ → Option (Outcome (Unit {0}))
await_peer zero polls n = none
await_peer (suc fuel) polls n = elim (polls n) [
  | closed ↦ some (err ApiError.failed_peer_connection)
  | slept known ↦ elim known [ true ↦ some (ok tt) | false ↦ await_peer fuel polls (suc n) ]
]

-- The peer manager: the connected peers, and the connection that `connect_outbound` starts, if it does.
pub record PeerManager : Type 0 where
  pub list_peers : List Bytes
  pub connect_outbound : Bytes → Bytes → Option (ℕ → Poll)

-- `none` is the wait that is still going on when the fuel is spent.
unfoldable pub do_connect_peer : ℕ → PeerManager → Bytes → Bytes → Option (Outcome (Unit {0}))
unfolding await_peer
do_connect_peer fuel manager pubkey address = elim (manager.connect_outbound pubkey address) [
  | none ↦ some (err ApiError.failed_peer_connection)
  | some polls ↦ await_peer fuel polls 0
]

unfoldable pub connect_peer_if_necessary :
    ℕ → PeerManager → Bytes → Bytes → Option (Outcome (Unit {0}))
unfolding do_connect_peer
connect_peer_if_necessary fuel manager pubkey address = elim (contains manager.list_peers pubkey) [
  | true ↦ some (ok tt)
  | false ↦ do_connect_peer fuel manager pubkey address
]

-- What follows a connection that came about; one that failed is the answer, and one that is waited for gives none.
abbrev pub connected :
    Option (Outcome (Unit {0}))
    → PeerStore
    → (PeerStore → Outcome (Unit {0}) × PeerStore)
    → Option (Outcome (Unit {0}) × PeerStore)
connected none s k = none
connected (some (ok _)) s k = some (k s)
connected (some (err e)) s k = some (err e, s)
connected (some panicked) s k = some (panicked, s)

module _ (codec : PeerCodec) where
  -- The handler `connect_peer`, from the parsed peer on.
  unfoldable pub connect_parsed :
      ℕ
      → PeerManager
      → Outcome (Bytes × Option Bytes)
      → PeerStore
      → Option (Outcome (Unit {0}) × PeerStore)
  unfolding connect_peer_if_necessary
  connect_parsed fuel manager (ok (pubkey, some address)) s =
      connected (connect_peer_if_necessary fuel manager pubkey address) s
        (persist_channel_peer codec pubkey address)
  connect_parsed fuel manager (ok (pubkey, none)) s = some (
    err (
        ApiError.invalid_peer_info
          (str "incorrectly formatted peer info. Should be formatted as: `pubkey@host:port`")),
    s,
  )
  connect_parsed fuel manager (err e) s = some (err e, s)
  connect_parsed fuel manager panicked s = some (panicked, s)

  unfoldable pub connect_peer :
      ℕ → PeerManager → Bytes → PeerStore → Option (Outcome (Unit {0}) × PeerStore)
  unfolding connect_parsed
  connect_peer fuel manager text s = connect_parsed fuel manager (parse_peer_info codec text) s

  -- The end of `disconnect_peer`, after the deletion; a peer that is disconnected is the third part.
  unfoldable pub disconnect_known :
      Bool → Bytes → Outcome (Unit {0}) × PeerStore → Outcome (Unit {0}) × PeerStore × Option Bytes
  disconnect_known true pubkey (ok _, s) = (ok tt, s, some pubkey)
  disconnect_known false pubkey (ok _, s) = (
    err (ApiError.failed_peer_disconnection (str "Could not find peer " ++ hex_str pubkey)),
    s,
    none,
  )
  disconnect_known _ pubkey (err e, s) = (err e, s, none)
  disconnect_known _ pubkey (panicked, s) = (panicked, s, none)

  -- After the parsing, with whether the node has a channel with the peer.
  unfoldable pub disconnect_parsed :
      List Bytes
      → PeerManager
      → Bytes
      → Option Bytes
      → PeerStore
      → Outcome (Unit {0}) × PeerStore × Option Bytes
  unfolding disconnect_known
  disconnect_parsed channel_peers manager text none s = (err ApiError.invalid_pubkey, s, none)
  disconnect_parsed channel_peers manager text (some pubkey) s =
      elim (contains channel_peers pubkey) [
        | true ↦ (
          err (
              ApiError.failed_peer_disconnection
                (str "node has an active channel with this peer, close any channels first")),
          s,
          none,
        )
        | false ↦
            disconnect_known (contains manager.list_peers pubkey) pubkey
              (delete_channel_peer text s)
      ]

  -- The peers of the channels, the peer manager, and the text of the request.
  unfoldable pub disconnect_peer :
      List Bytes → PeerManager → Bytes → PeerStore → Outcome (Unit {0}) × PeerStore × Option Bytes
  unfolding disconnect_parsed
  disconnect_peer channel_peers manager text s =
      disconnect_parsed channel_peers manager text (codec.pubkey_from_str text) s
