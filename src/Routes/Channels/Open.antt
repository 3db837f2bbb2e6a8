-- ===== src/Routes/Channels/Open.antt =====
-- Opening a channel: `open_channel` (src/routes.rs), in three parts: the checks of the request, the connection to the peer,
-- and the creation of the channel.
use mathlib.Core.Option
use f1r3fly_rgb_lightning_no.Common.{
  ℕ, ◌*◌, Bool, true, false, ◌&&◌, not, Option, none, some, is_some, ◌++◌, Bytes, lookup,
  contains_key, str, ltb, if◌then◌else◌,
}
use f1r3fly_rgb_lightning_no.Decimal.{show_nat, parse_u64}
use f1r3fly_rgb_lightning_no.Hex.{hex_str}
use f1r3fly_rgb_lightning_no.Error.{ApiError}
use f1r3fly_rgb_lightning_no.Outcome.{Outcome, ok, err, panicked}
use f1r3fly_rgb_lightning_no.Node.{
  UnlockedAppState, LibraryCall, Action, pure, fail, gets, unwrap, or_fail, fail_if, lift, modify,
  call, ◌>>=◌, ◌>>◌,
}
use f1r3fly_rgb_lightning_no.Node.Funding.{check_schema}
use f1r3fly_rgb_lightning_no.Peers.{
  PeerCodec, PeerStore, parse_peer_info, persist_channel_peer, read_channel_peer_data,
}
use f1r3fly_rgb_lightning_no.Peers.Connections.{PeerManager, connected, connect_peer_if_necessary}
use f1r3fly_rgb_lightning_no.Routes.Library.{Library}
use f1r3fly_rgb_lightning_no.Routes.Channels.{
  ChannelLibrary, LdkApiError, Created, created, not_created, rgb_try, check_channel_id,
  openrgbchannel_min_sat, openchannel_min_sat, openchannel_max_sat, openchannel_min_rgb_amt,
}

pub record OpenChannelRequest : Type 0 where
  pub peer_pubkey_and_opt_addr : Bytes
  pub capacity_sat : ℕ
  pub push_msat : ℕ
  pub asset_id : Option Bytes
  pub asset_amount : Option ℕ
  pub with_anchors : Bool
  pub temporary_channel_id : Option Bytes

-- What the checks of `open_channel` read from its request.
pub record Opening : Type 0 where
  pub temporary_channel_id : Option Bytes
  pub colored_info : Option (Bytes × ℕ)
  pub peer_pubkey : Bytes
  pub peer_addr : Option Bytes

-- The temporary id of the request, which is not in use.
unfoldable pub check_temporary : Option Bytes → Action (Option Bytes)
unfolding check_channel_id
check_temporary none = pure none
check_temporary (some text) = do
  id ← lift (check_channel_id text)
  used ← gets (λ s. contains_key id s.channel_ids_map)
  fail_if used ApiError.temporary_channel_id_already_used
  pure (some id)

-- The asset of the channel, if any.
unfoldable pub check_colored :
    (Bytes → Option Bytes) → Option Bytes → Option ℕ → Action (Option (Bytes × ℕ))
check_colored contract_from_str (some asset) (some amt) = do
  fail_if (ltb amt openchannel_min_rgb_amt) (
      ApiError.invalid_amount (
        str "Channel RGB amount must be equal to or higher than "
        ++ show_nat openchannel_min_rgb_amt))
  contract ← or_fail (contract_from_str asset) (ApiError.invalid_asset_id asset)
  pure (some (contract, amt))
check_colored contract_from_str none none = pure none
check_colored contract_from_str (some _) none = fail ApiError.incomplete_rgb_info
check_colored contract_from_str none (some _) = fail ApiError.incomplete_rgb_info

-- The bounds on the capacity and on the amount pushed.
unfoldable pub check_capacity : Bool → OpenChannelRequest → Action (Unit {0})
check_capacity colored r = do
  fail_if (colored && ltb r.capacity_sat openrgbchannel_min_sat) (
      ApiError.invalid_amount (
        str "RGB channel amount must be equal to or higher than "
        ++ (show_nat openrgbchannel_min_sat ++ str " sats")))
  fail_if (ltb r.capacity_sat openchannel_min_sat) (
      ApiError.invalid_amount (
        str "Channel amount must be equal to or higher than "
        ++ (show_nat openchannel_min_sat ++ str " sats")))
  fail_if (ltb openchannel_max_sat r.capacity_sat) (
      ApiError.invalid_amount (
        str "Channel amount must be equal to or less than "
        ++ (show_nat openchannel_max_sat ++ str " sats")))
  fail_if (ltb (r.capacity_sat * 1000) r.push_msat)
      (ApiError.invalid_amount (str "Channel push amount cannot be higher than the capacity"))
  fail_if (colored && not r.with_anchors) ApiError.anchors_required

module _ (lib : Library) (codec : PeerCodec) where
  -- `open_channel`, up to the parsing of the peer.
  unfoldable pub check_open : OpenChannelRequest → Action Opening
  unfolding check_temporary check_colored check_capacity
  check_open r = do
    locked ← gets (λ s. s.rgb_send_lock)
    fail_if locked ApiError.open_channel_in_progress
    temporary ← check_temporary r.temporary_channel_id
    colored ← check_colored lib.codec.contract_from_str r.asset_id r.asset_amount
    check_capacity (is_some colored) r
    peer ← lift (parse_peer_info codec r.peer_pubkey_and_opt_addr)
    pure (record {
      temporary_channel_id = temporary;
      colored_info = colored;
      peer_pubkey = peer.0;
      peer_addr = peer.1;
    })

-- The address of a peer: the one of the request, of the connected peer, or of the peer file.
unfoldable pub find_address :
    PeerCodec → ChannelLibrary → Opening → PeerStore → Outcome (Option Bytes)
find_address codec channels o store =
    elim (Option.or_else o.peer_addr (channels.peer_address o.peer_pubkey)) [
      | some address ↦ ok (some address)
      | none ↦ elim (read_channel_peer_data codec store) [
        | ok peers ↦ ok (lookup o.peer_pubkey peers)
        | err e ↦ err e
        | panicked ↦ panicked
      ]
    ]

-- From the address on.
unfoldable pub reach_address :
    PeerCodec
    → ℕ
    → PeerManager
    → Bytes
    → Outcome (Option Bytes)
    → PeerStore
    → Option (Outcome (Unit {0}) × PeerStore)
reach_address codec fuel manager pubkey (ok (some address)) store =
    connected (connect_peer_if_necessary fuel manager pubkey address) store
      (persist_channel_peer codec pubkey address)
reach_address codec fuel manager pubkey (ok none) store = some (
  err (ApiError.invalid_peer_info (str "cannot find the address for the provided pubkey")),
  store,
)
reach_address codec fuel manager pubkey (err e) store = some (err e, store)
reach_address codec fuel manager pubkey panicked store = some (panicked, store)

-- The reservation of the asset of the channel.
unfoldable pub reserve_asset : ChannelLibrary → Option (Bytes × ℕ) → Action (Unit {0})
unfolding rgb_try check_schema
reserve_asset channels none = pure tt
reserve_asset channels (some (contract, amount)) = do
  spendable ← rgb_try (channels.rgb_get_asset_balance contract)
  fail_if (ltb spendable amount) ApiError.insufficient_assets
  unwrap (if channels.proxy_is_transport then some tt else none)
  schema ← rgb_try (channels.rgb_get_asset_schema contract)
  check_schema schema
  call (LibraryCall.rgb_send_begin contract amount)
  rgb_try (channels.rgb_send_begin contract amount)

unfoldable pub set_rgb_send_lock : Bool → Action (Unit {0})
set_rgb_send_lock b = modify (λ s. record s { rgb_send_lock = b })

-- The fee that the error names, or 0.
unfoldable pub commitment_tx_fee : Option Bytes → Action ℕ
commitment_tx_fee none = pure 0
commitment_tx_fee (some digits) = unwrap (parse_u64 digits)

-- The error of an unopened channel.
unfoldable pub creation_error : ChannelLibrary → LdkApiError → Action Bytes
unfolding commitment_tx_fee
creation_error channels (LdkApiError.api_misuse_error e) =
    if channels.is_fee_error e
    then commitment_tx_fee (channels.captured_fee e)
      >>= (λ fee. fail (ApiError.insufficient_capacity fee))
    else fail (ApiError.failed_open_channel (channels.misuse_print e))
creation_error channels (LdkApiError.other e) = fail (ApiError.failed_open_channel e)

-- The result of `create_channel`; an error releases the lock.
unfoldable pub created_channel : ChannelLibrary → Created → Action Bytes
unfolding set_rgb_send_lock creation_error
created_channel channels (created id) = pure id
created_channel channels (not_created e) = do set_rgb_send_lock false; creation_error channels e

-- `write_rgb_channel_info`, which panics if the write fails.
unfoldable pub write_rgb_channel_info :
    ChannelLibrary → Bytes → Bytes → ℕ → Bool → Action (Unit {0})
write_rgb_channel_info channels id contract amount pending = do
  unwrap (if channels.writes_info id pending then some tt else none)
  call (LibraryCall.write_rgb_channel_info id contract amount pending)

-- The RGB data of the channel.
unfoldable pub write_infos : ChannelLibrary → Bytes → Option (Bytes × ℕ) → Action (Unit {0})
unfolding write_rgb_channel_info
write_infos channels id none = pure tt
write_infos channels id (some (contract, amount)) = do
  write_rgb_channel_info channels id contract amount true
  write_rgb_channel_info channels id contract amount false

-- `open_channel` from the lock on; the value is the temporary id's text.
unfoldable pub open_reserved : ChannelLibrary → OpenChannelRequest → Opening → Action Bytes
unfolding set_rgb_send_lock created_channel write_infos
open_reserved channels r o = do
  set_rgb_send_lock true
  call (LibraryCall.create_channel o.peer_pubkey)
  id ←
      created_channel channels
        (channels.create_channel o.peer_pubkey r.capacity_sat r.push_msat o.temporary_channel_id)
  write_infos channels (hex_str id) o.colored_info
  pure (hex_str id)

-- `open_channel` from the connection on.
unfoldable pub create_opened : ChannelLibrary → OpenChannelRequest → Opening → Action Bytes
unfolding reserve_asset open_reserved
create_opened channels r o = do reserve_asset channels o.colored_info; open_reserved channels r o

-- The node and the peer file.
abbrev pub Opened : Type 0
Opened = Outcome Bytes × UnlockedAppState × PeerStore

-- The three parts, one after the other; none is a connection that is waited for when the fuel is spent.
unfoldable pub after_connection :
    ChannelLibrary
    → OpenChannelRequest
    → Opening
    → UnlockedAppState
    → Option (Outcome (Unit {0}) × PeerStore)
    → Option Opened
unfolding create_opened
after_connection channels r o s none = none
after_connection channels r o s (some (ok _, store)) =
    let (out, s') = create_opened channels r o s in some (out, s', store)
after_connection channels r o s (some (err e, store)) = some (err e, s, store)
after_connection channels r o s (some (panicked, store)) = some (panicked, s, store)

module _ (lib : Library) (codec : PeerCodec) (channels : ChannelLibrary) (fuel : ℕ)
    (manager : PeerManager) where
  unfoldable pub after_checks :
      OpenChannelRequest → Outcome Opening × UnlockedAppState → PeerStore → Option Opened
  unfolding find_address reach_address after_connection
  after_checks r (ok o, s) store =
      after_connection channels r o s
        (reach_address codec fuel manager o.peer_pubkey (find_address codec channels o store) store)
  after_checks r (err e, s) store = some (err e, s, store)
  after_checks r (panicked, s) store = some (panicked, s, store)

  unfoldable pub open_channel : OpenChannelRequest → UnlockedAppState → PeerStore → Option Opened
  unfolding check_open after_checks
  open_channel r s store = after_checks r (check_open lib codec r s) store
