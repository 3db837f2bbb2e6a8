-- ===== src/Routes/Channels.antt =====
-- The handlers of channels (src/routes.rs): `open_channel`, `close_channel` and `get_channel_id`, with
-- `check_channel_id` (src/utils.rs).
pub mod Open
pub mod Steady
pub mod Locked
pub mod Keeps
pub mod Checked
pub mod Bounds
pub mod Named
use mathlib.Core.Option
use f1r3fly_rgb_lightning_no.Common.{
  ℕ, ◌+◌, ◌*◌, ◌/◌, Bool, true, false, ◌&&◌, not, Option, none, some, is_some, List, [], ◌∷◌, ◌++◌,
  Bytes, Map, lookup, contains_key, str, bytes_eq, length, ltb, ◌==◌, if◌then◌else◌,
}
use f1r3fly_rgb_lightning_no.Decimal.{show_nat}
use f1r3fly_rgb_lightning_no.Hex.{hex_str, hex_str_to_vec}
use f1r3fly_rgb_lightning_no.Error.{ApiError, RgbLibError, from_rgb_lib}
use f1r3fly_rgb_lightning_no.Outcome.{Outcome, ok, err, panicked}
use f1r3fly_rgb_lightning_no.Swap.{to_array32}
use f1r3fly_rgb_lightning_no.Node.{
  UnlockedAppState, LibraryCall, Action, pure, fail, panic, gets, unwrap, or_fail, fail_if, lift,
  modify, call, ◌>>=◌, ◌>>◌,
}
use f1r3fly_rgb_lightning_no.Node.Funding.{AssetSchema}
use f1r3fly_rgb_lightning_no.Peers.{
  PeerCodec, PeerStore, parse_peer_info, persist_channel_peer, read_channel_peer_data,
}
use f1r3fly_rgb_lightning_no.Peers.Connections.{PeerManager, connect_peer_if_necessary}
use f1r3fly_rgb_lightning_no.Routes.Amounts.{htlc_min_msat}
use f1r3fly_rgb_lightning_no.Routes.Library.{Library, ChannelDetails}

abbrev pub openrgbchannel_min_sat : ℕ
openrgbchannel_min_sat = htlc_min_msat / 1000 * 10 + 10

abbrev pub openchannel_min_sat : ℕ
openchannel_min_sat = 5506

abbrev pub openchannel_max_sat : ℕ
openchannel_max_sat = 16777215

abbrev pub openchannel_min_rgb_amt : ℕ
openchannel_min_rgb_amt = 1

-- An error of the Lightning library: a misuse, with its text, or another, with its debug print.
pub data LdkApiError : Type 0 where
  api_misuse_error : Bytes → LdkApiError
  other : Bytes → LdkApiError

-- A result of the RGB library.
pub data RgbResult (A : Type 0) : Type 0 where
  gives : A → RgbResult A
  refuses : RgbLibError → RgbResult A

-- `r?` on such a result.
unfoldable pub rgb_try : {A : Type 0} → RgbResult A → Action A
rgb_try (gives a) = pure a
rgb_try (refuses e) = fail (from_rgb_lib e)

-- The result of `create_channel`: the temporary id of the channel, or an error.
pub data Created : Type 0 where
  created : Bytes → Created
  not_created : LdkApiError → Created

-- What the handlers of channels take from the libraries, besides `Library`.
pub record ChannelLibrary : Type 0 where
  -- from the requested channel and the peer: the error, if any
  pub close_channel : Bytes → Bytes → Option LdkApiError
  pub force_close_channel : Bytes → Bytes → Option LdkApiError
  -- the address of a connected peer
  pub peer_address : Bytes → Option Bytes
  -- the spendable balance and the schema of an asset, and the reservation of an amount
  pub rgb_get_asset_balance : Bytes → RgbResult ℕ
  pub rgb_get_asset_schema : Bytes → RgbResult AssetSchema
  pub rgb_send_begin : Bytes → ℕ → RgbResult (Unit {0})
  -- the proxy endpoint is an `RgbTransport`
  pub proxy_is_transport : Bool
  -- from the peer, the capacity, the amount pushed and the temporary id
  pub create_channel : Bytes → ℕ → ℕ → Option Bytes → Created
  -- whether an error's text is about the fee, and what the regular expression captures of it
  pub is_fee_error : Bytes → Bool
  -- the debug print of such an error
  pub misuse_print : Bytes → Bytes
  pub captured_fee : Bytes → Option Bytes
  -- whether the write of the RGB data of a channel works, pending or not
  pub writes_info : Bytes → Bool → Bool

-- The end of `check_channel_id`, from the bytes of the text.
unfoldable pub check_decoded : Option Bytes → Outcome Bytes
check_decoded none = err ApiError.invalid_channel_id
check_decoded (some bytes) =
    if length bytes == 32 then ok bytes else err ApiError.invalid_channel_id

unfoldable pub check_channel_id : Bytes → Outcome Bytes
unfolding check_decoded
check_channel_id channel_id_str = check_decoded (hex_str_to_vec channel_id_str)

unfoldable pub get_channel_id : Bytes → Action Bytes
unfolding check_channel_id
get_channel_id temporary_channel_id = do
  tmp_chan_id ← lift (check_channel_id temporary_channel_id)
  found ← gets (λ s. lookup tmp_chan_id s.channel_ids_map)
  channel_id ← or_fail found ApiError.unknown_temporary_channel_id
  pure (hex_str channel_id)

-- The `find` of the channel to close.
unfoldable pub find_channel : Bytes → List ChannelDetails → Option ChannelDetails
find_channel id [] = none
find_channel id (c ∷ cs) = if bytes_eq c.channel_id id then some c else find_channel id cs

unfoldable pub closing_error : Option LdkApiError → Action (Unit {0})
closing_error none = pure tt
closing_error (some (LdkApiError.api_misuse_error e)) = fail (ApiError.failed_closing_channel e)
closing_error (some (LdkApiError.other e)) = fail (ApiError.cannot_close_channel e)

module _ (lib : Library) (channels : ChannelLibrary) where
  -- The call that closes a channel, and its error.
  unfoldable pub request_close : Bool → Bytes → Bytes → Action (Unit {0})
  unfolding closing_error
  request_close true channel peer = do
    call (LibraryCall.force_close_channel channel peer)
    closing_error (channels.force_close_channel channel peer)
  request_close false channel peer = do
    call (LibraryCall.close_channel channel peer)
    closing_error (channels.close_channel channel peer)

  -- The request's channel id, peer key, and whether to force the close.
  unfoldable pub close_channel : Bytes → Bytes → Bool → Action (Unit {0})
  unfolding to_array32 find_channel request_close
  close_channel channel_id peer_pubkey force = do
    requested ←
        or_fail (Option.bind (hex_str_to_vec channel_id) to_array32) ApiError.invalid_channel_id
    bytes ← or_fail (hex_str_to_vec peer_pubkey) ApiError.invalid_pubkey
    peer ← or_fail (lib.pubkey_from_slice bytes) ApiError.invalid_pubkey
    details ← or_fail (find_channel requested lib.list_channels) ApiError.unknown_channel_id
    fail_if (not (is_some details.not_shutting_down))
        (ApiError.cannot_close_channel (str "Channel is already being closed"))
    request_close force requested peer
