-- ===== src/Routes/Library.antt =====
-- What the handlers take from the Lightning library and its RGB extension: lookups and calls, with
-- the results that they give. A public key and a contract id are their bytes.
use f1r3fly_rgb_lightning_no.Common.{ℕ, Option, List, Bytes}
use f1r3fly_rgb_lightning_no.Swap.{Codec}

-- `RgbInfo`, as far as it is read.
pub record RgbInfo : Type 0 where
  pub contract_id : Bytes
  pub local_rgb_amount : ℕ

pub record ForwardingInfo : Type 0 where
  pub cltv_expiry_delta : ℕ
  pub fee_base_msat : ℕ
  pub fee_proportional_millionths : ℕ

-- `ChannelDetails`, as far as it is read.
pub record ChannelDetails : Type 0 where
  pub channel_id : Bytes
  pub counterparty_node_id : Bytes
  pub forwarding_info : Option ForwardingInfo
  pub short_channel_id : Option ℕ
  pub not_shutting_down : Option (Unit {0})

-- A `RouteHint` of one `RouteHintHop`.
pub record RouteHintHop : Type 0 where
  pub src_node_id : Bytes
  pub short_channel_id : ℕ
  pub forwarding : ForwardingInfo

-- A `RouteHop`, as far as it is read or written.
pub record RouteHop : Type 0 where
  pub short_channel_id : ℕ
  pub fee_msat : ℕ
  pub rgb_payment : Option (Bytes × ℕ)

-- The paths of a `Route`, each a list of hops.
abbrev pub Route : Type 0
Route = List (List RouteHop)

-- What `find_route` is asked.
pub record RouteRequest : Type 0 where
  pub start : Bytes
  pub dest : Bytes
  pub final_value_msat : ℕ
  pub rgb_payment : Option (Bytes × ℕ)
  pub hints : List RouteHintHop

pub record Library : Type 0 where
  pub codec : Codec
  -- `PublicKey::from_str` and `PublicKey::from_slice`
  pub pubkey_from_str : Bytes → Option Bytes
  pub pubkey_from_slice : Bytes → Option Bytes
  pub our_node_id : Bytes
  pub list_channels : List ChannelDetails
  pub list_usable_channels : List ChannelDetails
  -- the RGB info file of a channel
  pub rgb_channel_info : Bytes → Option RgbInfo
  pub find_route : RouteRequest → Option Route
  -- from the payment hash and secret
  pub get_payment_preimage : Bytes → Bytes → Option Bytes
  -- from the amount and the expiry delta: the payment hash and secret
  pub create_inbound_payment : Option ℕ → ℕ → Option (Bytes × Bytes)
  -- from the hops, the preimage and the payment id: the error's debug print, if any
  pub send_spontaneous_payment : List RouteHop → Bytes → Bytes → Option Bytes
  pub is_swap_scid : ℕ
