-- ===== src/Routes/Maker.antt =====
-- `maker_init` (src/routes.rs), and the largest local amount of an asset (src/utils.rs).
pub mod Timed
pub mod Offers
pub mod Accepted
pub mod Path
pub mod Execute
use mathlib.Core.Option
use f1r3fly_rgb_lightning_no.Common.{
  ℕ, ◌+◌, ◌%◌, ◌^◌, Bool, true, false, ◌&&◌, Option, none, some, List, [], ◌∷◌, Bytes, str,
  bytes_eq, option_bytes_eq, is_none, ltb, if◌then◌else◌,
}
use f1r3fly_rgb_lightning_no.Error.{ApiError}
use f1r3fly_rgb_lightning_no.Hex.{hex_str}
use f1r3fly_rgb_lightning_no.Swap.{
  SwapInfo, SwapData, create_from_swap_info, from_swap_info, to_string,
}
use f1r3fly_rgb_lightning_no.Node.{
  Action, pure, fail, unwrap, or_fail, fail_if, ◌>>=◌, ◌>>◌, get_current_timestamp,
}
use f1r3fly_rgb_lightning_no.Node.Swaps.{add_maker_swap}
use f1r3fly_rgb_lightning_no.Routes.Library.{Library, ChannelDetails, RgbInfo}
use f1r3fly_rgb_lightning_no.Routes.Amounts.{dust_limit_msat, wrapping_add}

pub record MakerInitRequest : Type 0 where
  pub qty_from : ℕ
  pub qty_to : ℕ
  pub from_asset : Option Bytes
  pub to_asset : Option Bytes
  pub timeout_sec : ℕ

pub record MakerInitResponse : Type 0 where
  pub payment_hash : Bytes
  pub payment_secret : Bytes
  pub swapstring : Bytes

module _ (lib : Library) where
  -- The loop of `get_max_local_rgb_amount`, with the maximum so far.
  unfoldable pub max_local_from : Bytes → ℕ → List ChannelDetails → ℕ
  max_local_from contract best [] = best
  max_local_from contract best (c ∷ cs) =
      max_local_from contract
        (elim (lib.rgb_channel_info c.channel_id) [
          | none ↦ best
          | some info ↦
              if bytes_eq info.contract_id contract && ltb best info.local_rgb_amount
              then info.local_rgb_amount
              else best
        ])
        cs

  unfoldable pub get_max_local_rgb_amount : Bytes → List ChannelDetails → ℕ
  unfolding max_local_from
  get_max_local_rgb_amount contract channels = max_local_from contract 0 channels

  -- The parsing of an optional asset id.
  unfoldable pub parse_asset : Option Bytes → Action (Option Bytes)
  parse_asset none = pure none
  parse_asset (some asset) = do
    c ← or_fail (lib.codec.contract_from_str asset) (ApiError.invalid_asset_id asset)
    pure (some c)

  -- The test that a channel holds as much of the asset to send.
  unfoldable pub check_balance : Option Bytes → ℕ → Action (Unit {0})
  unfolding get_max_local_rgb_amount
  check_balance none qty = pure tt
  check_balance (some asset) qty =
      fail_if (ltb (get_max_local_rgb_amount asset lib.list_channels) qty)
        ApiError.insufficient_assets

  -- From the call of `create_inbound_payment` on.
  unfoldable pub publish_offer : SwapInfo → SwapData → ℕ → Action MakerInitResponse
  publish_offer info swap_data timeout_sec = do
    payment ← unwrap (lib.create_inbound_payment (some dust_limit_msat) timeout_sec)
    add_maker_swap payment.0 swap_data
    pure (record {
      payment_hash = hex_str payment.0;
      payment_secret = hex_str payment.1;
      swapstring = to_string lib.codec (from_swap_info info payment.0);
    })

  -- From the test of the two assets on.
  unfoldable pub make_offer :
      MakerInitRequest → Option Bytes → Option Bytes → Action MakerInitResponse
  unfolding check_balance publish_offer create_from_swap_info get_current_timestamp wrapping_add
  make_offer payload from_asset to_asset = do
    fail_if (is_none from_asset && is_none to_asset)
        (ApiError.invalid_swap (str "cannot swap BTC for BTC"))
    fail_if (option_bytes_eq from_asset to_asset)
        (ApiError.invalid_swap (str "cannot swap the same asset"))
    now ← get_current_timestamp
    let info : SwapInfo = record {
      from_asset = from_asset;
      to_asset = to_asset;
      qty_from = payload.qty_from;
      qty_to = payload.qty_to;
      expiry = wrapping_add now payload.timeout_sec;
    }
    requested ← get_current_timestamp
    let swap_data = create_from_swap_info requested info
    check_balance to_asset payload.qty_to
    publish_offer info swap_data payload.timeout_sec

  unfoldable pub maker_init : MakerInitRequest → Action MakerInitResponse
  unfolding parse_asset make_offer
  maker_init payload = do
    from_asset ← parse_asset payload.from_asset
    to_asset ← parse_asset payload.to_asset
    make_offer payload from_asset to_asset
