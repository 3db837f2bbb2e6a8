-- ===== src/Swap/Data.antt =====
-- `SwapStatus` (src/routes.rs), `SwapInfo` and `SwapData` (src/swap.rs). A `ContractId` is its bytes.
use f1r3fly_rgb_lightning_no.Common.{
  ℕ, Bool, ◌&&◌, Option, none, Bytes, is_some, is_none, option_bytes_eq,
}

pub data SwapStatus : Type 0 where
  waiting pending succeeded expired failed : SwapStatus

pub record SwapInfo : Type 0 where
  pub qty_from : ℕ
  pub qty_to : ℕ
  pub from_asset : Option Bytes
  pub to_asset : Option Bytes
  pub expiry : ℕ

pub record SwapData : Type 0 where
  pub swap_info : SwapInfo
  pub status : SwapStatus
  pub requested_at : ℕ
  pub initiated_at : Option ℕ
  pub completed_at : Option ℕ

-- The time is what `get_current_timestamp` gives.
unfoldable pub create_from_swap_info : ℕ → SwapInfo → SwapData
create_from_swap_info now info = record {
  swap_info = info;
  status = SwapStatus.waiting;
  requested_at = now;
  initiated_at = none;
  completed_at = none;
}

unfoldable pub same_asset : SwapInfo → Bool
same_asset s = option_bytes_eq s.from_asset s.to_asset

unfoldable pub is_from_btc : SwapInfo → Bool
is_from_btc s = is_none s.from_asset

unfoldable pub is_from_asset : SwapInfo → Bool
is_from_asset s = is_some s.from_asset

unfoldable pub is_to_btc : SwapInfo → Bool
is_to_btc s = is_none s.to_asset

unfoldable pub is_to_asset : SwapInfo → Bool
is_to_asset s = is_some s.to_asset

unfoldable pub is_asset_asset : SwapInfo → Bool
unfolding is_from_asset is_to_asset
is_asset_asset s = is_from_asset s && is_to_asset s
