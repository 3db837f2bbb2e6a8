-- ===== src/Routes/Swaps.antt =====
-- `list_swaps` and `get_swap` (src/routes.rs): the swaps as they are reported, each brought up to date
-- on the way: an offer past its expiry expires, and a swap pending for more than a day fails.
pub mod Reported
pub mod Runs
pub mod Complete
pub mod Status
use mathlib.Core.Option
use f1r3fly_rgb_lightning_no.Common.{
  ℕ, Bool, true, false, ◌||◌, not, Option, none, some, List, [], ◌∷◌, Bytes, Map, lookup, length,
  ltb, ◌==◌, if◌then◌else◌,
}
use f1r3fly_rgb_lightning_no.Error.{ApiError}
use f1r3fly_rgb_lightning_no.Hex.{hex_str_to_vec}
use f1r3fly_rgb_lightning_no.Swap.{SwapStatus, SwapData, Codec, to_array32}
use f1r3fly_rgb_lightning_no.Node.{
  Action, pure, fail, gets, unwrap, or_fail, ◌>>=◌, ◌>>◌, get_current_timestamp, UnlockedAppState,
}
use f1r3fly_rgb_lightning_no.Node.Swaps.{update_maker_swap_status, update_taker_swap_status}
use f1r3fly_rgb_lightning_no.Routes.Amounts.{wrapping_add}

pub record Swap : Type 0 where
  pub payment_hash : Bytes
  pub qty_from : ℕ
  pub qty_to : ℕ
  pub from_asset : Option Bytes
  pub to_asset : Option Bytes
  pub status : SwapStatus
  pub requested_at : ℕ
  pub initiated_at : Option ℕ
  pub expires_at : ℕ
  pub completed_at : Option ℕ

-- The status as it is now, and whether it differs from the stored one.
unfoldable pub current_of : SwapStatus → SwapData → Action (SwapStatus × Bool)
unfolding get_current_timestamp
current_of SwapStatus.waiting d = do
  now ← get_current_timestamp
  pure (
      if ltb d.swap_info.expiry now
      then (SwapStatus.expired, true)
      else (SwapStatus.waiting, false))
current_of SwapStatus.pending d = do
  now ← get_current_timestamp
  start ← unwrap d.initiated_at
  pure (
      if ltb (wrapping_add start 86400) now
      then (SwapStatus.failed, true)
      else (SwapStatus.pending, false))
current_of status d = pure (status, false)

unfoldable pub current_status : SwapData → Action (SwapStatus × Bool)
unfolding current_of
current_status d = current_of d.status d

unfoldable pub update_swap_status : Bool → Bytes → SwapStatus → Action (Unit {0})
update_swap_status true = update_taker_swap_status
update_swap_status false = update_maker_swap_status

-- The map that `get_swap` looks in.
abbrev pub swaps_of : Bool → UnlockedAppState → Map SwapData
swaps_of true s = s.taker_swaps
swaps_of false s = s.maker_swaps

module _ (codec : Codec) where
  unfoldable pub report : Bytes → SwapData → SwapStatus → Swap
  report hash d status = record {
    payment_hash = codec.show_payment_hash hash;
    qty_from = d.swap_info.qty_from;
    qty_to = d.swap_info.qty_to;
    from_asset = Option.map codec.contract_to_string d.swap_info.from_asset;
    to_asset = Option.map codec.contract_to_string d.swap_info.to_asset;
    status = status;
    requested_at = d.requested_at;
    initiated_at = d.initiated_at;
    expires_at = d.swap_info.expiry;
    completed_at = d.completed_at;
  }

  -- The closure `map_swap`.
  unfoldable pub map_swap : Bool → Bytes → SwapData → Action Swap
  unfolding current_status update_swap_status report
  map_swap taker hash d = do
    now ← current_status d
    if now.1 then update_swap_status taker hash now.0 else pure tt
    pure (report hash d now.0)

  unfoldable pub map_swaps : Bool → Map SwapData → Action (List Swap)
  unfolding map_swap
  map_swaps taker [] = pure []
  map_swaps taker ((hash, d) ∷ rest) = do
    swap ← map_swap taker hash d
    swaps ← map_swaps taker rest
    pure (swap ∷ swaps)

  -- The taker's swaps, and the maker's.
  unfoldable pub list_swaps : Action (List Swap × List Swap)
  unfolding map_swaps
  list_swaps = do
    taker_swaps ← gets (λ s. s.taker_swaps)
    maker_swaps ← gets (λ s. s.maker_swaps)
    taker ← map_swaps true taker_swaps
    maker ← map_swaps false maker_swaps
    pure (taker, maker)

  -- From the `payment_hash` and `taker` of the request.
  unfoldable pub get_swap : Bytes → Bool → Action Swap
  unfolding map_swap to_array32
  get_swap payment_hash taker = do
    requested ←
        or_fail (Option.bind (hex_str_to_vec payment_hash) to_array32)
          (ApiError.invalid_payment_hash payment_hash)
    found ← gets (λ s. lookup requested (swaps_of taker s))
    d ← or_fail found (ApiError.swap_not_found payment_hash)
    map_swap taker requested d
