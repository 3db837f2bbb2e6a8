-- ===== src/Routes/Maker/Path.antt =====
-- The path of a swap payment (`maker_execute` of src/routes.rs, `get_route` of src/utils.rs): the two
-- legs, the swap flag, and the fees.
use Prim.Native.Nat.{bit_or}
use mathlib.Core.Option
use mathlib.Core.List.{reverse}
use f1r3fly_rgb_lightning_no.Common.{
  ℕ, Bool, false, ◌||◌, Option, none, some, List, [], ◌∷◌, ◌++◌, map, Bytes, unwrap_or,
  option_bytes_eq, if◌then◌else◌,
}
use f1r3fly_rgb_lightning_no.Swap.{SwapInfo, is_from_btc, is_to_btc, is_asset_asset}
use f1r3fly_rgb_lightning_no.Routes.Library.{
  Library, ChannelDetails, RouteHintHop, RouteHop, Route, ForwardingInfo,
}
use f1r3fly_rgb_lightning_no.Routes.Amounts.{htlc_min_msat, wrapping_add}

-- `route.paths[0]`, which panics on a route without paths.
unfoldable pub first_path : Route → Option (List RouteHop)
first_path [] = none
first_path (p ∷ ps) = some p

-- `second_leg.paths[0].hops[0].short_channel_id |= IS_SWAP_SCID`
unfoldable pub set_swap_flag : ℕ → List RouteHop → Option (List RouteHop)
set_swap_flag flag [] = none
set_swap_flag flag (hop ∷ hops) =
    some (record hop { short_channel_id = bit_or hop.short_channel_id flag } ∷ hops)

-- `hops.last_mut().expect(…).fee_msat = 0`
unfoldable pub clear_last_fee : List RouteHop → Option (List RouteHop)
clear_last_fee [] = none
clear_last_fee (hop ∷ []) = some (record hop { fee_msat = 0 } ∷ [])
clear_last_fee (hop ∷ next ∷ hops) =
    Option.map (λ (rest : List RouteHop). hop ∷ rest) (clear_last_fee (next ∷ hops))

-- The RGB payment that the hops of a leg carry, if the leg moves an asset.
unfoldable pub set_rgb_payment : Option Bytes → ℕ → RouteHop → RouteHop
set_rgb_payment none qty hop = hop
set_rgb_payment (some asset) qty hop = record hop { rgb_payment = some (asset, qty) }

-- The hops of both legs: the first moves the asset that the taker receives, the second the one that
-- the maker receives.
unfoldable pub full_path : SwapInfo → List RouteHop → List RouteHop → List RouteHop
unfolding set_rgb_payment
full_path info first second =
    map (set_rgb_payment info.to_asset info.qty_to) first
    ++ map (set_rgb_payment info.from_asset info.qty_from) second

unfoldable pub sum_fees : List RouteHop → ℕ
unfolding wrapping_add
sum_fees [] = 0
sum_fees (hop ∷ hops) = wrapping_add hop.fee_msat (sum_fees hops)

abbrev skip_one : List RouteHop → List RouteHop
skip_one [] = []
skip_one (hop ∷ hops) = hops

-- `iter().rev().skip(1).map(|hop| hop.fee_msat).sum()`
unfoldable pub total_fee : List RouteHop → ℕ
unfolding sum_fees
total_fee hops = sum_fees (skip_one (reverse hops))

module _ (lib : Library) where
  -- `get_route`; the parameters that it fixes belong to the library's call.
  unfoldable pub get_route :
      Bytes → Bytes → Option ℕ → Option (Bytes × ℕ) → List RouteHintHop → Option Route
  get_route start dest final_value_msat rgb_payment hints = lib.find_route (record {
    start = start;
    dest = dest;
    final_value_msat = unwrap_or final_value_msat htlc_min_msat;
    rgb_payment = rgb_payment;
    hints = hints;
  })

  -- The filter of the receive hints.
  unfoldable pub can_receive : SwapInfo → ChannelDetails → Bool
  unfolding is_from_btc
  can_receive info c = is_from_btc info || elim (lib.rgb_channel_info c.channel_id) [
    | none ↦ false
    | some rgb ↦ option_bytes_eq (some rgb.contract_id) info.from_asset
  ]

  unfoldable pub hint_of : ChannelDetails → Option RouteHintHop
  hint_of c = Option.bind c.forwarding_info (λ (config : ForwardingInfo).
      Option.map
        (λ (scid : ℕ). record {
          src_node_id = c.counterparty_node_id;
          short_channel_id = scid;
          forwarding = config;
        })
        c.short_channel_id)

  -- The hints of the usable channels that can receive; `none` is a panic on missing details.
  unfoldable pub receive_hints : SwapInfo → List ChannelDetails → Option (List RouteHintHop)
  unfolding can_receive hint_of
  receive_hints info [] = some []
  receive_hints info (c ∷ cs) =
      let rest = receive_hints info cs in
      if can_receive info c
      then Option.bind (hint_of c)
          (λ (h : RouteHintHop). Option.map (λ (hs : List RouteHintHop). h ∷ hs) rest)
      else rest

  -- From the maker to the taker, with what the taker receives.
  unfoldable pub first_leg : SwapInfo → Bytes → Option Route
  unfolding get_route is_to_btc wrapping_add
  first_leg info taker_pk =
      get_route lib.our_node_id taker_pk
        (if is_to_btc info
          then some (wrapping_add info.qty_to htlc_min_msat)
          else some htlc_min_msat)
        (Option.map (λ (a : Bytes). (a, info.qty_to)) info.to_asset) []

  -- From the taker to the maker, with what the maker receives.
  unfoldable pub second_leg : SwapInfo → Bytes → List RouteHintHop → Option Route
  unfolding get_route is_to_btc is_asset_asset wrapping_add
  second_leg info taker_pk hints =
      get_route taker_pk lib.our_node_id
        (if is_to_btc info || is_asset_asset info
          then some htlc_min_msat
          else some (wrapping_add info.qty_from htlc_min_msat))
        (Option.map (λ (a : Bytes). (a, info.qty_from)) info.from_asset) hints
