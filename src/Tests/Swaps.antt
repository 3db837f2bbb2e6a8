-- ===== src/Tests/Swaps.antt =====
-- The swap handlers on concrete nodes.
use mathlib.Core.Option
use f1r3fly_rgb_lightning_no.Common.{
  ◌+◌, ◌≡◌, ◌≢◌, refl, true, false, none, some, List, [], ◌∷◌, IsBytes, length, str, lookup,
  bytes_eq, ltb, leb, arith,
}
use f1r3fly_rgb_lightning_no.Outcome.{ok, panicked}
use f1r3fly_rgb_lightning_no.Hex.{hex_str, hex_str_to_vec}
use f1r3fly_rgb_lightning_no.Hex.Laws.{hex_str_to_vec-hex_str}
use f1r3fly_rgb_lightning_no.Swap.{SwapStatus, to_array32, create_from_swap_info, from_swap_info}
use f1r3fly_rgb_lightning_no.Routes.Library.{RouteHop}
use f1r3fly_rgb_lightning_no.Node.{UnlockedAppState}
use f1r3fly_rgb_lightning_no.Node.Ensures.{Ensures}
use f1r3fly_rgb_lightning_no.Node.Invariant.{Keeps, IsSound}
use f1r3fly_rgb_lightning_no.Node.Swaps.Moves.{with_taker}
use f1r3fly_rgb_lightning_no.Routes.Amounts.{max_swap_fee_msat}
use f1r3fly_rgb_lightning_no.Routes.Swaps.{Swap, list_swaps, map_swap, report}
use f1r3fly_rgb_lightning_no.Routes.Swaps.Reported.{list_swaps-Keeps}
use f1r3fly_rgb_lightning_no.Routes.Swaps.Status.{stored_status, map_swap-due}
use f1r3fly_rgb_lightning_no.Routes.Swaps.Complete.{list_swaps_returns}
use f1r3fly_rgb_lightning_no.Routes.Maker.{
  MakerInitRequest, MakerInitResponse, get_max_local_rgb_amount, maker_init,
}
use f1r3fly_rgb_lightning_no.Routes.Maker.Offers.{Offer, NewOffer, maker_init_offer}
use f1r3fly_rgb_lightning_no.Routes.Maker.Accepted.{swap_info_of, taker_lem, taker_accepts_offer}
use f1r3fly_rgb_lightning_no.Routes.Maker.Path.{total_fee}
use f1r3fly_rgb_lightning_no.Routes.Maker.Execute.{
  MakerExecuteRequest, send_swap, maker_execute, taker,
}
use f1r3fly_rgb_lightning_no.Routes.Maker.Execute.Outcomes.{
  Settled, IsRead, send_swap_settles, maker_execute_expired_unknown,
}
use f1r3fly_rgb_lightning_no.Tests.Data.{
  codec, codec-IsLawful, hash, asset, info, offer, waiting_swap, empty_state, maker_state,
  maker_state-IsSound, library, hop,
}
use f1r3fly_rgb_lightning_no.Tests.Texts.{offer_text, offer_is_read}

not_pending : SwapStatus.pending ≢ SwapStatus.waiting
not_pending e = cc

known : lookup hash maker_state.maker_swaps ≡ some waiting_swap
unfolding lookup bytes_eq
known = refl

list_swaps-Keeps_example : Keeps (list_swaps codec)
list_swaps-Keeps_example = list_swaps-Keeps codec

list_swaps_returns_example :
    (swaps : List Swap × List Swap) × (s' : UnlockedAppState) × (list_swaps codec maker_state
      ≡ (ok swaps, s'))
    × IsSound s'
list_swaps_returns_example = list_swaps_returns codec maker_state maker_state-IsSound refl

-- The offer expires at 1060, and the clock is at 2000.
abbrev late_state : UnlockedAppState
late_state = record maker_state { clock = λ n. 2000 + n }

map_swap-due_example :
    let (r, s') = map_swap codec false hash waiting_swap late_state in
    (r ≡ ok (report codec hash waiting_swap SwapStatus.expired))
    × (stored_status false hash s' ≡ some SwapStatus.expired)
map_swap-due_example = map_swap-due codec false hash waiting_swap late_state known tt refl

abbrev execute_request : MakerExecuteRequest
execute_request = record {
  swapstring = offer_text;
  payment_secret = hex_str hash;
  taker_pubkey = asset;
}

secret_is_read : Option.bind (hex_str_to_vec (hex_str hash)) to_array32 ≡ some hash
unfolding to_array32 Option.bind
secret_is_read = rw (hex_str_to_vec-hex_str hash (ground arith)) refl

request_is_read : IsRead library execute_request offer hash asset
request_is_read = (offer_is_read, secret_is_read, refl)

maker_execute_expired_unknown_example :
    (maker_execute library execute_request (record empty_state { clock = λ n. 2000 + n })).0
    ≡ panicked
unfolding lookup
maker_execute_expired_unknown_example =
    maker_execute_expired_unknown library execute_request offer hash asset
      (record empty_state { clock = λ n. 2000 + n }) request_is_read refl refl

cheap : leb max_swap_fee_msat (total_fee (hop ∷ hop ∷ [])) ≡ false
unfolding total_fee
cheap = refl

send_swap_settles_example :
    Settled hash
      (some (str "duplicate"))
      (send_swap library offer hash (hop ∷ hop ∷ []) maker_state)
send_swap_settles_example =
    send_swap_settles library offer hash (hop ∷ hop ∷ []) waiting_swap maker_state cheap known refl

abbrev dear_hops : List RouteHop
dear_hops = record hop { fee_msat = 3000000 } ∷ hop ∷ []

dear : leb max_swap_fee_msat (total_fee dear_hops) ≡ true
unfolding total_fee
dear = refl

abbrev init_request : MakerInitRequest
init_request = record {
  qty_from = 5000;
  qty_to = 10;
  from_asset = none;
  to_asset = some (b'r' ∷ 49 ∷ 50 ∷ []);
  timeout_sec = 60;
}

maker_init_offer_example : Ensures (maker_init library init_request) (NewOffer library init_request)
maker_init_offer_example = maker_init_offer library init_request

taker_lem_example : taker library offer_text empty_state ≡ (
  ok tt,
  with_taker hash (record waiting_swap { requested_at = 1001 }) (record empty_state { ticks = 2 }),
)
unfolding create_from_swap_info
taker_lem_example = taker_lem library offer_text offer empty_state offer_is_read refl tt refl

abbrev init_response : MakerInitResponse
init_response = record {
  payment_hash = hex_str hash;
  payment_secret = hex_str hash;
  swapstring = offer_text;
}

affords_offer : ltb (get_max_local_rgb_amount library asset library.list_channels) 10 ≡ false
unfolding get_max_local_rgb_amount bytes_eq
affords_offer = refl

hash_of_offer : IsBytes hash × (length hash ≡ 32)
hash_of_offer = (ground arith, refl)

the_offer : Offer library init_request init_response maker_state
unfolding create_from_swap_info from_swap_info
the_offer = record {
  info = info;
  hash = hash;
  secret = hash;
  qty_from = refl;
  qty_to = refl;
  expiry_lt = omega arith;
  from_asset = refl;
  to_asset = (asset, refl, refl);
  distinct = λ e. cc;
  affords = affords_offer;
  created = refl;
  payment_hash = refl;
  payment_secret = refl;
  swapstring = refl;
  requested_at = 1000;
  stored = known;
}

taker_accepts_offer_example :
    let (x, s') = taker library offer_text empty_state in
    (x ≡ ok tt)
    × (swap_info_of (lookup hash s'.taker_swaps) ≡ some info)
    × (swap_info_of (lookup hash maker_state.maker_swaps) ≡ some info)
unfolding the_offer
taker_accepts_offer_example =
    taker_accepts_offer library library init_request init_response maker_state empty_state the_offer
      codec-IsLawful refl (omega arith, omega arith) (omega arith, omega arith) (omega arith)
      hash_of_offer refl tt refl
