-- ===== src/Routes/Maker/Execute.antt =====
-- `maker_execute` and `taker` (src/routes.rs).
pub mod Keeps
pub mod Outcomes
use mathlib.Core.Option
use f1r3fly_rgb_lightning_no.Common.{
  ℕ, Bool, true, false, not, Option, none, some, List, [], ◌∷◌, ◌++◌, Bytes, str, ltb, leb, is_some,
  if◌then◌else◌,
}
use f1r3fly_rgb_lightning_no.Decimal.{show_nat}
use f1r3fly_rgb_lightning_no.Error.{ApiError}
use f1r3fly_rgb_lightning_no.Hex.{hex_str_to_vec}
use f1r3fly_rgb_lightning_no.Swap
use f1r3fly_rgb_lightning_no.Swap.{
  SwapInfo, SwapStatus, SwapString, Parsed, create_from_swap_info, from_str, to_array32,
}
use f1r3fly_rgb_lightning_no.Node.{
  Action, pure, fail, unwrap, or_fail, fail_if, call, LibraryCall, ◌>>=◌, ◌>>◌,
  get_current_timestamp,
}
use f1r3fly_rgb_lightning_no.Node.Swaps.{update_maker_swap_status, add_taker_swap}
use f1r3fly_rgb_lightning_no.Routes.Library.{Library, RouteHop, Route}
use f1r3fly_rgb_lightning_no.Routes.Amounts.{max_swap_fee_msat}
use f1r3fly_rgb_lightning_no.Routes.Maker.{check_balance}
use f1r3fly_rgb_lightning_no.Routes.Maker.Path.{
  first_path, set_swap_flag, clear_last_fee, full_path, total_fee, receive_hints, first_leg,
  second_leg,
}

pub record MakerExecuteRequest : Type 0 where
  pub swapstring : Bytes
  pub payment_secret : Bytes
  pub taker_pubkey : Bytes

-- `SwapString::from_str(…).map_err(…)?`
unfoldable pub parsed_offer : Bytes → Parsed → Action SwapString
parsed_offer text (Parsed.ok s) = pure s
parsed_offer text (Parsed.err e) = fail (ApiError.invalid_swap_string text e)

-- An offer past its expiry is marked, and refused.
unfoldable pub expire_offer : Bytes → Bool → Action (Unit {0})
expire_offer hash true = do
  update_maker_swap_status hash SwapStatus.expired
  fail ApiError.expired_swap_offer
expire_offer hash false = pure tt

-- `match (first_leg, second_leg)`
unfoldable pub both_legs : Option Route → Option Route → Action (Route × Route)
both_legs (some f) (some s) = pure (f, s)
both_legs _ _ = fail ApiError.no_route

-- The hops of the swap payment from its two routes.
unfoldable pub swap_path : ℕ → SwapInfo → Route → Route → Action (List RouteHop)
swap_path flag info first second = do
  second_hops ← unwrap (first_path second)
  flagged ← unwrap (set_swap_flag flag second_hops)
  first_hops ← unwrap (first_path first)
  cleared ← unwrap (clear_last_fee first_hops)
  pure (full_path info cleared flagged)

-- The RGB payment file of a swap by which the maker sends an asset.
unfoldable pub note_rgb_payment : Bytes → Option Bytes → ℕ → Action (Unit {0})
note_rgb_payment hash none qty = pure tt
note_rgb_payment hash (some asset) qty =
    call (LibraryCall.write_rgb_payment_info_file hash asset qty true false)

-- The `match err` on what the library made of the payment.
unfoldable pub settle_send : Bytes → Option Bytes → Action (Unit {0})
settle_send hash none = pure tt
settle_send hash (some e) = do
  update_maker_swap_status hash SwapStatus.failed
  fail (ApiError.failed_payment e)

module _ (lib : Library) where
  -- From the payment path on: the fee check, the status `Pending`, and the payment.
  unfoldable pub send_swap : SwapString → Bytes → List RouteHop → Action (Unit {0})
  unfolding note_rgb_payment settle_send
  send_swap swap preimage hops = do
    fail_if (leb max_swap_fee_msat (total_fee hops))
        (ApiError.failed_payment (str "Fee too high: " ++ show_nat (total_fee hops)))
    note_rgb_payment swap.payment_hash swap.swap_info.to_asset swap.swap_info.qty_to
    update_maker_swap_status swap.payment_hash SwapStatus.pending
    call (LibraryCall.send_spontaneous_payment swap.payment_hash)
    settle_send swap.payment_hash (lib.send_spontaneous_payment hops preimage swap.payment_hash)

  -- From the preimage on, for an offer that has not expired.
  unfoldable pub execute_offer : SwapString → Bytes → Bytes → Action (Unit {0})
  unfolding both_legs swap_path send_swap
  execute_offer swap secret taker_pk = do
    preimage ←
        or_fail (lib.get_payment_preimage swap.payment_hash secret)
          ApiError.missing_swap_payment_preimage
    hints ← unwrap (receive_hints lib swap.swap_info lib.list_usable_channels)
    legs ←
        both_legs (first_leg lib swap.swap_info taker_pk)
          (second_leg lib swap.swap_info taker_pk hints)
    hops ← swap_path lib.is_swap_scid swap.swap_info legs.0 legs.1
    send_swap swap preimage hops

  unfoldable pub maker_execute : MakerExecuteRequest → Action (Unit {0})
  unfolding parsed_offer expire_offer execute_offer get_current_timestamp
  maker_execute payload = do
    swap ← parsed_offer payload.swapstring (from_str lib.codec payload.swapstring)
    secret ←
        or_fail (Option.bind (hex_str_to_vec payload.payment_secret) to_array32)
          ApiError.invalid_payment_secret
    taker_pk ← or_fail (lib.pubkey_from_str payload.taker_pubkey) ApiError.invalid_pubkey
    now ← get_current_timestamp
    expire_offer swap.payment_hash (ltb swap.swap_info.expiry now)
    execute_offer swap secret taker_pk

  -- `taker`, from the swap string of the request.
  unfoldable pub taker : Bytes → Action (Unit {0})
  unfolding parsed_offer get_current_timestamp
  taker swapstring = do
    swap ← parsed_offer swapstring (from_str lib.codec swapstring)
    now ← get_current_timestamp
    fail_if (ltb swap.swap_info.expiry now) ApiError.expired_swap_offer
    check_balance lib swap.swap_info.from_asset swap.swap_info.qty_from
    requested ← get_current_timestamp
    add_taker_swap swap.payment_hash (create_from_swap_info requested swap.swap_info)
