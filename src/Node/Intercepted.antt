-- ===== src/Node/Intercepted.antt =====
-- The event `HTLCIntercepted` of `handle_ldk_events` (src/ldk.rs): the taker of a swap forwards the
-- payment that crosses it, if it is the swap that was agreed.
pub mod Terms
pub mod Outcomes
pub mod Faults
use mathlib.Core.Option
use f1r3fly_rgb_lightning_no.Common.{
  ℕ, ◌-◌, Bool, true, false, not, ◌||◌, Option, none, some, List, [], ◌∷◌, Bytes, lookup, ltb, ◌==◌,
  option_bytes_eq, if◌then◌else◌,
}
use f1r3fly_rgb_lightning_no.Swap.{SwapInfo, SwapData, SwapStatus, is_from_btc, is_to_btc}
use f1r3fly_rgb_lightning_no.Node.State.{UnlockedAppState, LibraryCall}
use f1r3fly_rgb_lightning_no.Node.Monad.{Action, pure, panic, gets, unwrap, call, ◌>>=◌, ◌>>◌}
use f1r3fly_rgb_lightning_no.Node.Swaps.{update_taker_swap_status}

-- The fields of the event.
pub record Intercepted : Type 0 where
  pub is_swap : Bool
  pub payment_hash : Bytes
  pub intercept_id : Bytes
  pub inbound_amount_msat : ℕ
  pub expected_outbound_amount_msat : ℕ
  pub inbound_rgb_amount : Option ℕ
  pub expected_outbound_rgb_payment : Option (Bytes × ℕ)
  pub requested_next_hop_scid : ℕ
  pub prev_short_channel_id : ℕ

-- `ChannelDetails`, as far as the event reads it.
pub record CrossedChannel : Type 0 where
  pub channel_id : Bytes
  pub short_channel_id : Option ℕ
  pub counterparty_node_id : Bytes

-- What the event takes from the library: the channels, the contract of a channel's pending RGB
-- information, and whether a call is accepted after the calls that were made.
pub record Crossing : Type 0 where
  pub list_channels : List CrossedChannel
  pub rgb_contract : Bytes → Option Bytes
  pub accepts : List LibraryCall → LibraryCall → Bool

-- `==` on `Option<u64>`
unfoldable pub option_nat_eq : Option ℕ → Option ℕ → Bool
option_nat_eq none none = true
option_nat_eq none (some _) = false
option_nat_eq (some _) none = false
option_nat_eq (some a) (some b) = a == b

-- `u64::checked_sub`
unfoldable pub checked_sub : ℕ → ℕ → Option ℕ
checked_sub a b = if ltb a b then none else some (a - b)

-- The `find` by a short channel id.
unfoldable pub find_channel : ℕ → List CrossedChannel → Option CrossedChannel
unfolding option_nat_eq
find_channel scid [] = none
find_channel scid (c ∷ cs) =
    if option_nat_eq c.short_channel_id (some scid) then some c else find_channel scid cs

abbrev pub rgb_amount : Option (Bytes × ℕ) → Option ℕ
rgb_amount = Option.map (λ (p : Bytes × ℕ). p.1)

-- `fail`, from the contracts of the inbound and the outbound channel. `saturating_sub` is `-`.
unfoldable pub swap_fails : SwapInfo → Option Bytes → Option Bytes → Intercepted → Bool
unfolding option_nat_eq checked_sub is_from_btc is_to_btc
swap_fails info inbound outbound e =
    if is_from_btc info
    then not (option_nat_eq e.inbound_rgb_amount (some info.qty_to))
      || (not (option_bytes_eq inbound info.to_asset)
          || not (
              option_nat_eq (checked_sub e.expected_outbound_amount_msat e.inbound_amount_msat)
                (some info.qty_from)))
    else if is_to_btc info
    then not (option_nat_eq (rgb_amount e.expected_outbound_rgb_payment) (some info.qty_from))
      || (not (option_bytes_eq outbound info.from_asset)
          || not (e.inbound_amount_msat - e.expected_outbound_amount_msat == info.qty_to))
    else not
        (option_nat_eq (checked_sub e.inbound_amount_msat e.expected_outbound_amount_msat) (some 0))
      || (not (option_nat_eq (rgb_amount e.expected_outbound_rgb_payment) (some info.qty_from))
          || (not (option_bytes_eq outbound info.from_asset)
              || (not (option_nat_eq e.inbound_rgb_amount (some info.qty_to))
                  || not (option_bytes_eq inbound info.to_asset))))

-- The call with its answer unwrapped.
unfoldable pub perform : Bool → LibraryCall → Action (Unit {0})
perform true c = call c
perform false c = panic

module _ (lib : Crossing) where
  unfoldable pub fail_intercepted_htlc : Bytes → Action (Unit {0})
  unfolding perform
  fail_intercepted_htlc id = do
    accepted ← gets (λ s. lib.accepts s.calls (LibraryCall.fail_intercepted_htlc id))
    perform accepted (LibraryCall.fail_intercepted_htlc id)

  abbrev pub forward_call : Intercepted → CrossedChannel → LibraryCall
  forward_call e next =
      LibraryCall.forward_intercepted_htlc e.intercept_id e.requested_next_hop_scid
        next.counterparty_node_id e.expected_outbound_amount_msat e.expected_outbound_rgb_payment

  unfoldable pub forward_intercepted_htlc : Intercepted → CrossedChannel → Action (Unit {0})
  unfolding perform
  forward_intercepted_htlc e next = do
    accepted ← gets (λ s. lib.accepts s.calls (forward_call e next))
    perform accepted (forward_call e next)

  -- `if !is_swap`
  unfoldable pub reject_other : Bool → Bytes → Action (Unit {0})
  unfolding fail_intercepted_htlc
  reject_other true id = pure tt
  reject_other false id = fail_intercepted_htlc id

  -- `if fail`, and what follows it.
  unfoldable pub settle_intercepted : Bool → Intercepted → CrossedChannel → Action (Unit {0})
  unfolding fail_intercepted_htlc forward_intercepted_htlc
  settle_intercepted true e next = do
    update_taker_swap_status e.payment_hash SwapStatus.failed
    fail_intercepted_htlc e.intercept_id
  settle_intercepted false e next = do
    update_taker_swap_status e.payment_hash SwapStatus.pending
    forward_intercepted_htlc e next

  -- The `match` on the whitelisted swap.
  unfoldable pub match_intercepted :
      Option SwapData → Intercepted → CrossedChannel → CrossedChannel → Action (Unit {0})
  unfolding fail_intercepted_htlc settle_intercepted swap_fails
  match_intercepted none e prev next = fail_intercepted_htlc e.intercept_id
  match_intercepted (some d) e prev next =
      settle_intercepted
        (swap_fails d.swap_info (lib.rgb_contract prev.channel_id)
          (lib.rgb_contract next.channel_id) e)
        e next

  -- From the look for the two channels on.
  unfoldable pub cross_intercepted : Intercepted → Action (Unit {0})
  unfolding find_channel match_intercepted
  cross_intercepted e = do
    prev ← unwrap (find_channel e.prev_short_channel_id lib.list_channels)
    next ← unwrap (find_channel e.requested_next_hop_scid lib.list_channels)
    whitelisted ← gets (λ s. lookup e.payment_hash s.taker_swaps)
    match_intercepted whitelisted e prev next

  unfoldable pub handle_intercepted : Intercepted → Action (Unit {0})
  unfolding reject_other cross_intercepted
  handle_intercepted e = do reject_other e.is_swap e.intercept_id; cross_intercepted e
