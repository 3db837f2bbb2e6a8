-- ===== src/Node/Events.antt =====
-- The events of the Lightning library that change the node's maps (`handle_ldk_events` and
-- `_update_rgb_channel_amount` of src/ldk.rs): payments, and channels that are pending or discarded,
-- and intercepted payments by Node.Intercepted.
pub mod Keeps
pub mod Settled
use f1r3fly_rgb_lightning_no.Common.{
  ℕ, zero, suc, ◌-◌, Bool, true, false, ◌&&◌, ◌||◌, not, Option, none, some, is_some, List, [], ◌∷◌,
  Bytes, bytes_eq, length, ◌==◌, if◌then◌else◌,
}
use f1r3fly_rgb_lightning_no.Lines.{starts_with}
use f1r3fly_rgb_lightning_no.Hex.{hex_str}
use f1r3fly_rgb_lightning_no.Swap.{SwapStatus}
use f1r3fly_rgb_lightning_no.Node.State.{UnlockedAppState, HtlcStatus, LibraryCall}
use f1r3fly_rgb_lightning_no.Node.Monad.{
  Action, pure, panic, gets, unwrap, modify, call, ◌>>=◌, ◌>>◌,
}
use f1r3fly_rgb_lightning_no.Node.Swaps.{
  is_maker_swap, is_taker_swap, update_maker_swap_status, update_taker_swap_status,
}
use f1r3fly_rgb_lightning_no.Node.Payments.{
  upsert_inbound_payment, update_outbound_payment, update_outbound_payment_status,
}
use f1r3fly_rgb_lightning_no.Node.Funding.{Handled, Funding, unlock_rgb_send, fund_channel}
use f1r3fly_rgb_lightning_no.Node.Intercepted.{Intercepted, Crossing, handle_intercepted}
use f1r3fly_rgb_lightning_no.Node.Channels.{add_channel_id, delete_channel_id}

-- `PaymentPurpose`
pub data PaymentPurpose : Type 0 where
  bolt11_invoice_payment : Option Bytes → Bytes → PaymentPurpose
  bolt12_offer_payment : Option Bytes → Bytes → PaymentPurpose
  bolt12_refund_payment : Option Bytes → Bytes → PaymentPurpose
  spontaneous_payment : Bytes → PaymentPurpose

unfoldable pub purpose_preimage : PaymentPurpose → Option Bytes
purpose_preimage (PaymentPurpose.bolt11_invoice_payment preimage _) = preimage
purpose_preimage (PaymentPurpose.bolt12_offer_payment preimage _) = preimage
purpose_preimage (PaymentPurpose.bolt12_refund_payment preimage _) = preimage
purpose_preimage (PaymentPurpose.spontaneous_payment preimage) = some preimage

unfoldable pub purpose_secret : PaymentPurpose → Option Bytes
purpose_secret (PaymentPurpose.bolt11_invoice_payment _ secret) = some secret
purpose_secret (PaymentPurpose.bolt12_offer_payment _ secret) = some secret
purpose_secret (PaymentPurpose.bolt12_refund_payment _ secret) = some secret
purpose_secret (PaymentPurpose.spontaneous_payment _) = none

-- An RGB payment file of the data directory: its name, its name without extension, its contents.
pub record PaymentFile : Type 0 where
  pub file_name : Bytes
  pub stem : Bytes
  pub amount : ℕ
  pub swap_payment : Bool
  pub inbound : Bool

-- `str::contains` of a text
unfoldable pub contains_text : Bytes → Bytes → Bool
unfolding starts_with
contains_text p [] = starts_with p []
contains_text p (c ∷ cs) = starts_with p (c ∷ cs) || contains_text p cs

-- `s.replace(p, "")` for a text that is not empty; the number counts what is left of an occurrence.
unfoldable pub erase_text : Bytes → ℕ → Bytes → Bytes
unfolding starts_with
erase_text p n [] = []
erase_text p (suc n) (c ∷ cs) = erase_text p n cs
erase_text p zero (c ∷ cs) =
    let after_match = erase_text p (length p - 1) cs in
    let after_byte = erase_text p 0 cs in
    if starts_with p (c ∷ cs) then after_match else c ∷ after_byte

-- The first file of a payment's channel whose amount is to be moved.
unfoldable pub is_other_file : Bytes → Bool → PaymentFile → Bool
unfolding contains_text
is_other_file hash_str receiver f =
    not (contains_text hash_str f.file_name && not (bytes_eq f.stem hash_str))
    || (f.swap_payment && ((receiver && not f.inbound) || (not receiver && f.inbound)))

-- The move of a file's amount, unless the file is skipped.
unfoldable pub move_one : Bool → Bytes → Bool → PaymentFile → Action (Unit {0}) → Action (Unit {0})
unfolding erase_text
move_one true hash_str receiver f others = others
move_one false hash_str receiver f others = call (
    LibraryCall.update_rgb_channel_amount (erase_text hash_str 0 f.stem)
      (if receiver then 0 else f.amount) (if receiver then f.amount else 0))

unfoldable pub move_amount : Bytes → Bool → List PaymentFile → Action (Unit {0})
unfolding is_other_file move_one
move_amount hash_str receiver [] = pure tt
move_amount hash_str receiver (f ∷ fs) =
    move_one (is_other_file hash_str receiver f) hash_str receiver f
      (move_amount hash_str receiver fs)

-- The events, with the fields that are read. Of `ChannelPending`: whether the funding transaction is
-- this node's and could be completed, and whether the acceptor's asset could be saved.
pub data Event : Type 0 where
  payment_claimable : PaymentPurpose → Event
  -- hash, purpose, amount, receiver
  payment_claimed : Bytes → PaymentPurpose → ℕ → Option Bytes → Event
  -- preimage, hash, payment id
  payment_sent : Bytes → Bytes → Option Bytes → Event
  payment_failed : Option Bytes → Bytes → Event
  -- previous and next channel, RGB amounts forwarded out and in, hash
  payment_forwarded : Option Bytes → Option Bytes → Option ℕ → Option ℕ → Bytes → Event
  -- former temporary id, channel id
  channel_pending : Option Bytes → Bytes → Option Bool → Bool → Event
  discard_funding : Bytes → Event
  htlc_intercepted : Intercepted → Event
  funding_generation_ready : Funding → Event

-- `Succeeded` or `Failed` for the maker swap of a payment, or else what a payment has.
unfoldable pub settle_maker : Bool → Bytes → SwapStatus → Action (Unit {0}) → Action (Unit {0})
settle_maker true hash status other = update_maker_swap_status hash status
settle_maker false hash status other = other

unfoldable pub claim_payment : Bytes → PaymentPurpose → ℕ → Option Bytes → Action (Unit {0})
unfolding purpose_preimage purpose_secret
claim_payment hash purpose amount_msat receiver = do
  node ← unwrap receiver
  upsert_inbound_payment hash HtlcStatus.succeeded (purpose_preimage purpose)
      (purpose_secret purpose) (some amount_msat) node

unfoldable pub complete_payment : Option Bytes → Bytes → Action (Unit {0})
complete_payment payment_id preimage = do
  id ← unwrap payment_id
  _ ← update_outbound_payment id HtlcStatus.succeeded (some preimage)
  pure tt

-- The amounts of a forwarded payment on its two channels.
unfoldable pub forward_amount : Option ℕ → (ℕ → LibraryCall) → Action (Unit {0})
forward_amount none to_call = pure tt
forward_amount (some amount) to_call = call (to_call amount)

unfoldable pub settle_taker : Bool → Bytes → Action (Unit {0})
settle_taker true hash = update_taker_swap_status hash SwapStatus.succeeded
settle_taker false hash = pure tt

-- `ChannelPending` after the channel id is stored.
unfoldable pub finish_funding : Option Bool → Bool → Action Handled
unfolding unlock_rgb_send
finish_funding (some true) saved = do unlock_rgb_send; pure Handled.done
finish_funding (some false) saved = pure Handled.replay
finish_funding none true = pure Handled.done
finish_funding none false = panic

module _ (lib : Crossing) (files : List PaymentFile) where
  unfoldable pub handle_ldk_events : Event → Action Handled
  unfolding move_amount settle_maker claim_payment complete_payment forward_amount settle_taker
      finish_funding is_maker_swap is_taker_swap unlock_rgb_send purpose_preimage
  handle_ldk_events (Event.payment_claimable purpose) = do
    preimage ← unwrap (purpose_preimage purpose)
    call (LibraryCall.claim_funds preimage)
    pure Handled.done
  handle_ldk_events (Event.payment_claimed hash purpose amount_msat receiver) = do
    move_amount (hex_str hash) true files
    maker ← gets (is_maker_swap hash)
    settle_maker maker hash SwapStatus.succeeded (claim_payment hash purpose amount_msat receiver)
    pure Handled.done
  handle_ldk_events (Event.payment_sent preimage hash payment_id) = do
    move_amount (hex_str hash) false files
    maker ← gets (is_maker_swap hash)
    settle_maker maker hash SwapStatus.succeeded (complete_payment payment_id preimage)
    pure Handled.done
  handle_ldk_events (Event.payment_failed (some hash) payment_id) = do
    maker ← gets (is_maker_swap hash)
    settle_maker maker hash SwapStatus.failed
        (update_outbound_payment_status payment_id HtlcStatus.failed)
    pure Handled.done
  handle_ldk_events (Event.payment_failed none payment_id) = do
    update_outbound_payment_status payment_id HtlcStatus.failed
    pure Handled.done
  handle_ldk_events (Event.payment_forwarded prev next outbound_rgb inbound_rgb hash) = do
    prev_id ← unwrap prev
    next_id ← unwrap next
    forward_amount outbound_rgb (λ amount. LibraryCall.update_rgb_channel_amount next_id amount 0)
    forward_amount inbound_rgb (λ amount. LibraryCall.update_rgb_channel_amount prev_id 0 amount)
    taker ← gets (is_taker_swap hash)
    settle_taker taker hash
    pure Handled.done
  handle_ldk_events (Event.channel_pending former channel psbt saved) = do
    temporary ← unwrap former
    add_channel_id temporary channel
    finish_funding psbt saved
  handle_ldk_events (Event.discard_funding channel) = do
    unlock_rgb_send
    delete_channel_id channel
    pure Handled.done
  handle_ldk_events (Event.htlc_intercepted e) = do handle_intercepted lib e; pure Handled.done
  handle_ldk_events (Event.funding_generation_ready f) = fund_channel f
