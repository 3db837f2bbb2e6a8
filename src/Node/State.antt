-- ===== src/Node/State.antt =====
-- The unlocked node's state (`UnlockedAppState` of src/utils.rs, its maps from src/ldk.rs): the maps
-- behind their mutexes, the copies that the file store holds, and the library calls made so far.
use f1r3fly_rgb_lightning_no.Common.{ℕ, Bool, Option, List, Bytes, Map}
use f1r3fly_rgb_lightning_no.Swap.{SwapData}

-- `HTLCStatus` (src/routes.rs)
pub data HtlcStatus : Type 0 where
  pending succeeded failed : HtlcStatus

-- The id of a payee and a payment's secrets are their bytes.
pub record PaymentInfo : Type 0 where
  pub preimage : Option Bytes
  pub secret : Option Bytes
  pub status : HtlcStatus
  pub amt_msat : Option ℕ
  pub created_at : ℕ
  pub updated_at : ℕ
  pub payee_pubkey : Bytes

-- What the file store holds under the five names that the state's maps are saved to.
pub record FsStore : Type 0 where
  pub maker_swaps : Map SwapData
  pub taker_swaps : Map SwapData
  pub inbound_payments : Map PaymentInfo
  pub outbound_payments : Map PaymentInfo
  pub channel_ids : Map Bytes

-- The calls of the Lightning library that change something outside of this state.
pub data LibraryCall : Type 0 where
  -- hash, contract, amount, swap, inbound
  write_rgb_payment_info_file : Bytes → Bytes → ℕ → Bool → Bool → LibraryCall
  send_payment : Bytes → LibraryCall
  send_spontaneous_payment : Bytes → LibraryCall
  send_spontaneous_payment_with_retry : Bytes → LibraryCall
  pay_for_offer : Bytes → LibraryCall
  -- channel, offered, received
  update_rgb_channel_amount : Bytes → ℕ → ℕ → LibraryCall
  claim_funds : Bytes → LibraryCall
  fail_intercepted_htlc : Bytes → LibraryCall
  -- intercept id, short channel id, next node, amount, RGB payment
  forward_intercepted_htlc : Bytes → ℕ → Bytes → ℕ → Option (Bytes × ℕ) → LibraryCall
  create_channel : Bytes → LibraryCall
  -- contract, amount
  rgb_send_begin : Bytes → ℕ → LibraryCall
  rgb_send_btc_begin : ℕ → LibraryCall
  -- the id of the funding transaction
  write_psbt : Bytes → LibraryCall
  rgb_upsert_witness : Bytes → LibraryCall
  write_temp_rgb_info : Bytes → LibraryCall
  rgb_post_consignment : Bytes → LibraryCall
  -- temporary channel id, peer
  funding_transaction_generated : Bytes → Bytes → LibraryCall
  -- temporary channel id, contract, local amount, pending
  write_rgb_channel_info : Bytes → Bytes → ℕ → Bool → LibraryCall
  close_channel : Bytes → Bytes → LibraryCall
  force_close_channel : Bytes → Bytes → LibraryCall

pub record UnlockedAppState : Type 0 where
  pub maker_swaps : Map SwapData
  pub taker_swaps : Map SwapData
  pub inbound_payments : Map PaymentInfo
  pub outbound_payments : Map PaymentInfo
  pub channel_ids_map : Map Bytes
  pub rgb_send_lock : Bool
  pub fs_store : FsStore
  -- A write to the store fails, which its callers unwrap.
  pub write_fails : Bool
  -- The readings of the clock, and how many have been taken.
  pub clock : ℕ → ℕ
  pub ticks : ℕ
  -- The latest call first.
  pub calls : List LibraryCall
