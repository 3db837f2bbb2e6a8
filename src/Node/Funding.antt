-- ===== src/Node/Funding.antt =====
-- The funding of a channel: the event `FundingGenerationReady` in `handle_ldk_events` (src/ldk.rs).
pub mod Keeps
pub mod Order
use f1r3fly_rgb_lightning_no.Common.{ℕ, Bool, true, false, Option, none, some, Bytes}
use f1r3fly_rgb_lightning_no.Node.State.{UnlockedAppState, LibraryCall}
use f1r3fly_rgb_lightning_no.Node.Monad.{Action, pure, panic, unwrap, modify, call, ◌>>=◌, ◌>>◌}

pub data AssetSchema : Type 0 where
  nia cfa uda ifa : AssetSchema

-- What the handler answers: the event is done, or is to be replayed.
pub data Handled : Type 0 where
  done replay : Handled

-- The assignment of an asset, which is not written for the last of the schemas.
unfoldable pub check_schema : AssetSchema → Action (Unit {0})
check_schema AssetSchema.nia = pure tt
check_schema AssetSchema.cfa = pure tt
check_schema AssetSchema.uda = pure tt
check_schema AssetSchema.ifa = panic

unfoldable pub unlock_rgb_send : Action (Unit {0})
unlock_rgb_send = modify (λ s. record s { rgb_send_lock = false })

-- The fields that are read of the event, and what the libraries and the file system answer.
pub record Funding : Type 0 where
  pub temporary_channel_id : Bytes
  pub counterparty_node_id : Bytes
  pub channel_value_satoshis : ℕ
  pub is_segwit : Bool
  -- the asset's contract and amount in the pending RGB data of the channel
  pub rgb_channel_info : Option (Bytes × ℕ)
  pub schema : AssetSchema
  -- `rgb_send_begin` or `rgb_send_btc_begin` returns
  pub begins : Bool
  -- the id of the signed funding transaction
  pub funding_txid : Option Bytes
  pub psbt_is_written : Bool
  pub witness_is_upserted : Bool
  pub info_is_written : Bool
  pub endpoint_parses : Bool
  pub consignment_is_posted : Bool
  -- `funding_transaction_generated` returns
  pub is_registered : Bool

-- `r.unwrap()`
abbrev pub expect_ok : Bool → Action (Unit {0})
expect_ok true = pure tt
expect_ok false = panic

-- The unsigned transaction, for the asset or for the channel's value alone.
unfoldable pub begin_funding : Funding → Option (Bytes × ℕ) → Action (Unit {0})
unfolding check_schema
begin_funding f none = do
  call (LibraryCall.rgb_send_btc_begin f.channel_value_satoshis)
  expect_ok f.begins
begin_funding f (some (contract, amount)) = do
  check_schema f.schema
  call (LibraryCall.rgb_send_begin contract amount)
  expect_ok f.begins

-- The funding transaction is given back to the Lightning library.
unfoldable pub answer_registered : Bool → Action Handled
unfolding unlock_rgb_send
answer_registered true = pure Handled.done
answer_registered false = do unlock_rgb_send; pure Handled.done

unfoldable pub register_funding : Funding → Action Handled
unfolding answer_registered
register_funding f = do
  call (LibraryCall.funding_transaction_generated f.temporary_channel_id f.counterparty_node_id)
  answer_registered f.is_registered

-- The early return for a consignment that could not be posted.
unfoldable pub answer_posted : Bool → Action Handled → Action Handled
answer_posted true others = others
answer_posted false others = pure Handled.replay

-- The witness and the consignment of a colored channel.
unfoldable pub publish_asset :
    Funding → Bytes → Option (Bytes × ℕ) → Action Handled → Action Handled
unfolding answer_posted
publish_asset f txid none others = others
publish_asset f txid (some _) others = do
  call (LibraryCall.rgb_upsert_witness txid)
  expect_ok f.witness_is_upserted
  call (LibraryCall.write_temp_rgb_info txid)
  expect_ok f.info_is_written
  expect_ok f.endpoint_parses
  call (LibraryCall.rgb_post_consignment txid)
  answer_posted f.consignment_is_posted others

-- From the signed transaction on.
unfoldable pub publish_funding : Funding → Option (Bytes × ℕ) → Action Handled
unfolding publish_asset register_funding
publish_funding f info = do
  txid ← unwrap f.funding_txid
  call (LibraryCall.write_psbt txid)
  expect_ok f.psbt_is_written
  publish_asset f txid info (register_funding f)

unfoldable pub fund_channel : Funding → Action Handled
unfolding begin_funding publish_funding
fund_channel f = do
  expect_ok f.is_segwit
  begin_funding f f.rgb_channel_info
  publish_funding f f.rgb_channel_info
