-- ===== src/Tests/Funding.antt =====
-- The funding of a concrete colored channel that the Lightning library refuses.
use f1r3fly_rgb_lightning_no.Common.{true, false, some, [], ◌∷◌}
use f1r3fly_rgb_lightning_no.Node.Funding.{AssetSchema, Funding, fund_channel}
use f1r3fly_rgb_lightning_no.Node.Funding.Order.{InOrder, fund_channel-InOrder}
use f1r3fly_rgb_lightning_no.Tests.Data.{hash, asset, empty_state}

abbrev funding : Funding
funding = record {
  temporary_channel_id = hash;
  counterparty_node_id = asset;
  channel_value_satoshis = 40000;
  is_segwit = true;
  rgb_channel_info = some (asset, 60);
  schema = AssetSchema.nia;
  begins = true;
  funding_txid = some (7 ∷ []);
  psbt_is_written = true;
  witness_is_upserted = true;
  info_is_written = true;
  endpoint_parses = true;
  consignment_is_posted = true;
  is_registered = false;
}

fund_channel-InOrder_example :
    InOrder funding
      (record empty_state { rgb_send_lock = true })
      (fund_channel funding (record empty_state { rgb_send_lock = true }))
fund_channel-InOrder_example =
    fund_channel-InOrder funding (record empty_state { rgb_send_lock = true })
