-- ===== src/Error/RgbLib.antt =====
-- `impl From<RgbLibError> for APIError` (src/error.rs).
use f1r3fly_rgb_lightning_no.Common.{ℕ, ◌+◌, ◌-◌, ◌%◌, ◌^◌, Bytes, str, ◌++◌}
use f1r3fly_rgb_lightning_no.Error.Types.{ApiError}

-- The variants of the library's error that the conversion names, with the fields that it binds;
-- `other` is any other variant, with its debug print.
pub data RgbLibError : Type 0 where
  allocations_already_available : RgbLibError
  asset_not_found : RgbLibError
  batch_transfer_not_found : RgbLibError
  cannot_estimate_fees : RgbLibError
  cannot_fail_batch_transfer : RgbLibError
  empty_file : RgbLibError
  failed_bdk_sync : Bytes → RgbLibError
  failed_broadcast : Bytes → RgbLibError
  failed_issuance : Bytes → RgbLibError
  io : Bytes → RgbLibError
  inconsistency : Bytes → RgbLibError
  indexer : Bytes → RgbLibError
  insufficient_allocation_slots : RgbLibError
  insufficient_assignments : RgbLibError
  insufficient_bitcoins : ℕ → ℕ → RgbLibError
  invalid_address : Bytes → RgbLibError
  invalid_amount_zero : RgbLibError
  invalid_asset_id : Bytes → RgbLibError
  invalid_assignment : RgbLibError
  invalid_attachments : Bytes → RgbLibError
  invalid_details : Bytes → RgbLibError
  invalid_electrum : Bytes → RgbLibError
  invalid_estimation_blocks : RgbLibError
  invalid_fee_rate : Bytes → RgbLibError
  invalid_file_path : RgbLibError
  invalid_indexer : Bytes → RgbLibError
  invalid_invoice : Bytes → RgbLibError
  invalid_name : Bytes → RgbLibError
  invalid_precision : Bytes → RgbLibError
  invalid_proxy_protocol : Bytes → RgbLibError
  invalid_recipient_data : Bytes → RgbLibError
  invalid_recipient_id : RgbLibError
  invalid_recipient_network : RgbLibError
  invalid_ticker : Bytes → RgbLibError
  invalid_transport_endpoint : Bytes → RgbLibError
  invalid_transport_endpoints : Bytes → RgbLibError
  max_fee_exceeded : Bytes → RgbLibError
  min_fee_not_met : Bytes → RgbLibError
  network : Bytes → RgbLibError
  no_issuance_amounts : RgbLibError
  no_valid_transport_endpoint : RgbLibError
  output_below_dust_limit : RgbLibError
  proxy : Bytes → RgbLibError
  recipient_id_already_used : RgbLibError
  too_high_issuance_amounts : RgbLibError
  unsupported_layer1 : Bytes → RgbLibError
  unsupported_transport_type : RgbLibError
  other : Bytes → RgbLibError

-- `needed - available` on `u64`, which wraps in a release build.
unfoldable pub wrapping_sub : ℕ → ℕ → ℕ
wrapping_sub a b = (a + 2 ^ 64 - b) % 2 ^ 64

unfoldable pub from_rgb_lib : RgbLibError → ApiError
from_rgb_lib RgbLibError.allocations_already_available = ApiError.allocations_already_available
from_rgb_lib RgbLibError.asset_not_found = ApiError.unknown_contract_id
from_rgb_lib RgbLibError.batch_transfer_not_found = ApiError.batch_transfer_not_found
from_rgb_lib RgbLibError.cannot_estimate_fees = ApiError.cannot_estimate_fees
from_rgb_lib RgbLibError.cannot_fail_batch_transfer = ApiError.cannot_fail_batch_transfer
from_rgb_lib RgbLibError.empty_file = ApiError.media_file_empty
from_rgb_lib (RgbLibError.failed_bdk_sync details) = ApiError.failed_bdk_sync details
from_rgb_lib (RgbLibError.failed_broadcast details) = ApiError.failed_broadcast details
from_rgb_lib (RgbLibError.failed_issuance details) = ApiError.failed_issuing_asset details
from_rgb_lib (RgbLibError.io details) = ApiError.io (str "rgb-lib err: " ++ details)
from_rgb_lib (RgbLibError.inconsistency details) =
    ApiError.unexpected (str "rgb-lib inconsistency detected: " ++ details)
from_rgb_lib (RgbLibError.indexer details) = ApiError.network (str "indexer err: " ++ details)
from_rgb_lib RgbLibError.insufficient_allocation_slots = ApiError.no_available_utxos
from_rgb_lib RgbLibError.insufficient_assignments = ApiError.insufficient_assets
from_rgb_lib (RgbLibError.insufficient_bitcoins needed available) =
    ApiError.insufficient_funds (wrapping_sub needed available)
from_rgb_lib (RgbLibError.invalid_address details) = ApiError.invalid_address details
from_rgb_lib RgbLibError.invalid_amount_zero = ApiError.invalid_amount (str "0")
from_rgb_lib (RgbLibError.invalid_asset_id asset_id) = ApiError.invalid_asset_id asset_id
from_rgb_lib RgbLibError.invalid_assignment = ApiError.invalid_assignment
from_rgb_lib (RgbLibError.invalid_attachments details) = ApiError.invalid_attachments details
from_rgb_lib (RgbLibError.invalid_details details) = ApiError.invalid_details details
from_rgb_lib (RgbLibError.invalid_electrum details) = ApiError.invalid_indexer details
from_rgb_lib RgbLibError.invalid_estimation_blocks = ApiError.invalid_estimation_blocks
from_rgb_lib (RgbLibError.invalid_fee_rate details) = ApiError.invalid_fee_rate details
from_rgb_lib RgbLibError.invalid_file_path = ApiError.media_file_not_provided
from_rgb_lib (RgbLibError.invalid_indexer details) = ApiError.invalid_indexer details
from_rgb_lib (RgbLibError.invalid_invoice details) = ApiError.invalid_invoice details
from_rgb_lib (RgbLibError.invalid_name details) = ApiError.invalid_name details
from_rgb_lib (RgbLibError.invalid_precision details) = ApiError.invalid_precision details
from_rgb_lib (RgbLibError.invalid_proxy_protocol version) = ApiError.invalid_proxy_protocol version
from_rgb_lib (RgbLibError.invalid_recipient_data details) = ApiError.invalid_recipient_data details
from_rgb_lib RgbLibError.invalid_recipient_id = ApiError.invalid_recipient_id
from_rgb_lib RgbLibError.invalid_recipient_network = ApiError.invalid_recipient_network
from_rgb_lib (RgbLibError.invalid_ticker details) = ApiError.invalid_ticker details
from_rgb_lib (RgbLibError.invalid_transport_endpoint details) =
    ApiError.invalid_transport_endpoint details
from_rgb_lib (RgbLibError.invalid_transport_endpoints details) =
    ApiError.invalid_transport_endpoints details
from_rgb_lib (RgbLibError.max_fee_exceeded txid) = ApiError.max_fee_exceeded txid
from_rgb_lib (RgbLibError.min_fee_not_met txid) = ApiError.min_fee_not_met txid
from_rgb_lib (RgbLibError.network details) = ApiError.network details
from_rgb_lib RgbLibError.no_issuance_amounts =
    ApiError.invalid_amount (str "issuance request with no provided amounts")
from_rgb_lib RgbLibError.no_valid_transport_endpoint = ApiError.no_valid_transport_endpoint
from_rgb_lib RgbLibError.output_below_dust_limit = ApiError.output_below_dust_limit
from_rgb_lib (RgbLibError.proxy details) = ApiError.network (str "proxy err: " ++ details)
from_rgb_lib RgbLibError.recipient_id_already_used = ApiError.recipient_id_already_used
from_rgb_lib RgbLibError.too_high_issuance_amounts =
    ApiError.invalid_amount (str "trying to issue too many assets")
from_rgb_lib (RgbLibError.unsupported_layer1 layer_1) = ApiError.unsupported_layer1 layer_1
from_rgb_lib RgbLibError.unsupported_transport_type = ApiError.unsupported_transport_type
from_rgb_lib (RgbLibError.other error) =
    ApiError.unexpected (str "Unmapped rgb-lib error: " ++ error)
