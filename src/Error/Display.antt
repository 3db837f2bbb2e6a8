-- ===== src/Error/Display.antt =====
-- The messages of `APIError` (the `#[error]` attributes of src/error.rs).
use f1r3fly_rgb_lightning_no.Common.{Bytes, str, ◌++◌}
use f1r3fly_rgb_lightning_no.Decimal.{show_nat}
use f1r3fly_rgb_lightning_no.Error.Types.{ApiError, BitcoinNetwork}

module _ (show_network : BitcoinNetwork → Bytes) where
  unfoldable pub to_string : ApiError → Bytes
  to_string ApiError.allocations_already_available = str "Allocations already available"
  to_string ApiError.already_initialized = str "Node has already been initialized"
  to_string ApiError.anchors_required = str "Anchor outputs are required for RGB channels"
  to_string ApiError.already_unlocked = str "Node has already been unlocked"
  to_string ApiError.authentication_disabled = str "Authentication is disabled"
  to_string ApiError.batch_transfer_not_found = str "Batch transfer not found"
  to_string (ApiError.cannot_close_channel _) = str "Cannot close channel"
  to_string ApiError.cannot_estimate_fees = str "Cannot estimate fees"
  to_string ApiError.cannot_fail_batch_transfer =
      str "Batch transfer cannot be set to failed status"
  to_string ApiError.changing_state = str "Cannot call other APIs while node is changing state"
  to_string (ApiError.duplicate_payment a) =
      str "Another payment for this invoice is already in status " ++ a
  to_string ApiError.expired_swap_offer = str "The swap offer has expired"
  to_string (ApiError.failed_bdk_sync a) = str "Failed to sync BDK: " ++ a
  to_string (ApiError.failed_bitcoind_connection a) =
      str "Failed to connect to bitcoind client: " ++ a
  to_string (ApiError.failed_broadcast a) = str "Failed broadcast: " ++ a
  to_string (ApiError.failed_closing_channel a) = str "Failed closing channel: " ++ a
  to_string (ApiError.failed_invoice_creation a) = str "Failed to create invoice: " ++ a
  to_string (ApiError.failed_issuing_asset a) = str "Failed to issue asset: " ++ a
  to_string (ApiError.failed_keys_creation a b) =
      str "Unable to create keys seed file " ++ (a ++ (str ": " ++ b))
  to_string (ApiError.failed_open_channel a) = str "Failed to open channel: " ++ a
  to_string (ApiError.failed_payment a) = str "Failed payment: " ++ a
  to_string ApiError.failed_peer_connection = str "Failed to connect to peer"
  to_string (ApiError.failed_peer_disconnection a) = str "Failed to disconnect to peer: " ++ a
  to_string (ApiError.failed_sending_onion_message a) = str "Failed to send onion message: " ++ a
  to_string ApiError.incomplete_rgb_info =
      str "For an RGB operation both asset_id and asset_amount must be set"
  to_string ApiError.insufficient_assets = str "Not enough assets"
  to_string (ApiError.insufficient_capacity a) =
      str "Insufficient capacity to cover the commitment transaction fees ("
      ++ (show_nat a ++ str " sat)")
  to_string (ApiError.insufficient_funds a) =
      str "Not enough funds, get an address and send " ++ (show_nat a ++ str " sats there")
  to_string (ApiError.invalid_address a) = str "Invalid address: " ++ a
  to_string (ApiError.invalid_amount a) = str "Invalid amount: " ++ a
  to_string (ApiError.invalid_announce_addresses a) = str "Invalid announce addresses: " ++ a
  to_string (ApiError.invalid_announce_alias a) = str "Invalid announce alias: " ++ a
  to_string (ApiError.invalid_asset_id a) = str "Invalid asset ID: " ++ a
  to_string ApiError.invalid_assignment = str "Invalid assignment"
  to_string (ApiError.invalid_attachments a) = str "Invalid attachments: " ++ a
  to_string ApiError.invalid_backup_path = str "Invalid backup path"
  to_string ApiError.invalid_biscuit_token = str "Invalid Biscuit token"
  to_string ApiError.invalid_channel_id = str "Invalid channel ID"
  to_string (ApiError.invalid_details a) = str "Invalid details: " ++ a
  to_string ApiError.invalid_estimation_blocks =
      str "Trying to request fee estimation for an invalid block number"
  to_string (ApiError.invalid_fee_rate a) = str "Invalid fee rate: " ++ a
  to_string (ApiError.invalid_indexer a) = str "Invalid indexer: " ++ a
  to_string (ApiError.invalid_invoice a) = str "Invalid invoice: " ++ a
  to_string ApiError.invalid_media_digest = str "Invalid media digest"
  to_string (ApiError.invalid_name a) = str "Invalid name: " ++ a
  to_string (ApiError.invalid_node_ids a) = str "Invalid node IDs: " ++ a
  to_string (ApiError.invalid_onion_data a) = str "Invalid onion data: " ++ a
  to_string (ApiError.invalid_payment_hash a) = str "Invalid payment hash: " ++ a
  to_string ApiError.invalid_payment_secret = str "Invalid payment secret"
  to_string (ApiError.invalid_password a) = str "Invalid password: " ++ a
  to_string (ApiError.invalid_peer_info a) = str "Invalid peer info: " ++ a
  to_string (ApiError.invalid_precision a) = str "Invalid precision: " ++ a
  to_string ApiError.invalid_proxy_endpoint = str "Invalid proxy endpoint"
  to_string (ApiError.invalid_proxy_protocol a) = str "Invalid proxy protocol version: " ++ a
  to_string ApiError.invalid_pubkey = str "Invalid pubkey"
  to_string (ApiError.invalid_recipient_data a) =
      str "The provided recipient data is invalid: " ++ a
  to_string ApiError.invalid_recipient_id =
      str "The provided recipient ID is neither a blinded UTXO or a script"
  to_string ApiError.invalid_recipient_network =
      str "The provided recipient ID is for a different network than the wallet's one"
  to_string (ApiError.invalid_swap a) = str "Invalid swap: " ++ a
  to_string (ApiError.invalid_swap_string a b) =
      str "Invalid swap string '" ++ (a ++ (str "': " ++ b))
  to_string (ApiError.invalid_ticker a) = str "Invalid ticker: " ++ a
  to_string (ApiError.invalid_tlv_type a) = str "Invalid tlv type: " ++ a
  to_string (ApiError.invalid_transport_endpoint a) = str "Invalid transport endpoint: " ++ a
  to_string (ApiError.invalid_transport_endpoints a) = str "Invalid transport endpoints: " ++ a
  to_string (ApiError.io a) = str "IO error: " ++ a
  to_string (ApiError.json_extractor_rejection a) = a.body_text
  to_string ApiError.locked_node = str "Node is locked (hint: call unlock)"
  to_string ApiError.media_file_empty = str "Media file is empty"
  to_string ApiError.media_file_not_provided = str "Media file has not been provided"
  to_string (ApiError.max_fee_exceeded a) = str "Max fee exceeded for transfer with TXID: " ++ a
  to_string (ApiError.min_fee_not_met a) = str "Min fee not met for transfer with TXID: " ++ a
  to_string ApiError.missing_swap_payment_preimage =
      str "Unable to find payment preimage, be sure you've provided the correct swap info"
  to_string (ApiError.network a) = str "Network error: " ++ a
  to_string (ApiError.network_mismatch a b) =
      str "The network of the given bitcoind ("
      ++ (a ++ (str ") doesn't match the node's chain (" ++ (show_network b ++ str ")")))
  to_string ApiError.no_available_utxos =
      str "No uncolored UTXOs are available (hint: call createutxos)"
  to_string ApiError.no_route = str "No route found"
  to_string ApiError.not_initialized = str "Wallet has not been initialized (hint: call init)"
  to_string ApiError.no_valid_transport_endpoint = str "No valid transport endpoint found"
  to_string ApiError.open_channel_in_progress =
      str "Cannot perform this operation while an open channel operation is in progress"
  to_string ApiError.output_below_dust_limit = str "Output below the dust limit"
  to_string (ApiError.payment_not_found a) = str "Payment not found: " ++ a
  to_string ApiError.recipient_id_already_used = str "Recipient ID already used"
  to_string (ApiError.swap_not_found a) = str "Swap not found: " ++ a
  to_string ApiError.temporary_channel_id_already_used = str "Temporary channel ID already used"
  to_string (ApiError.unexpected a) = str "Unexpected error: " ++ a
  to_string ApiError.unknown_channel_id = str "Unknown channel ID"
  to_string ApiError.unknown_contract_id = str "Unknown RGB contract ID"
  to_string ApiError.unknown_ln_invoice = str "Unknown LN invoice"
  to_string ApiError.unknown_temporary_channel_id = str "Unknown temporary channel ID"
  to_string ApiError.unlocked_node = str "Node is unlocked (hint: call lock)"
  to_string (ApiError.unsupported_backup_version a) =
      str "The provided backup has an unsupported version: " ++ a
  to_string (ApiError.unsupported_layer1 a) = str "Layer 1 " ++ (a ++ str " is not supported")
  to_string ApiError.unsupported_transport_type = str "Transport type is not supported"
  to_string ApiError.wrong_password = str "The provided password is incorrect"
