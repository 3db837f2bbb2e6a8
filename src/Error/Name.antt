-- ===== src/Error/Name.antt =====
-- `APIError::name`: the part of the derived debug print before `(` or ` {`, the variant's name.
use f1r3fly_rgb_lightning_no.Common.{Bytes, str}
use f1r3fly_rgb_lightning_no.Error.Types.{ApiError}

unfoldable pub name : ApiError → Bytes
name ApiError.allocations_already_available = str "AllocationsAlreadyAvailable"
name ApiError.already_initialized = str "AlreadyInitialized"
name ApiError.anchors_required = str "AnchorsRequired"
name ApiError.already_unlocked = str "AlreadyUnlocked"
name ApiError.authentication_disabled = str "AuthenticationDisabled"
name ApiError.batch_transfer_not_found = str "BatchTransferNotFound"
name (ApiError.cannot_close_channel _) = str "CannotCloseChannel"
name ApiError.cannot_estimate_fees = str "CannotEstimateFees"
name ApiError.cannot_fail_batch_transfer = str "CannotFailBatchTransfer"
name ApiError.changing_state = str "ChangingState"
name (ApiError.duplicate_payment _) = str "DuplicatePayment"
name ApiError.expired_swap_offer = str "ExpiredSwapOffer"
name (ApiError.failed_bdk_sync _) = str "FailedBdkSync"
name (ApiError.failed_bitcoind_connection _) = str "FailedBitcoindConnection"
name (ApiError.failed_broadcast _) = str "FailedBroadcast"
name (ApiError.failed_closing_channel _) = str "FailedClosingChannel"
name (ApiError.failed_invoice_creation _) = str "FailedInvoiceCreation"
name (ApiError.failed_issuing_asset _) = str "FailedIssuingAsset"
name (ApiError.failed_keys_creation _ _) = str "FailedKeysCreation"
name (ApiError.failed_open_channel _) = str "FailedOpenChannel"
name (ApiError.failed_payment _) = str "FailedPayment"
name ApiError.failed_peer_connection = str "FailedPeerConnection"
name (ApiError.failed_peer_disconnection _) = str "FailedPeerDisconnection"
name (ApiError.failed_sending_onion_message _) = str "FailedSendingOnionMessage"
name ApiError.incomplete_rgb_info = str "IncompleteRGBInfo"
name ApiError.insufficient_assets = str "InsufficientAssets"
name (ApiError.insufficient_capacity _) = str "InsufficientCapacity"
name (ApiError.insufficient_funds _) = str "InsufficientFunds"
name (ApiError.invalid_address _) = str "InvalidAddress"
name (ApiError.invalid_amount _) = str "InvalidAmount"
name (ApiError.invalid_announce_addresses _) = str "InvalidAnnounceAddresses"
name (ApiError.invalid_announce_alias _) = str "InvalidAnnounceAlias"
name (ApiError.invalid_asset_id _) = str "InvalidAssetID"
name ApiError.invalid_assignment = str "InvalidAssignment"
name (ApiError.invalid_attachments _) = str "InvalidAttachments"
name ApiError.invalid_backup_path = str "InvalidBackupPath"
name ApiError.invalid_biscuit_token = str "InvalidBiscuitToken"
name ApiError.invalid_channel_id = str "InvalidChannelID"
name (ApiError.invalid_details _) = str "InvalidDetails"
name ApiError.invalid_estimation_blocks = str "InvalidEstimationBlocks"
name (ApiError.invalid_fee_rate _) = str "InvalidFeeRate"
name (ApiError.invalid_indexer _) = str "InvalidIndexer"
name (ApiError.invalid_invoice _) = str "InvalidInvoice"
name ApiError.invalid_media_digest = str "InvalidMediaDigest"
name (ApiError.invalid_name _) = str "InvalidName"
name (ApiError.invalid_node_ids _) = str "InvalidNodeIds"
name (ApiError.invalid_onion_data _) = str "InvalidOnionData"
name (ApiError.invalid_payment_hash _) = str "InvalidPaymentHash"
name ApiError.invalid_payment_secret = str "InvalidPaymentSecret"
name (ApiError.invalid_password _) = str "InvalidPassword"
name (ApiError.invalid_peer_info _) = str "InvalidPeerInfo"
name (ApiError.invalid_precision _) = str "InvalidPrecision"
name ApiError.invalid_proxy_endpoint = str "InvalidProxyEndpoint"
name (ApiError.invalid_proxy_protocol _) = str "InvalidProxyProtocol"
name ApiError.invalid_pubkey = str "InvalidPubkey"
name (ApiError.invalid_recipient_data _) = str "InvalidRecipientData"
name ApiError.invalid_recipient_id = str "InvalidRecipientID"
name ApiError.invalid_recipient_network = str "InvalidRecipientNetwork"
name (ApiError.invalid_swap _) = str "InvalidSwap"
name (ApiError.invalid_swap_string _ _) = str "InvalidSwapString"
name (ApiError.invalid_ticker _) = str "InvalidTicker"
name (ApiError.invalid_tlv_type _) = str "InvalidTlvType"
name (ApiError.invalid_transport_endpoint _) = str "InvalidTransportEndpoint"
name (ApiError.invalid_transport_endpoints _) = str "InvalidTransportEndpoints"
name (ApiError.io _) = str "IO"
name (ApiError.json_extractor_rejection _) = str "JsonExtractorRejection"
name ApiError.locked_node = str "LockedNode"
name ApiError.media_file_empty = str "MediaFileEmpty"
name ApiError.media_file_not_provided = str "MediaFileNotProvided"
name (ApiError.max_fee_exceeded _) = str "MaxFeeExceeded"
name (ApiError.min_fee_not_met _) = str "MinFeeNotMet"
name ApiError.missing_swap_payment_preimage = str "MissingSwapPaymentPreimage"
name (ApiError.network _) = str "Network"
name (ApiError.network_mismatch _ _) = str "NetworkMismatch"
name ApiError.no_available_utxos = str "NoAvailableUtxos"
name ApiError.no_route = str "NoRoute"
name ApiError.not_initialized = str "NotInitialized"
name ApiError.no_valid_transport_endpoint = str "NoValidTransportEndpoint"
name ApiError.open_channel_in_progress = str "OpenChannelInProgress"
name ApiError.output_below_dust_limit = str "OutputBelowDustLimit"
name (ApiError.payment_not_found _) = str "PaymentNotFound"
name ApiError.recipient_id_already_used = str "RecipientIDAlreadyUsed"
name (ApiError.swap_not_found _) = str "SwapNotFound"
name ApiError.temporary_channel_id_already_used = str "TemporaryChannelIdAlreadyUsed"
name (ApiError.unexpected _) = str "Unexpected"
name ApiError.unknown_channel_id = str "UnknownChannelId"
name ApiError.unknown_contract_id = str "UnknownContractId"
name ApiError.unknown_ln_invoice = str "UnknownLNInvoice"
name ApiError.unknown_temporary_channel_id = str "UnknownTemporaryChannelId"
name ApiError.unlocked_node = str "UnlockedNode"
name (ApiError.unsupported_backup_version _) = str "UnsupportedBackupVersion"
name (ApiError.unsupported_layer1 _) = str "UnsupportedLayer1"
name ApiError.unsupported_transport_type = str "UnsupportedTransportType"
name ApiError.wrong_password = str "WrongPassword"
