-- ===== src/Error/Status.antt =====
-- The HTTP status of each error (`APIError::into_response` of src/error.rs).
use f1r3fly_rgb_lightning_no.Common.{ℕ}
use f1r3fly_rgb_lightning_no.Error.Types.{ApiError}

abbrev pub bad_request : ℕ
bad_request = 400

abbrev pub unauthorized : ℕ
unauthorized = 401

abbrev pub forbidden : ℕ
forbidden = 403

abbrev pub internal_server_error : ℕ
internal_server_error = 500

abbrev pub service_unavailable : ℕ
service_unavailable = 503

unfoldable pub status : ApiError → ℕ
status ApiError.allocations_already_available = forbidden
status ApiError.already_initialized = forbidden
status ApiError.anchors_required = bad_request
status ApiError.already_unlocked = forbidden
status ApiError.authentication_disabled = forbidden
status ApiError.batch_transfer_not_found = forbidden
status (ApiError.cannot_close_channel _) = forbidden
status ApiError.cannot_estimate_fees = forbidden
status ApiError.cannot_fail_batch_transfer = forbidden
status ApiError.changing_state = forbidden
status (ApiError.duplicate_payment _) = forbidden
status ApiError.expired_swap_offer = bad_request
status (ApiError.failed_bdk_sync _) = forbidden
status (ApiError.failed_bitcoind_connection _) = forbidden
status (ApiError.failed_broadcast _) = forbidden
status (ApiError.failed_closing_channel _) = internal_server_error
status (ApiError.failed_invoice_creation _) = internal_server_error
status (ApiError.failed_issuing_asset _) = internal_server_error
status (ApiError.failed_keys_creation _ _) = internal_server_error
status (ApiError.failed_open_channel _) = internal_server_error
status (ApiError.failed_payment _) = internal_server_error
status ApiError.failed_peer_connection = forbidden
status (ApiError.failed_peer_disconnection _) = internal_server_error
status (ApiError.failed_sending_onion_message _) = internal_server_error
status ApiError.incomplete_rgb_info = bad_request
status ApiError.insufficient_assets = forbidden
status (ApiError.insufficient_capacity _) = forbidden
status (ApiError.insufficient_funds _) = forbidden
status (ApiError.invalid_address _) = bad_request
status (ApiError.invalid_amount _) = bad_request
status (ApiError.invalid_announce_addresses _) = bad_request
status (ApiError.invalid_announce_alias _) = bad_request
status (ApiError.invalid_asset_id _) = bad_request
status ApiError.invalid_assignment = bad_request
status (ApiError.invalid_attachments _) = bad_request
status ApiError.invalid_backup_path = bad_request
status ApiError.invalid_biscuit_token = bad_request
status ApiError.invalid_channel_id = bad_request
status (ApiError.invalid_details _) = bad_request
status ApiError.invalid_estimation_blocks = bad_request
status (ApiError.invalid_fee_rate _) = bad_request
status (ApiError.invalid_indexer _) = forbidden
status (ApiError.invalid_invoice _) = bad_request
status ApiError.invalid_media_digest = bad_request
status (ApiError.invalid_name _) = bad_request
status (ApiError.invalid_node_ids _) = bad_request
status (ApiError.invalid_onion_data _) = bad_request
status (ApiError.invalid_payment_hash _) = bad_request
status ApiError.invalid_payment_secret = bad_request
status (ApiError.invalid_password _) = bad_request
status (ApiError.invalid_peer_info _) = bad_request
status (ApiError.invalid_precision _) = bad_request
status ApiError.invalid_proxy_endpoint = forbidden
status (ApiError.invalid_proxy_protocol _) = forbidden
status ApiError.invalid_pubkey = bad_request
status (ApiError.invalid_recipient_data _) = bad_request
status ApiError.invalid_recipient_id = bad_request
status ApiError.invalid_recipient_network = bad_request
status (ApiError.invalid_swap _) = bad_request
status (ApiError.invalid_swap_string _ _) = bad_request
status (ApiError.invalid_ticker _) = bad_request
status (ApiError.invalid_tlv_type _) = bad_request
status (ApiError.invalid_transport_endpoint _) = bad_request
status (ApiError.invalid_transport_endpoints _) = bad_request
status (ApiError.io _) = internal_server_error
status (ApiError.json_extractor_rejection r) = r.status
status ApiError.locked_node = forbidden
status ApiError.media_file_empty = bad_request
status ApiError.media_file_not_provided = bad_request
status (ApiError.max_fee_exceeded _) = forbidden
status (ApiError.min_fee_not_met _) = forbidden
status ApiError.missing_swap_payment_preimage = bad_request
status (ApiError.network _) = service_unavailable
status (ApiError.network_mismatch _ _) = forbidden
status ApiError.no_available_utxos = forbidden
status ApiError.no_route = forbidden
status ApiError.not_initialized = forbidden
status ApiError.no_valid_transport_endpoint = service_unavailable
status ApiError.open_channel_in_progress = forbidden
status ApiError.output_below_dust_limit = bad_request
status (ApiError.payment_not_found _) = forbidden
status ApiError.recipient_id_already_used = forbidden
status (ApiError.swap_not_found _) = forbidden
status ApiError.temporary_channel_id_already_used = forbidden
status (ApiError.unexpected _) = internal_server_error
status ApiError.unknown_channel_id = forbidden
status ApiError.unknown_contract_id = forbidden
status ApiError.unknown_ln_invoice = forbidden
status ApiError.unknown_temporary_channel_id = forbidden
status ApiError.unlocked_node = forbidden
status (ApiError.unsupported_backup_version _) = bad_request
status (ApiError.unsupported_layer1 _) = forbidden
status ApiError.unsupported_transport_type = forbidden
status ApiError.wrong_password = unauthorized
