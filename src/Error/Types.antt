-- ===== src/Error/Types.antt =====
-- The error types (src/error.rs), and the library types that their payloads name.
use f1r3fly_rgb_lightning_no.Common.{ℕ, Bytes}

-- `BitcoinNetwork` of the Lightning library, with the variants that the code matches on.
pub data BitcoinNetwork : Type 0 where
  mainnet testnet testnet4 regtest signet : BitcoinNetwork

-- What the code reads off axum's `JsonRejection`.
pub record JsonRejection : Type 0 where
  pub status : ℕ
  pub body_text : Bytes

pub data ApiError : Type 0 where
  allocations_already_available : ApiError
  already_initialized : ApiError
  anchors_required : ApiError
  already_unlocked : ApiError
  authentication_disabled : ApiError
  batch_transfer_not_found : ApiError
  cannot_close_channel : Bytes → ApiError
  cannot_estimate_fees : ApiError
  cannot_fail_batch_transfer : ApiError
  changing_state : ApiError
  duplicate_payment : Bytes → ApiError
  expired_swap_offer : ApiError
  failed_bdk_sync : Bytes → ApiError
  failed_bitcoind_connection : Bytes → ApiError
  failed_broadcast : Bytes → ApiError
  failed_closing_channel : Bytes → ApiError
  failed_invoice_creation : Bytes → ApiError
  failed_issuing_asset : Bytes → ApiError
  failed_keys_creation : Bytes → Bytes → ApiError
  failed_open_channel : Bytes → ApiError
  failed_payment : Bytes → ApiError
  failed_peer_connection : ApiError
  failed_peer_disconnection : Bytes → ApiError
  failed_sending_onion_message : Bytes → ApiError
  incomplete_rgb_info : ApiError
  insufficient_assets : ApiError
  insufficient_capacity : ℕ → ApiError
  insufficient_funds : ℕ → ApiError
  invalid_address : Bytes → ApiError
  invalid_amount : Bytes → ApiError
  invalid_announce_addresses : Bytes → ApiError
  invalid_announce_alias : Bytes → ApiError
  invalid_asset_id : Bytes → ApiError
  invalid_assignment : ApiError
  invalid_attachments : Bytes → ApiError
  invalid_backup_path : ApiError
  invalid_biscuit_token : ApiError
  invalid_channel_id : ApiError
  invalid_details : Bytes → ApiError
  invalid_estimation_blocks : ApiError
  invalid_fee_rate : Bytes → ApiError
  invalid_indexer : Bytes → ApiError
  invalid_invoice : Bytes → ApiError
  invalid_media_digest : ApiError
  invalid_name : Bytes → ApiError
  invalid_node_ids : Bytes → ApiError
  invalid_onion_data : Bytes → ApiError
  invalid_payment_hash : Bytes → ApiError
  invalid_payment_secret : ApiError
  invalid_password : Bytes → ApiError
  invalid_peer_info : Bytes → ApiError
  invalid_precision : Bytes → ApiError
  invalid_proxy_endpoint : ApiError
  invalid_proxy_protocol : Bytes → ApiError
  invalid_pubkey : ApiError
  invalid_recipient_data : Bytes → ApiError
  invalid_recipient_id : ApiError
  invalid_recipient_network : ApiError
  invalid_swap : Bytes → ApiError
  invalid_swap_string : Bytes → Bytes → ApiError
  invalid_ticker : Bytes → ApiError
  invalid_tlv_type : Bytes → ApiError
  invalid_transport_endpoint : Bytes → ApiError
  invalid_transport_endpoints : Bytes → ApiError
  io : Bytes → ApiError
  json_extractor_rejection : JsonRejection → ApiError
  locked_node : ApiError
  media_file_empty : ApiError
  media_file_not_provided : ApiError
  max_fee_exceeded : Bytes → ApiError
  min_fee_not_met : Bytes → ApiError
  missing_swap_payment_preimage : ApiError
  network : Bytes → ApiError
  network_mismatch : Bytes → BitcoinNetwork → ApiError
  no_available_utxos : ApiError
  no_route : ApiError
  not_initialized : ApiError
  no_valid_transport_endpoint : ApiError
  open_channel_in_progress : ApiError
  output_below_dust_limit : ApiError
  payment_not_found : Bytes → ApiError
  recipient_id_already_used : ApiError
  swap_not_found : Bytes → ApiError
  temporary_channel_id_already_used : ApiError
  unexpected : Bytes → ApiError
  unknown_channel_id : ApiError
  unknown_contract_id : ApiError
  unknown_ln_invoice : ApiError
  unknown_temporary_channel_id : ApiError
  unlocked_node : ApiError
  unsupported_backup_version : Bytes → ApiError
  unsupported_layer1 : Bytes → ApiError
  unsupported_transport_type : ApiError
  wrong_password : ApiError

pub data AppError : Type 0 where
  invalid_authentication_args : AppError
  invalid_revoked_tokens_file : AppError
  invalid_root_key : AppError
  io : Bytes → AppError
  unavailable_port : ℕ → AppError
