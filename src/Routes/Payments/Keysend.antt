-- ===== src/Routes/Payments/Keysend.antt =====
-- `keysend` (src/routes.rs).
use f1r3fly_rgb_lightning_no.Common.{ℕ, Option, none, some, Bytes, str, ◌++◌, ltb}
use f1r3fly_rgb_lightning_no.Decimal.{show_nat}
use f1r3fly_rgb_lightning_no.Error.{ApiError}
use f1r3fly_rgb_lightning_no.Hex.{hex_str_to_compressed_pubkey, hex_str}
use f1r3fly_rgb_lightning_no.Node.{
  Action, pure, fail, or_fail, fail_if, call, LibraryCall, HtlcStatus, ◌>>=◌, ◌>>◌,
  get_current_timestamp,
}
use f1r3fly_rgb_lightning_no.Node.Payments.{add_outbound_payment}
use f1r3fly_rgb_lightning_no.Routes.Amounts.{htlc_min_msat}
use f1r3fly_rgb_lightning_no.Routes.Payments.{
  PaymentLibrary, note_payment, settle_payment, starting,
}

pub record KeysendRequest : Type 0 where
  pub dest_pubkey : Bytes
  pub amt_msat : ℕ
  pub asset_id : Option Bytes
  pub asset_amount : Option ℕ

pub record KeysendResponse : Type 0 where
  pub payment_hash : Bytes
  pub payment_preimage : Bytes
  pub status : HtlcStatus

module _ (lib : PaymentLibrary) where
  -- `match (payload.asset_id, payload.asset_amount)`
  unfoldable pub keysend_rgb : Option Bytes → Option ℕ → Action (Option (Bytes × ℕ))
  keysend_rgb (some asset_id) (some amount) = do
    contract ← or_fail (lib.contract_from_str asset_id) (ApiError.invalid_asset_id asset_id)
    pure (some (contract, amount))
  keysend_rgb none none = pure none
  keysend_rgb _ _ = fail ApiError.incomplete_rgb_info

  -- From the entry of the payment on.
  unfoldable pub pay_keysend : Bytes → ℕ → Option (Bytes × ℕ) → Action KeysendResponse
  unfolding note_payment settle_payment starting get_current_timestamp
  pay_keysend dest amt_msat rgb_payment = do
    created_at ← get_current_timestamp
    add_outbound_payment (lib.sha256 lib.random_bytes)
        (starting none (some amt_msat) created_at dest)
    note_payment (lib.sha256 lib.random_bytes) rgb_payment
    call (LibraryCall.send_spontaneous_payment_with_retry (lib.sha256 lib.random_bytes))
    status ←
        settle_payment (lib.sha256 lib.random_bytes)
          (lib.keysend_fails dest amt_msat rgb_payment lib.random_bytes)
    pure (record {
      payment_hash = hex_str (lib.sha256 lib.random_bytes);
      payment_preimage = hex_str lib.random_bytes;
      status = status;
    })

  unfoldable pub keysend : KeysendRequest → Action KeysendResponse
  unfolding keysend_rgb pay_keysend hex_str_to_compressed_pubkey
  keysend payload = do
    dest ←
        or_fail (hex_str_to_compressed_pubkey lib.pubkey_from_slice payload.dest_pubkey)
          ApiError.invalid_pubkey
    fail_if (ltb payload.amt_msat htlc_min_msat)
        (ApiError.invalid_amount (str "amt_msat cannot be less than " ++ show_nat htlc_min_msat))
    rgb_payment ← keysend_rgb payload.asset_id payload.asset_amount
    pay_keysend dest payload.amt_msat rgb_payment
