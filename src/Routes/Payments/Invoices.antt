-- ===== src/Routes/Payments/Invoices.antt =====
-- `ln_invoice` and `invoice_status` (src/routes.rs).
use f1r3fly_rgb_lightning_no.Common.{
  ℕ, Bool, ◌&&◌, Option, none, some, is_some, unwrap_or, Bytes, str, ◌++◌, ltb, lookup,
  if◌then◌else◌,
}
use f1r3fly_rgb_lightning_no.Decimal.{show_nat}
use f1r3fly_rgb_lightning_no.Error.{ApiError, BitcoinNetwork}
use f1r3fly_rgb_lightning_no.Node.{
  Action, pure, fail, gets, or_fail, fail_if, HtlcStatus, ◌>>=◌, ◌>>◌, get_current_timestamp,
}
use f1r3fly_rgb_lightning_no.Node.Payments.{add_inbound_payment}
use f1r3fly_rgb_lightning_no.Routes.Amounts.{invoice_min_msat}
use f1r3fly_rgb_lightning_no.Routes.Payments.{PaymentLibrary, Invoice, Read, Currency, starting}

pub record LnInvoiceRequest : Type 0 where
  pub amt_msat : Option ℕ
  pub expiry_sec : ℕ
  pub asset_id : Option Bytes
  pub asset_amount : Option ℕ

pub data InvoiceStatus : Type 0 where
  pending succeeded failed expired : InvoiceStatus

-- `match state.static_state.network`
unfoldable pub currency_of : BitcoinNetwork → Currency
currency_of BitcoinNetwork.mainnet = Currency.bitcoin
currency_of BitcoinNetwork.testnet = Currency.bitcoin_testnet
currency_of BitcoinNetwork.testnet4 = Currency.bitcoin_testnet
currency_of BitcoinNetwork.regtest = Currency.regtest
currency_of BitcoinNetwork.signet = Currency.signet

-- The status of an invoice from that of its payment.
unfoldable pub invoice_status_of : HtlcStatus → Bool → InvoiceStatus
invoice_status_of HtlcStatus.pending is_expired =
    if is_expired then InvoiceStatus.expired else InvoiceStatus.pending
invoice_status_of HtlcStatus.succeeded is_expired = InvoiceStatus.succeeded
invoice_status_of HtlcStatus.failed is_expired = InvoiceStatus.failed

-- The result of reading an invoice, under the error of the caller.
unfoldable pub read_invoice : Read Invoice → (Bytes → ApiError) → Action Invoice
read_invoice (Read.ok invoice) wrap = pure invoice
read_invoice (Read.err e) wrap = fail (wrap e)

module _ (lib : PaymentLibrary) where
  unfoldable pub invoice_contract : Option Bytes → Action (Option Bytes)
  invoice_contract none = pure none
  invoice_contract (some asset_id) = do
    contract ← or_fail (lib.contract_from_str asset_id) (ApiError.invalid_asset_id asset_id)
    pure (some contract)

  -- From an invoice that was created on: its payment is entered.
  unfoldable pub publish_invoice : Invoice → Option ℕ → Action Bytes
  unfolding starting get_current_timestamp
  publish_invoice invoice amt_msat = do
    created_at ← get_current_timestamp
    add_inbound_payment invoice.payment_hash
        (starting (some invoice.payment_secret) amt_msat created_at lib.our_node_id)
    pure (lib.invoice_to_string invoice)

  unfoldable pub ln_invoice : LnInvoiceRequest → Action Bytes
  unfolding invoice_contract publish_invoice read_invoice currency_of
  ln_invoice payload = do
    contract_id ← invoice_contract payload.asset_id
    fail_if (is_some contract_id && ltb (unwrap_or payload.amt_msat 0) invoice_min_msat) (
        ApiError.invalid_amount (
          str "amt_msat cannot be less than "
          ++ (show_nat invoice_min_msat ++ str " when transferring an RGB asset")))
    invoice ←
        read_invoice
          (lib.create_invoice (currency_of lib.network) payload.amt_msat payload.expiry_sec
            contract_id payload.asset_amount)
          ApiError.failed_invoice_creation
    publish_invoice invoice payload.amt_msat

  unfoldable pub invoice_status : Bytes → Action InvoiceStatus
  unfolding read_invoice invoice_status_of
  invoice_status text = do
    invoice ← read_invoice (lib.invoice_from_str text) ApiError.invalid_invoice
    found ← gets (λ s. lookup invoice.payment_hash s.inbound_payments)
    info ← or_fail found ApiError.unknown_ln_invoice
    pure (invoice_status_of info.status invoice.is_expired)
