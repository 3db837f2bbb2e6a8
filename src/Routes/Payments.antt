-- ===== src/Routes/Payments.antt =====
-- The payment handlers (src/routes.rs): what they take from the libraries, and what they share.
pub mod Keysend
pub mod Send
pub mod Query
pub mod Invoices
pub mod Stored
pub mod Reported
pub mod Keeps
pub mod Duplicate
pub mod Found
pub mod Awaited
use mathlib.Core.Option
use f1r3fly_rgb_lightning_no.Common.{
  ℕ, ◌*◌, Bool, true, false, Option, none, some, Bytes, length, not, ◌==◌, if◌then◌else◌,
}
use f1r3fly_rgb_lightning_no.Error.{BitcoinNetwork}
use f1r3fly_rgb_lightning_no.Hex.{hex_str_to_vec}
use f1r3fly_rgb_lightning_no.Node.{
  Action, pure, call, LibraryCall, HtlcStatus, PaymentInfo, ◌>>=◌, ◌>>◌,
}
use f1r3fly_rgb_lightning_no.Node.Payments.{update_outbound_payment_status}

-- `offer::Amount`
pub data OfferAmount : Type 0 where
  bitcoin : ℕ → OfferAmount
  currency : Bytes → ℕ → OfferAmount

-- `Offer`, as far as it is read.
pub record Offer : Type 0 where
  pub amount : Option OfferAmount
  pub signing_pubkey : Option Bytes

-- `Bolt11Invoice`, as far as it is read.
pub record Invoice : Type 0 where
  pub payment_hash : Bytes
  pub payment_secret : Bytes
  pub amount_milli_satoshis : Option ℕ
  pub rgb_contract_id : Option Bytes
  pub rgb_amount : Option ℕ
  pub payee_pub_key : Bytes
  pub is_expired : Bool

-- A result of a library, with the text of its error.
pub data Read (A : Type 0) : Type 0 where
  ok : A → Read A
  err : Bytes → Read A

-- `Currency` of the invoice library.
pub data Currency : Type 0 where
  bitcoin bitcoin_testnet regtest signet : Currency

-- The RGB payment file of a payment.
pub record RgbPaymentInfo : Type 0 where
  pub contract_id : Bytes
  pub amount : ℕ

pub record PaymentLibrary : Type 0 where
  pub contract_from_str : Bytes → Option Bytes
  pub contract_to_string : Bytes → Bytes
  pub pubkey_from_slice : Bytes → Option Bytes
  pub pubkey_to_string : Bytes → Bytes
  pub our_node_id : Bytes
  pub random_bytes : Bytes
  pub sha256 : Bytes → Bytes
  pub offer_from_str : Bytes → Option Offer
  -- the debug print of an offer's amount
  pub show_amount : Option OfferAmount → Bytes
  pub invoice_from_str : Bytes → Read Invoice
  pub invoice_to_string : Invoice → Bytes
  -- the payment hash of the parameters, with the amount for an invoice that has none
  pub payment_parameters_from_invoice : Invoice → Option Bytes
  pub payment_parameters_from_zero_amount_invoice : Invoice → ℕ → Option Bytes
  -- from the currency, the amount, the expiry, and the RGB contract and amount
  pub create_invoice : Currency → Option ℕ → ℕ → Option Bytes → Option ℕ → Read Invoice
  -- from the payee, the amount, the RGB payment and the preimage: whether the call fails
  pub keysend_fails : Bytes → ℕ → Option (Bytes × ℕ) → Bytes → Bool
  pub send_payment_fails : Invoice → ℕ → Option (Bytes × ℕ) → Bool
  pub pay_for_offer_fails : Offer → ℕ → Bytes → Bool
  -- from the payment hash, and whether the payment is inbound: the file, if it exists
  pub rgb_payment_info : Bytes → Bool → Option RgbPaymentInfo
  pub network : BitcoinNetwork

-- The RGB payment file of an outbound payment that carries an asset.
unfoldable pub note_payment : Bytes → Option (Bytes × ℕ) → Action (Unit {0})
note_payment hash none = pure tt
note_payment hash (some (contract, amount)) =
    call (LibraryCall.write_rgb_payment_info_file hash contract amount false false)

-- The status of a payment after the library's call, by whether the call failed.
unfoldable pub settle_payment : Bytes → Bool → Action HtlcStatus
settle_payment id false = pure HtlcStatus.pending
settle_payment id true = do
  update_outbound_payment_status id HtlcStatus.failed
  pure HtlcStatus.failed

-- The `PaymentInfo` of a payment that starts.
unfoldable pub starting : Option Bytes → Option ℕ → ℕ → Bytes → PaymentInfo
starting secret amt_msat created_at payee_pubkey = record {
  preimage = none;
  secret = secret;
  status = HtlcStatus.pending;
  amt_msat = amt_msat;
  created_at = created_at;
  updated_at = created_at;
  payee_pubkey = payee_pubkey;
}
