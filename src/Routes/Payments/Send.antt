-- ===== src/Routes/Payments/Send.antt =====
-- `send_payment` (src/routes.rs), for an offer and for an invoice.
use f1r3fly_rgb_lightning_no.Common.{
  ℕ, Bool, true, false, not, Option, none, some, unwrap_or, Bytes, str, ◌++◌, ltb, ◌==◌,
}
use f1r3fly_rgb_lightning_no.Decimal.{show_nat}
use f1r3fly_rgb_lightning_no.Error.{ApiError}
use f1r3fly_rgb_lightning_no.Hex.{hex_str}
use f1r3fly_rgb_lightning_no.Node.{
  Action, pure, fail, unwrap, or_fail, fail_if, call, LibraryCall, HtlcStatus, ◌>>=◌, ◌>>◌,
  get_current_timestamp,
}
use f1r3fly_rgb_lightning_no.Node.Payments.{add_outbound_payment, update_outbound_payment_status}
use f1r3fly_rgb_lightning_no.Routes.Amounts.{invoice_min_msat}
use f1r3fly_rgb_lightning_no.Routes.Payments.{
  PaymentLibrary, Offer, OfferAmount, Invoice, Read, note_payment, settle_payment, starting,
}

pub record SendPaymentRequest : Type 0 where
  pub invoice : Bytes
  pub amt_msat : Option ℕ

pub record SendPaymentResponse : Type 0 where
  pub payment_id : Bytes
  pub payment_hash : Option Bytes
  pub payment_secret : Option Bytes
  pub status : HtlcStatus

-- `a != Some(b)` for an amount that is given.
abbrev pub differs : Option ℕ → ℕ → Bool
differs none b = false
differs (some a) b = not (a == b)

-- The two writes of `Failed` when the payment of an offer fails.
unfoldable pub settle_offer : Bytes → Bool → Action HtlcStatus
settle_offer id false = pure HtlcStatus.pending
settle_offer id true = do
  update_outbound_payment_status id HtlcStatus.failed
  update_outbound_payment_status id HtlcStatus.failed
  pure HtlcStatus.failed

-- The test for an invoice without an amount.
unfoldable pub is_zero_amount : Option ℕ → Bool
is_zero_amount none = true
is_zero_amount (some n) = n == 0

-- The RGB payment of an invoice.
unfoldable pub invoice_rgb : Option Bytes → Option ℕ → ℕ → Action (Option (Bytes × ℕ))
invoice_rgb (some contract) (some amount) amt_msat = do
  fail_if (ltb amt_msat invoice_min_msat) (
      ApiError.invalid_amount (
        str "msat amount in invoice sending an RGB asset cannot be less than "
        ++ show_nat invoice_min_msat))
  pure (some (contract, amount))
invoice_rgb none none amt_msat = pure none
invoice_rgb (some contract) none amt_msat =
    fail (ApiError.invalid_invoice (str "invoice has an RGB contract ID but not an RGB amount"))
invoice_rgb none (some amount) amt_msat =
    fail (ApiError.invalid_invoice (str "invoice has an RGB amount but not an RGB contract ID"))

-- After a call that succeeds, the log line unwraps the invoice's amount.
unfoldable pub settle_invoice : Bytes → Option ℕ → Bool → Action HtlcStatus
unfolding settle_payment
settle_invoice id amount true = settle_payment id true
settle_invoice id amount false = do unwrap amount; settle_payment id false

module _ (lib : PaymentLibrary) where
  -- The amount to pay for an offer.
  unfoldable pub offer_amount : Option OfferAmount → Option ℕ → Action ℕ
  offer_amount (some (OfferAmount.bitcoin amount_msats)) _ = pure amount_msats
  offer_amount _ (some amt) = pure amt
  offer_amount amt none = fail (
      ApiError.invalid_amount
        (str "cannot process non-Bitcoin-denominated offer value " ++ lib.show_amount amt))

  -- From the entry of an offer's payment on.
  unfoldable pub start_offer : Offer → ℕ → ℕ → Action SendPaymentResponse
  unfolding settle_offer starting
  start_offer offer amt_msat created_at = do
    payee ← or_fail offer.signing_pubkey (ApiError.invalid_invoice (str "missing signing pubkey"))
    add_outbound_payment lib.random_bytes (starting none (some amt_msat) created_at payee)
    call (LibraryCall.pay_for_offer lib.random_bytes)
    status ← settle_offer lib.random_bytes (lib.pay_for_offer_fails offer amt_msat lib.random_bytes)
    pure (record {
      payment_id = hex_str lib.random_bytes;
      payment_hash = none;
      payment_secret = none;
      status = status;
    })

  unfoldable pub pay_offer : Offer → Option ℕ → ℕ → Action SendPaymentResponse
  unfolding offer_amount start_offer
  pay_offer offer requested created_at = do
    amt_msat ← offer_amount offer.amount requested
    fail_if (differs requested amt_msat) (
        ApiError.invalid_amount
          (str "amount didn't match offer of " ++ (show_nat amt_msat ++ str "msat")))
    start_offer offer amt_msat created_at

  -- The parameters of an invoice's payment, and the amount, by whether the invoice has none.
  unfoldable pub invoice_amount : Bool → Invoice → Option ℕ → Action (Option Bytes × ℕ)
  invoice_amount true invoice requested = do
    amt_msat ←
        or_fail requested
          (ApiError.invalid_amount (str "need an amount for the given 0-value invoice"))
    pure (lib.payment_parameters_from_zero_amount_invoice invoice amt_msat, amt_msat)
  invoice_amount false invoice requested = do
    fail_if (differs requested (unwrap_or invoice.amount_milli_satoshis 0)) (
        ApiError.invalid_amount (
          str "amount didn't match invoice value of "
          ++ (show_nat (unwrap_or invoice.amount_milli_satoshis 0) ++ str "msat")))
    pure (lib.payment_parameters_from_invoice invoice, unwrap_or invoice.amount_milli_satoshis 0)

  -- From the entry of an invoice's payment on.
  unfoldable pub start_invoice :
      Invoice → Bytes → ℕ → Option (Bytes × ℕ) → ℕ → Action SendPaymentResponse
  unfolding note_payment settle_invoice starting
  start_invoice invoice payment_hash amt_msat rgb_payment created_at = do
    add_outbound_payment invoice.payment_hash (
        starting (some invoice.payment_secret) invoice.amount_milli_satoshis created_at
          invoice.payee_pub_key)
    note_payment payment_hash rgb_payment
    call (LibraryCall.send_payment invoice.payment_hash)
    status ←
        settle_invoice invoice.payment_hash invoice.amount_milli_satoshis
          (lib.send_payment_fails invoice amt_msat rgb_payment)
    pure (record {
      payment_id = hex_str invoice.payment_hash;
      payment_hash = some (hex_str payment_hash);
      payment_secret = some (hex_str invoice.payment_secret);
      status = status;
    })

  unfoldable pub pay_invoice : Invoice → Option ℕ → ℕ → Action SendPaymentResponse
  unfolding is_zero_amount invoice_amount invoice_rgb start_invoice
  pay_invoice invoice requested created_at = do
    params ← invoice_amount (is_zero_amount invoice.amount_milli_satoshis) invoice requested
    payment_hash ← or_fail params.0 (ApiError.invalid_invoice (str "failed to parse invoice: ()"))
    rgb_payment ← invoice_rgb invoice.rgb_contract_id invoice.rgb_amount params.1
    start_invoice invoice payment_hash params.1 rgb_payment created_at

  -- `Bolt11Invoice::from_str` of the request, and its payment.
  unfoldable pub pay_read : Read Invoice → Option ℕ → ℕ → Action SendPaymentResponse
  unfolding pay_invoice
  pay_read (Read.err e) requested created_at = fail (ApiError.invalid_invoice e)
  pay_read (Read.ok invoice) requested created_at = pay_invoice invoice requested created_at

  unfoldable pub pay_either : Option Offer → Bytes → Option ℕ → ℕ → Action SendPaymentResponse
  unfolding pay_offer pay_read
  pay_either (some offer) text requested created_at = pay_offer offer requested created_at
  pay_either none text requested created_at =
      pay_read (lib.invoice_from_str text) requested created_at

  unfoldable pub send_payment : SendPaymentRequest → Action SendPaymentResponse
  unfolding pay_either get_current_timestamp
  send_payment payload = do
    created_at ← get_current_timestamp
    pay_either (lib.offer_from_str payload.invoice) payload.invoice payload.amt_msat created_at
