-- ===== src/Routes/Payments/Awaited.antt =====
-- The invoice that `ln_invoice` makes, given to `invoice_status`.
use f1r3fly_rgb_lightning_no.Common.{
  ℕ, ◌≡◌, refl, Option, some, is_some, unwrap_or, ◌&&◌, ◌++◌, str, Bytes, ltb, lookup,
  lookup-insert, bytes_eq_refl, inl, inr, Bool-cases, if◌then◌else◌,
}
use f1r3fly_rgb_lightning_no.Error.{ApiError}
use f1r3fly_rgb_lightning_no.Outcome.{ok}
use f1r3fly_rgb_lightning_no.Node.{
  fail_if, HtlcStatus, PaymentInfo, UnlockedAppState, get_current_timestamp,
}
use f1r3fly_rgb_lightning_no.Node.Ensures.{Ensures, pure-Ensures, skip-Ensures, weaken-Ensures}
use f1r3fly_rgb_lightning_no.Node.Payments.{add_inbound_payment}
use f1r3fly_rgb_lightning_no.Routes.Amounts.{invoice_min_msat}
use f1r3fly_rgb_lightning_no.Decimal.{show_nat}
use f1r3fly_rgb_lightning_no.Routes.Payments.{PaymentLibrary, Invoice, Read, starting}
use f1r3fly_rgb_lightning_no.Routes.Payments.Invoices.{
  LnInvoiceRequest, InvoiceStatus, invoice_contract, publish_invoice, read_invoice, currency_of,
  ln_invoice, invoice_status,
}

-- An invoice that is printed is read back, with the payment hash that it has.
pub record ReadsBack (lib : PaymentLibrary) : Type 0 where
  pub read_back : Invoice → Invoice
  pub reads : (i : Invoice) → lib.invoice_from_str (lib.invoice_to_string i) ≡ Read.ok (read_back i)
  pub same_hash : (i : Invoice) → (read_back i).payment_hash ≡ i.payment_hash

-- The text of an invoice that awaits its payment: it reads as an invoice, and its status follows the expiry of that one.
pub record Awaits (lib : PaymentLibrary) (text : Bytes) (s : UnlockedAppState) : Type 0 where
  pub invoice : Invoice
  pub reads : lib.invoice_from_str text ≡ Read.ok invoice
  pub status :
      invoice_status lib text s
      ≡ (ok (if invoice.is_expired then InvoiceStatus.expired else InvoiceStatus.pending), s)

add_inbound_payment-Ensures :
    (h : Bytes) (p : PaymentInfo)
    → Ensures (add_inbound_payment h p) (λ _ s. lookup h s.inbound_payments ≡ some p)
unfolding add_inbound_payment
add_inbound_payment-Ensures h p = record {
  apply = λ s. elim (Bool-cases s.write_fails) [
    | inl bad ↦ rw bad tt
    | inr good ↦ rw good (rw (lookup-insert h h p s.inbound_payments, bytes_eq_refl h) refl)
  ];
}

module _ (lib : PaymentLibrary) (back : ReadsBack lib) where
  stored-Awaits :
      (i : Invoice) (p : PaymentInfo) (s : UnlockedAppState)
      → lookup i.payment_hash s.inbound_payments ≡ some p
      → p.status ≡ HtlcStatus.pending
      → Awaits lib (lib.invoice_to_string i) s
  unfolding invoice_status read_invoice
  stored-Awaits i p s found is_pending = record {
    invoice = back.read_back i;
    reads = back.reads i;
    status = rw (back.reads i, back.same_hash i, found, is_pending) refl;
  }

  publish_invoice-Ensures :
      (i : Invoice) (n : Option ℕ) → Ensures (publish_invoice lib i n) (Awaits lib)
  unfolding publish_invoice starting
  publish_invoice-Ensures i n = skip-Ensures get_current_timestamp _ λ now.
      pure-Ensures (Awaits lib)
        (add_inbound_payment i.payment_hash
          (starting (some i.payment_secret) n now lib.our_node_id))
        (lib.invoice_to_string i)
        (weaken-Ensures _ _ _
          (add_inbound_payment-Ensures i.payment_hash
            (starting (some i.payment_secret) n now lib.our_node_id))
          (λ _ s found.
            stored-Awaits i (starting (some i.payment_secret) n now lib.our_node_id) s found refl))

  -- With a library that reads back the invoices that it prints, the text that `ln_invoice` returns reads as an invoice, and
  -- `invoice_status` reports that text as expired if this invoice has expired, and as pending if it has not.
  pub ln_invoice-Awaits : (r : LnInvoiceRequest) → Ensures (ln_invoice lib r) (Awaits lib)
  unfolding ln_invoice
  ln_invoice-Awaits r = skip-Ensures (invoice_contract lib r.asset_id) _ λ c.
      skip-Ensures
        (fail_if (is_some c && ltb (unwrap_or r.amt_msat 0) invoice_min_msat) (
          ApiError.invalid_amount (
            str "amt_msat cannot be less than "
            ++ (show_nat invoice_min_msat ++ str " when transferring an RGB asset"))))
        _
        λ _.
          skip-Ensures
            (read_invoice
              (lib.create_invoice (currency_of lib.network) r.amt_msat r.expiry_sec c
                r.asset_amount)
              ApiError.failed_invoice_creation)
            (λ i. publish_invoice lib i r.amt_msat) (λ i. publish_invoice-Ensures i r.amt_msat)
