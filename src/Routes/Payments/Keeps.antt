-- ===== src/Routes/Payments/Keeps.antt =====
-- `keysend`, `send_payment` and `ln_invoice` keep the invariant of the unlocked node.
use f1r3fly_rgb_lightning_no.Common.{ℕ, Bool, true, false, Option, none, some, Bytes}
use f1r3fly_rgb_lightning_no.Error.{ApiError}
use f1r3fly_rgb_lightning_no.Node.Invariant.{
  Keeps, bind-Keeps, pure-Keeps, fail-Keeps, unwrap-Keeps, or_fail-Keeps, fail_if-Keeps, call-Keeps,
  get_current_timestamp-Keeps,
}
use f1r3fly_rgb_lightning_no.Node.Payments.Sound.{
  add_inbound_payment-Keeps, add_outbound_payment-Keeps, update_outbound_payment_status-Keeps,
}
use f1r3fly_rgb_lightning_no.Routes.Payments.{
  PaymentLibrary, Offer, OfferAmount, Invoice, Read, note_payment, settle_payment,
}
use f1r3fly_rgb_lightning_no.Routes.Payments.Keysend.{
  KeysendRequest, keysend_rgb, pay_keysend, keysend,
}
use f1r3fly_rgb_lightning_no.Routes.Payments.Send.{
  SendPaymentRequest, settle_offer, settle_invoice, offer_amount, start_offer, pay_offer,
  invoice_amount, invoice_rgb, start_invoice, pay_invoice, pay_read, pay_either, send_payment,
}
use f1r3fly_rgb_lightning_no.Routes.Payments.Invoices.{
  LnInvoiceRequest, read_invoice, invoice_contract, publish_invoice, ln_invoice,
}

ruleset step_rules = (
  bind-Keeps, pure-Keeps, fail-Keeps, unwrap-Keeps, or_fail-Keeps, fail_if-Keeps, call-Keeps,
  get_current_timestamp-Keeps, add_inbound_payment-Keeps, add_outbound_payment-Keeps,
  update_outbound_payment_status-Keeps,
)

note_payment-Keeps : (h : Bytes) (o : Option (Bytes × ℕ)) → Keeps (note_payment h o)
unfolding note_payment
note_payment-Keeps h none = pure-Keeps tt
note_payment-Keeps h (some (c, n)) = call-Keeps _

settle_payment-Keeps : (id : Bytes) (b : Bool) → Keeps (settle_payment id b)
unfolding settle_payment
settle_payment-Keeps id false = pure-Keeps _
settle_payment-Keeps id true = search step_rules depth 6

settle_offer-Keeps : (id : Bytes) (b : Bool) → Keeps (settle_offer id b)
unfolding settle_offer
settle_offer-Keeps id false = pure-Keeps _
settle_offer-Keeps id true = search step_rules depth 8

settle_invoice-Keeps : (id : Bytes) (o : Option ℕ) (b : Bool) → Keeps (settle_invoice id o b)
unfolding settle_invoice
settle_invoice-Keeps id o true = settle_payment-Keeps id true
settle_invoice-Keeps id o false = search (settle_payment-Keeps, step_rules) depth 6

invoice_rgb-Keeps : (c : Option Bytes) (a : Option ℕ) (n : ℕ) → Keeps (invoice_rgb c a n)
unfolding invoice_rgb
invoice_rgb-Keeps (some c) (some a) n = search step_rules depth 6
invoice_rgb-Keeps none none n = pure-Keeps none
invoice_rgb-Keeps (some c) none n = fail-Keeps _
invoice_rgb-Keeps none (some a) n = fail-Keeps _

read_invoice-Keeps : (r : Read Invoice) (f : Bytes → ApiError) → Keeps (read_invoice r f)
unfolding read_invoice
read_invoice-Keeps (Read.ok i) f = pure-Keeps i
read_invoice-Keeps (Read.err e) f = fail-Keeps _

ruleset settle_rules = (
  step_rules, note_payment-Keeps, settle_payment-Keeps, settle_offer-Keeps, settle_invoice-Keeps,
  invoice_rgb-Keeps, read_invoice-Keeps,
)

module _ (lib : PaymentLibrary) where
  keysend_rgb-Keeps : (a : Option Bytes) (n : Option ℕ) → Keeps (keysend_rgb lib a n)
  unfolding keysend_rgb
  keysend_rgb-Keeps (some a) (some n) = search step_rules depth 6
  keysend_rgb-Keeps none none = pure-Keeps none
  keysend_rgb-Keeps (some a) none = fail-Keeps _
  keysend_rgb-Keeps none (some n) = fail-Keeps _

  -- `keysend` keeps the invariant on every path that does not panic.
  pub keysend-Keeps : (r : KeysendRequest) → Keeps (keysend lib r)
  unfolding keysend pay_keysend
  keysend-Keeps r = search (keysend_rgb-Keeps, settle_rules) depth 40

  offer_amount-Keeps : (a : Option OfferAmount) (n : Option ℕ) → Keeps (offer_amount lib a n)
  unfolding offer_amount
  offer_amount-Keeps (some (OfferAmount.bitcoin m)) n = pure-Keeps m
  offer_amount-Keeps (some (OfferAmount.currency c m)) (some n) = pure-Keeps n
  offer_amount-Keeps none (some n) = pure-Keeps n
  offer_amount-Keeps (some (OfferAmount.currency c m)) none = fail-Keeps _
  offer_amount-Keeps none none = fail-Keeps _

  invoice_amount-Keeps : (b : Bool) (i : Invoice) (n : Option ℕ) → Keeps (invoice_amount lib b i n)
  unfolding invoice_amount
  invoice_amount-Keeps true i n = search step_rules depth 6
  invoice_amount-Keeps false i n = search step_rules depth 6

  pay_read-Keeps : (r : Read Invoice) (n : Option ℕ) (now : ℕ) → Keeps (pay_read lib r n now)
  unfolding pay_read pay_invoice start_invoice
  pay_read-Keeps (Read.err m) n now = fail-Keeps _
  pay_read-Keeps (Read.ok i) n now = search (invoice_amount-Keeps, settle_rules) depth 40

  pay_either-Keeps :
      (o : Option Offer) (t : Bytes) (n : Option ℕ) (now : ℕ) → Keeps (pay_either lib o t n now)
  unfolding pay_either pay_offer start_offer
  pay_either-Keeps (some o) t n now = search (offer_amount-Keeps, settle_rules) depth 40
  pay_either-Keeps none t n now = pay_read-Keeps (lib.invoice_from_str t) n now

  -- `send_payment` keeps the invariant on every path that does not panic.
  pub send_payment-Keeps : (r : SendPaymentRequest) → Keeps (send_payment lib r)
  unfolding send_payment
  send_payment-Keeps r = search (pay_either-Keeps, step_rules) depth 6

  invoice_contract-Keeps : (o : Option Bytes) → Keeps (invoice_contract lib o)
  unfolding invoice_contract
  invoice_contract-Keeps none = pure-Keeps none
  invoice_contract-Keeps (some a) = search step_rules depth 6

  -- `ln_invoice` keeps the invariant on every path that does not panic.
  pub ln_invoice-Keeps : (r : LnInvoiceRequest) → Keeps (ln_invoice lib r)
  unfolding ln_invoice publish_invoice
  ln_invoice-Keeps r = search (invoice_contract-Keeps, settle_rules) depth 40
