-- ===== src/Routes/Payments/Duplicate.antt =====
-- An invoice is not paid twice: `send_payment` for an invoice whose payment is not a failed one.
use f1r3fly_rgb_lightning_no.Common.{
  ℕ, ◌+◌, ◌≡◌, ◌≢◌, refl, ◌∙◌, str, Bool, true, false, Option, none, some, Bytes, lookup,
}
use f1r3fly_rgb_lightning_no.Error.{ApiError}
use f1r3fly_rgb_lightning_no.Outcome.{Outcome, ok, err, panicked}
use f1r3fly_rgb_lightning_no.Node.{
  pure, ◌>>◌, Action, fail_if, or_fail, HtlcStatus, PaymentInfo, UnlockedAppState, ◌>>=◌, bind-err,
  get_current_timestamp,
}
use f1r3fly_rgb_lightning_no.Node.Payments.{add_outbound_payment}
use f1r3fly_rgb_lightning_no.Node.Payments.Outbound.{add_outbound_payment_duplicate}
use f1r3fly_rgb_lightning_no.Routes.Payments.{PaymentLibrary, Invoice, Read}
use f1r3fly_rgb_lightning_no.Routes.Payments.Send.{
  SendPaymentRequest, is_zero_amount, invoice_amount, invoice_rgb, start_invoice, pay_invoice,
  pay_read, pay_either, send_payment,
}

abbrev pub IsRefused : {A : Type 0} → Outcome A → Type 0
IsRefused (ok _) = ⊥
IsRefused (err _) = Unit
IsRefused panicked = ⊥

-- An error, with the outbound payments and the library untouched.
abbrev pub Untouched : {A : Type 0} → UnlockedAppState → Outcome A × UnlockedAppState → Type 0
Untouched s (r, t) = IsRefused r × (t.outbound_payments ≡ s.outbound_payments) × (t.calls ≡ s.calls)

-- A step that touches neither, and does not panic.
abbrev Calm : {A : Type 0} → UnlockedAppState → Outcome A × UnlockedAppState → Type 0
Calm s (panicked, t) = ⊥
Calm s (_, t) = (t.outbound_payments ≡ s.outbound_payments) × (t.calls ≡ s.calls)

module _ (id : Bytes) (old : PaymentInfo) where
  record Refuses {A : Type 0} (m : Action A) : Type 0 where
    apply : (s : UnlockedAppState) → lookup id s.outbound_payments ≡ some old → Untouched s (m s)

  after-Calm :
      {A B : Type 0} (s : UnlockedAppState) (r : Outcome A × UnlockedAppState) (f : A → Action B)
      → Calm s r
      → ((a : A) → Refuses (f a))
      → lookup id s.outbound_payments ≡ some old
      → Untouched s (((λ _. r) >>= f) s)
  after-Calm s (ok a, t) f c k found =
      let u = (k a).apply t (rw c.0 found) in (u.0, u.1 ∙ c.0, u.2 ∙ c.1)
  after-Calm s (err e, t) f c k found = (tt, c.0, c.1)
  after-Calm s (panicked, t) f c k found = absurd c

  bind-Refuses :
      {A B : Type 0} (m : Action A) (f : A → Action B)
      → ((s : UnlockedAppState) → Calm s (m s))
      → ((a : A) → Refuses (f a))
      → Refuses (m >>= f)
  bind-Refuses m f c k = record { apply = λ s found. after-Calm s (m s) f (c s) k found }

or_fail-Calm :
    {A : Type 0} (o : Option A) (e : ApiError) (s : UnlockedAppState) → Calm s (or_fail o e s)
or_fail-Calm none e s = (refl, refl)
or_fail-Calm (some a) e s = (refl, refl)

checked-Calm :
    {A : Type 0} (c : Bool) (e : ApiError) (a : A) (s : UnlockedAppState)
    → Calm s ((fail_if c e >> pure a) s)
checked-Calm true e a s = (refl, refl)
checked-Calm false e a s = (refl, refl)

invoice_amount-Calm :
    (lib : PaymentLibrary) (b : Bool) (i : Invoice) (n : Option ℕ) (s : UnlockedAppState)
    → Calm s (invoice_amount lib b i n s)
unfolding invoice_amount
invoice_amount-Calm lib true i none s = (refl, refl)
invoice_amount-Calm lib true i (some n) s = (refl, refl)
invoice_amount-Calm lib false i n s = checked-Calm _ _ _ s

invoice_rgb-Calm :
    (c : Option Bytes) (a : Option ℕ) (n : ℕ) (s : UnlockedAppState) → Calm s (invoice_rgb c a n s)
unfolding invoice_rgb
invoice_rgb-Calm (some c) (some a) n s = checked-Calm _ _ _ s
invoice_rgb-Calm (some c) none n s = (refl, refl)
invoice_rgb-Calm none (some a) n s = (refl, refl)
invoice_rgb-Calm none none n s = (refl, refl)

refused-add :
    {A : Type 0} (id : Bytes) (info old : PaymentInfo) (f : Unit {0} → Action A)
    → old.status ≢ HtlcStatus.failed
    → Refuses id old (add_outbound_payment id info >>= f)
refused-add id info old f ne = record {
  apply = λ s found.
      rw
        (bind-err (add_outbound_payment id info) f
          (add_outbound_payment_duplicate id info old s found ne))
        (tt, refl, refl);
}

module _ (lib : PaymentLibrary) (i : Invoice) (old : PaymentInfo)
    (ne : old.status ≢ HtlcStatus.failed) where
  start_invoice-Refuses :
      (hash : Bytes) (amt : ℕ) (rgb : Option (Bytes × ℕ)) (now : ℕ)
      → Refuses i.payment_hash old (start_invoice lib i hash amt rgb now)
  unfolding start_invoice
  start_invoice-Refuses hash amt rgb now = search refused-add depth 3

  pay_invoice-Refuses :
      (n : Option ℕ) (now : ℕ) → Refuses i.payment_hash old (pay_invoice lib i n now)
  unfolding pay_invoice
  pay_invoice-Refuses n now =
      bind-Refuses i.payment_hash old
        (invoice_amount lib (is_zero_amount i.amount_milli_satoshis) i n) _
        (invoice_amount-Calm lib (is_zero_amount i.amount_milli_satoshis) i n)
        λ params.
          bind-Refuses i.payment_hash old
            (or_fail params.0 (ApiError.invalid_invoice (str "failed to parse invoice: ()"))) _
            (or_fail-Calm _ _)
            λ hash.
              bind-Refuses i.payment_hash old (invoice_rgb i.rgb_contract_id i.rgb_amount params.1)
                (λ rgb. start_invoice lib i hash params.1 rgb now)
                (invoice_rgb-Calm i.rgb_contract_id i.rgb_amount params.1)
                λ rgb. start_invoice-Refuses hash params.1 rgb now

-- An invoice is not paid twice: for an invoice whose payment hash is the id of a stored payment that
-- has not failed, `send_payment` returns an error, and neither changes a stored outbound payment nor
-- calls the library.
pub send_payment_twice :
    (lib : PaymentLibrary) (r : SendPaymentRequest) (i : Invoice) (old : PaymentInfo)
    (s : UnlockedAppState)
    → lib.offer_from_str r.invoice ≡ none
    → lib.invoice_from_str r.invoice ≡ Read.ok i
    → lookup i.payment_hash s.outbound_payments ≡ some old
    → old.status ≢ HtlcStatus.failed
    → Untouched s (send_payment lib r s)
unfolding send_payment pay_either pay_read get_current_timestamp
send_payment_twice lib r i old s no_offer parses found ne =
    rw (no_offer, parses)
      ((pay_invoice-Refuses lib i old ne r.amt_msat (s.clock s.ticks)).apply
        (record s { ticks = s.ticks + 1 }) found)
