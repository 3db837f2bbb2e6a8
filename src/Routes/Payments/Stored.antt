-- ===== src/Routes/Payments/Stored.antt =====
-- What the steps of `keysend` and `send_payment` leave of the status of a stored payment.
use mathlib.Core.Option
use f1r3fly_rgb_lightning_no.Common.{
  ℕ, ◌+◌, ◌≡◌, refl, Bool, true, false, Option, none, some, Bytes, lookup, lookup-insert,
  bytes_eq_refl, inl, inr, Bool-cases, Option-cases, arith,
}
use f1r3fly_rgb_lightning_no.Node.{
  Action, pure, call, LibraryCall, HtlcStatus, PaymentInfo, UnlockedAppState, ◌>>◌,
  get_current_timestamp,
}
use f1r3fly_rgb_lightning_no.Node.Ensures.{OkWith, Ensures, Leads, then-Ensures, skip-Ensures}
use f1r3fly_rgb_lightning_no.Node.Payments.{add_outbound_payment, update_outbound_payment_status}
use f1r3fly_rgb_lightning_no.Node.Payments.Outbound.{
  with_outbound, update_outbound_payment_status_lem,
}
use f1r3fly_rgb_lightning_no.Routes.Payments.{note_payment, settle_payment}
use f1r3fly_rgb_lightning_no.Routes.Payments.Send.{settle_offer, settle_invoice}

-- An outbound payment is stored under a status.
abbrev pub IsOutbound : Bytes → HtlcStatus → UnlockedAppState → Type 0
IsOutbound id st s =
    Option.map (λ (p : PaymentInfo). p.status) (lookup id s.outbound_payments) ≡ some st

pub add_outbound_payment-Ensures :
    (id : Bytes) (info : PaymentInfo)
    → Ensures (add_outbound_payment id info) (λ _ s. IsOutbound id info.status s)
unfolding add_outbound_payment
add_outbound_payment-Ensures id info = record {
  apply = λ s. ground (arith, lookup-insert id id info s.outbound_payments, bytes_eq_refl id);
}

pub stored-IsOutbound :
    (id : Bytes) (info : PaymentInfo) (s : UnlockedAppState)
    → IsOutbound id info.status (with_outbound id info s)
stored-IsOutbound id info s =
    rw (lookup-insert id id info s.outbound_payments, bytes_eq_refl id) refl

pub update-OkWith :
    (id : Bytes) (st : HtlcStatus) (s : UnlockedAppState)
    → OkWith (λ (_ : Unit {0}) t. IsOutbound id st t) (update_outbound_payment_status id st s)
unfolding update_outbound_payment_status get_current_timestamp
update-OkWith id st s = elim (Option-cases (lookup id s.outbound_payments)) [
  | inl new ↦ rw new tt
  | inr (old, found) ↦ elim (Bool-cases s.write_fails) [
    | inl bad ↦ rw (found, bad) tt
    | inr good ↦ rw (update_outbound_payment_status_lem id st old s found good) (
        stored-IsOutbound id (record old { status = st; updated_at = s.clock s.ticks })
          (record s { ticks = s.ticks + 1 }))
  ]
]

pub update-Ensures :
    (id : Bytes) (st : HtlcStatus)
    → Ensures (update_outbound_payment_status id st) (λ _ s. IsOutbound id st s)
update-Ensures id st = record { apply = update-OkWith id st }

pub call-Leads :
    (c : LibraryCall) (id : Bytes) (st : HtlcStatus)
    → Leads (IsOutbound id st) (call c) (λ _ s. IsOutbound id st s)
call-Leads c id st = record { apply = λ s h. h }

pub note_payment-Leads :
    (hash : Bytes) (rgb : Option (Bytes × ℕ)) (id : Bytes) (st : HtlcStatus)
    → Leads (IsOutbound id st) (note_payment hash rgb) (λ _ s. IsOutbound id st s)
unfolding note_payment
note_payment-Leads hash none id st = record { apply = λ s h. h }
note_payment-Leads hash (some (c, n)) id st = record { apply = λ s h. h }

pub lead :
    {A : Type 0} {R : UnlockedAppState → Type 0} {P : A → UnlockedAppState → Type 0} (m : Action A)
    → Ensures m P
    → Leads R m P
lead m h = record { apply = λ s _. h.apply s }

pub failed-Ensures :
    (id : Bytes)
    → Ensures
        (update_outbound_payment_status id HtlcStatus.failed >> pure HtlcStatus.failed)
        (IsOutbound id)
failed-Ensures id =
    then-Ensures (λ _. IsOutbound id HtlcStatus.failed) _ (λ _. pure HtlcStatus.failed)
      (update-Ensures id HtlcStatus.failed) (λ _. record { apply = λ s h. h })

pub settle_payment-Leads :
    (id : Bytes) (fails : Bool)
    → Leads (IsOutbound id HtlcStatus.pending) (settle_payment id fails) (IsOutbound id)
unfolding settle_payment
settle_payment-Leads id false = record { apply = λ s h. h }
settle_payment-Leads id true = lead _ (failed-Ensures id)

pub settle_offer-Leads :
    (id : Bytes) (fails : Bool)
    → Leads (IsOutbound id HtlcStatus.pending) (settle_offer id fails) (IsOutbound id)
unfolding settle_offer
settle_offer-Leads id false = record { apply = λ s h. h }
settle_offer-Leads id true = lead _ (
    skip-Ensures (update_outbound_payment_status id HtlcStatus.failed)
      (λ _. update_outbound_payment_status id HtlcStatus.failed >> pure HtlcStatus.failed)
      (λ _. failed-Ensures id))

pub settle_invoice-Leads :
    (id : Bytes) (amount : Option ℕ) (fails : Bool)
    → Leads (IsOutbound id HtlcStatus.pending) (settle_invoice id amount fails) (IsOutbound id)
unfolding settle_invoice
settle_invoice-Leads id amount true = settle_payment-Leads id true
settle_invoice-Leads id none false = record { apply = λ s h. tt }
settle_invoice-Leads id (some n) false = settle_payment-Leads id false
