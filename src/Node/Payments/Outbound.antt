-- ===== src/Node/Payments/Outbound.antt =====
-- Adding and updating payments: what each does to the maps, on every branch.
use f1r3fly_rgb_lightning_no.Common.{
  ◌+◌, ◌≡◌, ◌≢◌, inl, inr, false, Option, some, Bytes, lookup, insert, Option-cases, arith,
}
use f1r3fly_rgb_lightning_no.Error.{ApiError}
use f1r3fly_rgb_lightning_no.Outcome.{ok, err}
use f1r3fly_rgb_lightning_no.Node.State.{HtlcStatus, PaymentInfo, UnlockedAppState}
use f1r3fly_rgb_lightning_no.Node.Payments.{
  show_status, add_outbound_payment, update_outbound_payment, update_outbound_payment_status,
}

abbrev pub with_outbound : Bytes → PaymentInfo → UnlockedAppState → UnlockedAppState
with_outbound id info s = record s {
  outbound_payments = insert id info s.outbound_payments;
  fs_store = record s.fs_store { outbound_payments = insert id info s.outbound_payments };
}

-- A payment id in use by a payment that has not failed is refused, and nothing changes.
pub add_outbound_payment_duplicate :
    (id : Bytes) (info old : PaymentInfo) (s : UnlockedAppState)
    → lookup id s.outbound_payments ≡ some old
    → old.status ≢ HtlcStatus.failed
    → add_outbound_payment id info s
      ≡ (err (ApiError.duplicate_payment (show_status old.status)), s)
unfolding add_outbound_payment
add_outbound_payment_duplicate id info old s found ne = rw found (ground arith)

-- A fresh id, or one of a failed payment, is taken by the new payment.
pub add_outbound_payment_fresh :
    (id : Bytes) (info : PaymentInfo) (s : UnlockedAppState)
    → ((old : PaymentInfo)
        → lookup id s.outbound_payments ≡ some old
        → old.status ≡ HtlcStatus.failed)
    → s.write_fails ≡ false
    → add_outbound_payment id info s ≡ (ok tt, with_outbound id info s)
unfolding add_outbound_payment
add_outbound_payment_fresh id info s free w = elim (Option-cases (lookup id s.outbound_payments)) [
  | inl new ↦ rw new (simp w)
  | inr (old, found) ↦ rw found (ground (arith, free old found))
]

pub update_outbound_payment_status_lem :
    (id : Bytes) (status : HtlcStatus) (old : PaymentInfo) (s : UnlockedAppState)
    → lookup id s.outbound_payments ≡ some old
    → s.write_fails ≡ false
    → update_outbound_payment_status id status s ≡ (
      ok tt,
      with_outbound id
          (record old { status = status; updated_at = s.clock s.ticks })
          (record s { ticks = s.ticks + 1 }),
    )
unfolding update_outbound_payment_status
update_outbound_payment_status_lem id status old s found w = rw found (simp w)

pub update_outbound_payment_lem :
    (id : Bytes) (status : HtlcStatus) (preimage : Option Bytes) (old : PaymentInfo)
    (s : UnlockedAppState)
    → lookup id s.outbound_payments ≡ some old
    → s.write_fails ≡ false
    → let info : PaymentInfo = record old {
      status = status;
      preimage = preimage;
      updated_at = s.clock s.ticks;
    } in
      update_outbound_payment id status preimage s
      ≡ (ok info, with_outbound id info (record s { ticks = s.ticks + 1 }))
unfolding update_outbound_payment
update_outbound_payment_lem id status preimage old s found w = rw found (ground arith)
