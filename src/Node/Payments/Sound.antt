-- ===== src/Node/Payments/Sound.antt =====
-- Every operation on the payment maps keeps the invariant.
use f1r3fly_rgb_lightning_no.Common.{ℕ, inl, inr, Option, Bytes, lookup, Option-cases, arith}
use f1r3fly_rgb_lightning_no.Node.State.{HtlcStatus, PaymentInfo, UnlockedAppState}
use f1r3fly_rgb_lightning_no.Node.Invariant.{IsSound, Keeps, SoundAfter}
use f1r3fly_rgb_lightning_no.Node.Payments.{
  add_inbound_payment, add_outbound_payment, upsert_inbound_payment, update_outbound_payment,
  update_outbound_payment_status,
}

add_inbound-SoundAfter :
    (h : Bytes) (i : PaymentInfo) (s : UnlockedAppState)
    → IsSound s
    → SoundAfter (add_inbound_payment h i s)
unfolding add_inbound_payment
add_inbound-SoundAfter h i s v = ground arith

pub add_inbound_payment-Keeps : (h : Bytes) (i : PaymentInfo) → Keeps (add_inbound_payment h i)
add_inbound_payment-Keeps h i = record { apply = add_inbound-SoundAfter h i }

add_outbound-SoundAfter :
    (id : Bytes) (i : PaymentInfo) (s : UnlockedAppState)
    → IsSound s
    → SoundAfter (add_outbound_payment id i s)
unfolding add_outbound_payment
add_outbound-SoundAfter id i s v = elim (Option-cases (lookup id s.outbound_payments)) [
  | inl new ↦ rw new (ground arith)
  | inr (old, found) ↦ rw found (ground arith)
]

pub add_outbound_payment-Keeps : (id : Bytes) (i : PaymentInfo) → Keeps (add_outbound_payment id i)
add_outbound_payment-Keeps id i = record { apply = add_outbound-SoundAfter id i }

upsert-SoundAfter :
    (h : Bytes) (st : HtlcStatus) (p q : Option Bytes) (a : Option ℕ) (k : Bytes)
    (s : UnlockedAppState)
    → IsSound s
    → SoundAfter (upsert_inbound_payment h st p q a k s)
unfolding upsert_inbound_payment
upsert-SoundAfter h st p q a k s v = ground arith

pub upsert_inbound_payment-Keeps :
    (h : Bytes) (st : HtlcStatus) (p q : Option Bytes) (a : Option ℕ) (k : Bytes)
    → Keeps (upsert_inbound_payment h st p q a k)
upsert_inbound_payment-Keeps h st p q a k = record { apply = upsert-SoundAfter h st p q a k }

update-SoundAfter :
    (id : Bytes) (st : HtlcStatus) (p : Option Bytes) (s : UnlockedAppState)
    → IsSound s
    → SoundAfter (update_outbound_payment id st p s)
unfolding update_outbound_payment
update-SoundAfter id st p s v = ground arith

pub update_outbound_payment-Keeps :
    (id : Bytes) (st : HtlcStatus) (p : Option Bytes) → Keeps (update_outbound_payment id st p)
update_outbound_payment-Keeps id st p = record { apply = update-SoundAfter id st p }

update_status-SoundAfter :
    (id : Bytes) (st : HtlcStatus) (s : UnlockedAppState)
    → IsSound s
    → SoundAfter (update_outbound_payment_status id st s)
unfolding update_outbound_payment_status
update_status-SoundAfter id st s v = ground arith

pub update_outbound_payment_status-Keeps :
    (id : Bytes) (st : HtlcStatus) → Keeps (update_outbound_payment_status id st)
update_outbound_payment_status-Keeps id st = record { apply = update_status-SoundAfter id st }
