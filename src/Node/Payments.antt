-- ===== src/Node/Payments.antt =====
-- The payment maps of the unlocked node (src/ldk.rs).
pub mod Sound
pub mod Outbound
pub mod Recovery
use f1r3fly_rgb_lightning_no.Common.{
  ℕ, Bool, true, false, ◌||◌, ◌&&◌, not, Option, none, some, List, [], ◌∷◌, Bytes, Map, lookup,
  insert, str, contains, if◌then◌else◌,
}
use f1r3fly_rgb_lightning_no.Error.{ApiError}
use f1r3fly_rgb_lightning_no.Node.State.{HtlcStatus, PaymentInfo}
use f1r3fly_rgb_lightning_no.Node.Monad.{
  Action, pure, fail, gets, unwrap, modify, write_store, ◌>>=◌, ◌>>◌, get_current_timestamp,
}

-- The derived `Display` of `HTLCStatus`: the variant's name.
unfoldable pub show_status : HtlcStatus → Bytes
show_status HtlcStatus.pending = str "Pending"
show_status HtlcStatus.succeeded = str "Succeeded"
show_status HtlcStatus.failed = str "Failed"

abbrev pub is_failed : HtlcStatus → Bool
is_failed HtlcStatus.failed = true
is_failed _ = false

abbrev pub is_pending : HtlcStatus → Bool
is_pending HtlcStatus.pending = true
is_pending _ = false

unfoldable pub save_inbound_payments : Action (Unit {0})
save_inbound_payments =
    write_store
      λ s. record s { fs_store = record s.fs_store { inbound_payments = s.inbound_payments } }

unfoldable pub save_outbound_payments : Action (Unit {0})
save_outbound_payments =
    write_store
      λ s. record s { fs_store = record s.fs_store { outbound_payments = s.outbound_payments } }

unfoldable pub add_inbound_payment : Bytes → PaymentInfo → Action (Unit {0})
unfolding save_inbound_payments
add_inbound_payment hash info = do
  modify (λ s. record s { inbound_payments = insert hash info s.inbound_payments })
  save_inbound_payments

-- The test for a payment of this id that has not failed.
abbrev check_duplicate : Option PaymentInfo → Action (Unit {0})
check_duplicate none = pure tt
check_duplicate (some existing) =
    if is_failed existing.status
    then pure tt
    else fail (ApiError.duplicate_payment (show_status existing.status))

unfoldable pub add_outbound_payment : Bytes → PaymentInfo → Action (Unit {0})
unfolding save_outbound_payments
add_outbound_payment id info = do
  check_duplicate (← gets (λ s. lookup id s.outbound_payments))
  modify (λ s. record s { outbound_payments = insert id info s.outbound_payments })
  save_outbound_payments

-- The loop of `fail_outbound_pending_payments`, with the flag `failed`.
unfoldable pub fail_pending : List Bytes → Map PaymentInfo → Action (Map PaymentInfo × Bool)
unfolding get_current_timestamp
fail_pending recent [] = pure ([], false)
fail_pending recent ((id, info) ∷ rest) = do
  let lost = is_pending info.status && not (contains recent id)
  info' ←
      if lost
      then (do
        now ← get_current_timestamp
        pure (record info { status = HtlcStatus.failed; updated_at = now }))
      else pure info
  r ← fail_pending recent rest
  pure ((id, info') ∷ r.0, lost || r.1)

unfoldable pub fail_outbound_pending_payments : List Bytes → Action (Unit {0})
unfolding fail_pending save_outbound_payments
fail_outbound_pending_payments recent = do
  outbound ← gets (λ s. s.outbound_payments)
  r ← fail_pending recent outbound
  modify (λ s. record s { outbound_payments = r.0 })
  if r.1 then save_outbound_payments else pure tt

unfoldable pub upsert_inbound_payment :
    Bytes → HtlcStatus → Option Bytes → Option Bytes → Option ℕ → Bytes → Action (Unit {0})
unfolding save_inbound_payments get_current_timestamp
upsert_inbound_payment hash status preimage secret amt_msat payee_pubkey = do
  old ← gets (λ s. lookup hash s.inbound_payments)
  now ← get_current_timestamp
  let info : PaymentInfo = elim old [
    | some p ↦ record p { status = status; preimage = preimage; secret = secret; updated_at = now }
    | none ↦ record {
      preimage = preimage;
      secret = secret;
      status = status;
      amt_msat = amt_msat;
      created_at = now;
      updated_at = now;
      payee_pubkey = payee_pubkey;
    }
  ]
  modify (λ s. record s { inbound_payments = insert hash info s.inbound_payments })
  save_inbound_payments

unfoldable pub update_outbound_payment : Bytes → HtlcStatus → Option Bytes → Action PaymentInfo
unfolding save_outbound_payments get_current_timestamp
update_outbound_payment id status preimage = do
  old ← gets (λ s. lookup id s.outbound_payments)
  info ← unwrap old
  now ← get_current_timestamp
  let info' : PaymentInfo = record info { status = status; preimage = preimage; updated_at = now }
  modify (λ s. record s { outbound_payments = insert id info' s.outbound_payments })
  save_outbound_payments
  pure info'

unfoldable pub update_outbound_payment_status : Bytes → HtlcStatus → Action (Unit {0})
unfolding save_outbound_payments get_current_timestamp
update_outbound_payment_status id status = do
  old ← gets (λ s. lookup id s.outbound_payments)
  info ← unwrap old
  now ← get_current_timestamp
  let info' : PaymentInfo = record info { status = status; updated_at = now }
  modify (λ s. record s { outbound_payments = insert id info' s.outbound_payments })
  save_outbound_payments
