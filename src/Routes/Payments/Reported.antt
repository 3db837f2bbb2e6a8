-- ===== src/Routes/Payments/Reported.antt =====
-- The status that `keysend` and `send_payment` report is the one under which the payment is stored.
use f1r3fly_rgb_lightning_no.Common.{ℕ, ◌≡◌, refl, Option, none, some, Bytes, str}
use f1r3fly_rgb_lightning_no.Error.{ApiError}
use f1r3fly_rgb_lightning_no.Hex.{hex_str_to_compressed_pubkey, hex_str}
use f1r3fly_rgb_lightning_no.Node.{
  pure, or_fail, fail_if, call, LibraryCall, HtlcStatus, UnlockedAppState, get_current_timestamp,
}
use f1r3fly_rgb_lightning_no.Node.Ensures.{Ensures, bind-Leads, then-Ensures, skip-Ensures}
use f1r3fly_rgb_lightning_no.Node.Payments.{add_outbound_payment}
use f1r3fly_rgb_lightning_no.Routes.Payments.{
  PaymentLibrary, Offer, Invoice, Read, note_payment, settle_payment, starting,
}
use f1r3fly_rgb_lightning_no.Routes.Payments.Keysend.{
  KeysendRequest, KeysendResponse, keysend_rgb, pay_keysend, keysend,
}
use f1r3fly_rgb_lightning_no.Routes.Payments.Send.{
  SendPaymentRequest, SendPaymentResponse, settle_offer, settle_invoice, offer_amount,
  is_zero_amount, invoice_amount, invoice_rgb, start_offer, pay_offer, start_invoice, pay_invoice,
  pay_read, pay_either, send_payment,
}
use f1r3fly_rgb_lightning_no.Routes.Payments.Stored.{
  IsOutbound, add_outbound_payment-Ensures, call-Leads, note_payment-Leads, settle_payment-Leads,
  settle_offer-Leads, settle_invoice-Leads,
}

-- What `keysend` answers: the payment's hash and preimage, and the status under which it is stored.
abbrev pub KeysendReported : PaymentLibrary → KeysendResponse → UnlockedAppState → Type 0
KeysendReported lib a s =
    (a.payment_preimage ≡ hex_str lib.random_bytes)
    × (a.payment_hash ≡ hex_str (lib.sha256 lib.random_bytes))
    × IsOutbound (lib.sha256 lib.random_bytes) a.status s

module _ (lib : PaymentLibrary) where
  pay_keysend-Ensures :
      (dest : Bytes) (amt : ℕ) (rgb : Option (Bytes × ℕ))
      → Ensures (pay_keysend lib dest amt rgb) (KeysendReported lib)
  unfolding pay_keysend starting
  pay_keysend-Ensures dest amt rgb =
      let id = lib.sha256 lib.random_bytes in
      skip-Ensures get_current_timestamp _ λ now.
        then-Ensures (λ _. IsOutbound id HtlcStatus.pending)
          (add_outbound_payment id (starting none (some amt) now dest)) _
          (add_outbound_payment-Ensures id _)
          λ _.
            bind-Leads (λ _. IsOutbound id HtlcStatus.pending) (note_payment id rgb) _
              (note_payment-Leads id rgb id _)
              λ _.
                bind-Leads (λ _. IsOutbound id HtlcStatus.pending)
                  (call (LibraryCall.send_spontaneous_payment_with_retry id)) _ (call-Leads _ id _)
                  λ _.
                    bind-Leads (IsOutbound id)
                      (settle_payment id (lib.keysend_fails dest amt rgb lib.random_bytes))
                      (λ st. pure (record {
                        payment_hash = hex_str id;
                        payment_preimage = hex_str lib.random_bytes;
                        status = st;
                      }))
                      (settle_payment-Leads id _) λ st. record { apply = λ s h. (refl, refl, h) }

  -- Whenever `keysend` returns, its answer has the hash and the preimage of the payment, and the
  -- payment is stored under the status of the answer.
  pub keysend_reports : (r : KeysendRequest) → Ensures (keysend lib r) (KeysendReported lib)
  unfolding keysend
  keysend_reports r =
      skip-Ensures
        (or_fail (hex_str_to_compressed_pubkey lib.pubkey_from_slice r.dest_pubkey)
          ApiError.invalid_pubkey)
        _
        λ dest. skip-Ensures (fail_if _ _) _ λ _.
          skip-Ensures (keysend_rgb lib r.asset_id r.asset_amount) (pay_keysend lib dest r.amt_msat)
            λ rgb. pay_keysend-Ensures dest r.amt_msat rgb

-- What `send_payment` answers: the id of a payment that is stored under the status of the answer.
pub record SendReported (a : SendPaymentResponse) (s : UnlockedAppState) : Type 0 where
  pub id : Bytes
  pub payment_id : a.payment_id ≡ hex_str id
  pub stored : IsOutbound id a.status s

module _ (lib : PaymentLibrary) where
  start_offer-Ensures : (o : Offer) (amt now : ℕ) → Ensures (start_offer lib o amt now) SendReported
  unfolding start_offer starting
  start_offer-Ensures o amt now =
      let id = lib.random_bytes in
      skip-Ensures
        (or_fail o.signing_pubkey (ApiError.invalid_invoice (str "missing signing pubkey"))) _
        λ payee.
          then-Ensures (λ _. IsOutbound id HtlcStatus.pending)
            (add_outbound_payment id (starting none (some amt) now payee)) _
            (add_outbound_payment-Ensures id _)
            λ _.
              bind-Leads (λ _. IsOutbound id HtlcStatus.pending)
                (call (LibraryCall.pay_for_offer id)) _ (call-Leads _ id _)
                λ _.
                  bind-Leads (IsOutbound id) (settle_offer id (lib.pay_for_offer_fails o amt id))
                    (λ st. pure (record {
                      payment_id = hex_str id;
                      payment_hash = none;
                      payment_secret = none;
                      status = st;
                    }))
                    (settle_offer-Leads id _)
                    λ st. record {
                      apply = λ s h. record { id = id; payment_id = refl; stored = h };
                    }

  start_invoice-Ensures :
      (i : Invoice) (hash : Bytes) (amt : ℕ) (rgb : Option (Bytes × ℕ)) (now : ℕ)
      → Ensures (start_invoice lib i hash amt rgb now) SendReported
  unfolding start_invoice starting
  start_invoice-Ensures i hash amt rgb now =
      let id = i.payment_hash in
      then-Ensures (λ _. IsOutbound id HtlcStatus.pending)
        (add_outbound_payment id
          (starting (some i.payment_secret) i.amount_milli_satoshis now i.payee_pub_key))
        _ (add_outbound_payment-Ensures id _)
        λ _.
          bind-Leads (λ _. IsOutbound id HtlcStatus.pending) (note_payment hash rgb) _
            (note_payment-Leads hash rgb id _)
            λ _.
              bind-Leads (λ _. IsOutbound id HtlcStatus.pending)
                (call (LibraryCall.send_payment id)) _ (call-Leads _ id _)
                λ _.
                  bind-Leads (IsOutbound id)
                    (settle_invoice id i.amount_milli_satoshis (lib.send_payment_fails i amt rgb))
                    (λ st. pure (record {
                      payment_id = hex_str id;
                      payment_hash = some (hex_str hash);
                      payment_secret = some (hex_str i.payment_secret);
                      status = st;
                    }))
                    (settle_invoice-Leads id _ _)
                    λ st. record {
                      apply = λ s h. record { id = id; payment_id = refl; stored = h };
                    }

  pay_read-Ensures :
      (i : Read Invoice) (requested : Option ℕ) (now : ℕ)
      → Ensures (pay_read lib i requested now) SendReported
  unfolding pay_read pay_invoice
  pay_read-Ensures (Read.err e) requested now = record { apply = λ s. tt }
  pay_read-Ensures (Read.ok i) requested now =
      skip-Ensures (invoice_amount lib (is_zero_amount i.amount_milli_satoshis) i requested) _
        λ params.
          skip-Ensures
            (or_fail params.0 (ApiError.invalid_invoice (str "failed to parse invoice: ()"))) _
            λ hash.
              skip-Ensures (invoice_rgb i.rgb_contract_id i.rgb_amount params.1)
                (λ rgb. start_invoice lib i hash params.1 rgb now)
                λ rgb. start_invoice-Ensures i hash params.1 rgb now

  pay_either-Ensures :
      (o : Option Offer) (t : Bytes) (requested : Option ℕ) (now : ℕ)
      → Ensures (pay_either lib o t requested now) SendReported
  unfolding pay_either pay_offer
  pay_either-Ensures (some o) t requested now =
      skip-Ensures (offer_amount lib o.amount requested) _ λ amt.
        skip-Ensures (fail_if _ _) (λ _. start_offer lib o amt now)
          (λ _. start_offer-Ensures o amt now)
  pay_either-Ensures none t requested now = pay_read-Ensures (lib.invoice_from_str t) requested now

  -- Whenever `send_payment` returns, for an offer or an invoice, the payment of the answer's id is
  -- stored under the status of the answer.
  pub send_payment_reports : (r : SendPaymentRequest) → Ensures (send_payment lib r) SendReported
  unfolding send_payment
  send_payment_reports r =
      skip-Ensures get_current_timestamp _
        (λ now. pay_either-Ensures (lib.offer_from_str r.invoice) r.invoice r.amt_msat now)
