-- ===== src/Tests/Payments.antt =====
-- The payment maps and the payment handlers on concrete nodes.
use mathlib.Core.Option
use f1r3fly_rgb_lightning_no.Common.{
  ◌≡◌, ◌≢◌, refl, true, false, none, some, List, [], ◌∷◌, Bytes, str, lookup, bytes_eq, arith,
}
use f1r3fly_rgb_lightning_no.Error.{BitcoinNetwork}
use f1r3fly_rgb_lightning_no.Outcome.{ok}
use f1r3fly_rgb_lightning_no.Hex.{hex_str, hex_str_to_vec}
use f1r3fly_rgb_lightning_no.Hex.Laws.{hex_str_to_vec-hex_str}
use f1r3fly_rgb_lightning_no.Swap.{to_array32}
use f1r3fly_rgb_lightning_no.Node.{PaymentInfo, HtlcStatus}
use f1r3fly_rgb_lightning_no.Node.Ensures.{Ensures}
use f1r3fly_rgb_lightning_no.Node.Payments.{fail_outbound_pending_payments}
use f1r3fly_rgb_lightning_no.Node.Payments.Recovery.{recovered, fail_outbound_pending_payments_lem}
use f1r3fly_rgb_lightning_no.Routes.Payments.{PaymentLibrary, Invoice, Read}
use f1r3fly_rgb_lightning_no.Routes.Payments.Keysend.{KeysendRequest}
use f1r3fly_rgb_lightning_no.Routes.Payments.Send.{SendPaymentRequest, send_payment}
use f1r3fly_rgb_lightning_no.Routes.Payments.Invoices.{LnInvoiceRequest, ln_invoice}
use f1r3fly_rgb_lightning_no.Routes.Payments.Query.{
  Payment, show_payment, show_payments, list_payments, get_payment,
}
use f1r3fly_rgb_lightning_no.Routes.Payments.Reported.{SendReported, send_payment_reports}
use f1r3fly_rgb_lightning_no.Routes.Payments.Duplicate.{Untouched, send_payment_twice}
use f1r3fly_rgb_lightning_no.Routes.Payments.Found.{get_payment_finds}
use f1r3fly_rgb_lightning_no.Routes.Payments.Awaited.{ReadsBack, Awaits, ln_invoice-Awaits}
use f1r3fly_rgb_lightning_no.Tests.Data.{hash, asset, payment, maker_state}

pending_lives : payment.status ≢ HtlcStatus.failed
pending_lives e = cc

known : lookup hash maker_state.outbound_payments ≡ some payment
unfolding lookup bytes_eq
known = refl

fresh :
    (old : PaymentInfo)
    → lookup asset maker_state.outbound_payments ≡ some old
    → old.status ≡ HtlcStatus.failed
unfolding lookup bytes_eq
fresh old e = cc

fail_outbound_pending_payments_lem_example :
    let (r, s') = fail_outbound_pending_payments (asset ∷ []) maker_state in
    (r ≡ ok tt)
    × ((j : Bytes)
        → Option.map (λ (i : PaymentInfo). i.status) (lookup j s'.outbound_payments)
          ≡ Option.map (recovered (asset ∷ []) j) (lookup j maker_state.outbound_payments))
    × (s'.fs_store.outbound_payments ≡ s'.outbound_payments)
    × (s'.inbound_payments ≡ maker_state.inbound_payments)
    × (s'.maker_swaps ≡ maker_state.maker_swaps)
fail_outbound_pending_payments_lem_example =
    fail_outbound_pending_payments_lem (asset ∷ []) maker_state refl refl

-- An invoice, printed as one byte.
abbrev the_invoice : Invoice
the_invoice = record {
  payment_hash = hash;
  payment_secret = hash;
  amount_milli_satoshis = some 3000000;
  rgb_contract_id = none;
  rgb_amount = none;
  payee_pub_key = asset;
  is_expired = false;
}

-- A printed invoice keeps its fields, one to a byte, where only the hash varies.
abbrev lib : PaymentLibrary
lib = record {
  contract_from_str = λ c. some c;
  contract_to_string = λ c. c;
  pubkey_from_slice = λ c. some c;
  pubkey_to_string = λ c. c;
  our_node_id = asset;
  random_bytes = hash;
  sha256 = λ b. b;
  offer_from_str = λ _. none;
  show_amount = λ _. str "None";
  invoice_from_str = λ t. Read.ok (record the_invoice { payment_hash = t });
  invoice_to_string = λ i. i.payment_hash;
  payment_parameters_from_invoice = λ i. some i.payment_hash;
  payment_parameters_from_zero_amount_invoice = λ i n. some i.payment_hash;
  create_invoice = λ c n e k a. Read.ok the_invoice;
  keysend_fails = λ d n r p. true;
  send_payment_fails = λ i n r. false;
  pay_for_offer_fails = λ o n i. false;
  rgb_payment_info = λ h b. none;
  network = BitcoinNetwork.regtest;
}

abbrev send_request : SendPaymentRequest
send_request = record { invoice = hash; amt_msat = none }

send_payment_twice_example : Untouched maker_state (send_payment lib send_request maker_state)
send_payment_twice_example =
    send_payment_twice lib send_request the_invoice payment maker_state refl refl known
      pending_lives

send_payment_reports_example : Ensures (send_payment lib send_request) SendReported
send_payment_reports_example = send_payment_reports lib send_request

abbrev keysend_request : KeysendRequest
keysend_request = record {
  dest_pubkey = hash;
  amt_msat = 3000000;
  asset_id = none;
  asset_amount = none;
}

abbrev invoice_request : LnInvoiceRequest
invoice_request = record {
  amt_msat = some 3000000;
  expiry_sec = 60;
  asset_id = none;
  asset_amount = none;
}

hash_text : Option.bind (hex_str_to_vec (hex_str hash)) to_array32 ≡ some hash
unfolding to_array32 Option.bind
hash_text = rw (hex_str_to_vec-hex_str hash (ground arith)) refl

abbrev all_payments : List Payment
all_payments = show_payment lib false hash payment ∷ []

listed : (list_payments lib maker_state).0 ≡ ok all_payments
unfolding list_payments show_payments
listed = refl

found : (get_payment lib (hex_str hash) maker_state).0 ≡ ok (show_payment lib false hash payment)
unfolding lookup bytes_eq
found = rw (get_payment_finds lib (hex_str hash) hash maker_state hash_text) refl

lib-ReadsBack : ReadsBack lib
lib-ReadsBack = record {
  read_back = λ i. record the_invoice { payment_hash = i.payment_hash };
  reads = λ i. refl;
  same_hash = λ i. refl;
}

ln_invoice-Awaits_example : Ensures (ln_invoice lib invoice_request) (Awaits lib)
ln_invoice-Awaits_example = ln_invoice-Awaits lib lib-ReadsBack invoice_request
