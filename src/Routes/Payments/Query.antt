-- ===== src/Routes/Payments/Query.antt =====
-- `list_payments` and `get_payment` (src/routes.rs).
use mathlib.Core.Option
use f1r3fly_rgb_lightning_no.Common.{
  ℕ, Bool, true, false, Option, none, some, List, [], ◌∷◌, ◌++◌, Bytes, bytes_eq, Map,
  if◌then◌else◌,
}
use f1r3fly_rgb_lightning_no.Error.{ApiError}
use f1r3fly_rgb_lightning_no.Hex.{hex_str, hex_str_to_vec}
use f1r3fly_rgb_lightning_no.Swap.{to_array32}
use f1r3fly_rgb_lightning_no.Node.{
  Action, gets, or_fail, ◌>>=◌, HtlcStatus, PaymentInfo, UnlockedAppState,
}
use f1r3fly_rgb_lightning_no.Routes.Payments.{PaymentLibrary, RgbPaymentInfo}

pub record Payment : Type 0 where
  pub amt_msat : Option ℕ
  pub asset_amount : Option ℕ
  pub asset_id : Option Bytes
  pub payment_hash : Bytes
  pub inbound : Bool
  pub status : HtlcStatus
  pub created_at : ℕ
  pub updated_at : ℕ
  pub payee_pubkey : Bytes

module _ (lib : PaymentLibrary) where
  -- One entry of the answer, from an entry of the inbound or the outbound payments.
  unfoldable pub show_payment : Bool → Bytes → PaymentInfo → Payment
  show_payment inbound hash info = record {
    amt_msat = info.amt_msat;
    asset_amount =
        Option.map (λ (r : RgbPaymentInfo). r.amount) (lib.rgb_payment_info hash inbound);
    asset_id =
        Option.map (λ (r : RgbPaymentInfo). lib.contract_to_string r.contract_id)
          (lib.rgb_payment_info hash inbound);
    payment_hash = hex_str hash;
    inbound = inbound;
    status = info.status;
    created_at = info.created_at;
    updated_at = info.updated_at;
    payee_pubkey = lib.pubkey_to_string info.payee_pubkey;
  }

  -- A loop of `list_payments`.
  unfoldable pub show_payments : Bool → Map PaymentInfo → List Payment
  unfolding show_payment
  show_payments inbound [] = []
  show_payments inbound ((hash, info) ∷ rest) =
      show_payment inbound hash info ∷ show_payments inbound rest

  unfoldable pub list_payments : Action (List Payment)
  unfolding show_payments
  list_payments =
      gets (λ s. show_payments true s.inbound_payments ++ show_payments false s.outbound_payments)

  -- A loop of `get_payment`, up to its return.
  unfoldable pub find_payment : Bool → Bytes → Map PaymentInfo → Option Payment
  unfolding show_payment
  find_payment inbound requested [] = none
  find_payment inbound requested ((hash, info) ∷ rest) =
      let later = find_payment inbound requested rest in
      if bytes_eq hash requested then some (show_payment inbound hash info) else later

  -- The two loops, one after the other.
  unfoldable pub find_either : Bytes → UnlockedAppState → Option Payment
  unfolding find_payment
  find_either requested s = elim (find_payment true requested s.inbound_payments) [
    | some p ↦ some p
    | none ↦ find_payment false requested s.outbound_payments
  ]

  unfoldable pub get_payment : Bytes → Action Payment
  unfolding find_either
  get_payment payment_hash = do
    requested ←
        or_fail (Option.bind (hex_str_to_vec payment_hash) to_array32)
          (ApiError.invalid_payment_hash payment_hash)
    found ← gets (find_either requested)
    or_fail found (ApiError.payment_not_found payment_hash)
