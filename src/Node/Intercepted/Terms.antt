-- ===== src/Node/Intercepted/Terms.antt =====
-- The test of an intercepted payment against the terms of the swap.
use f1r3fly_rgb_lightning_no.Common.{
  ℕ, ◌+◌, ◌<◌, ◌≡◌, refl, ◌↔◌, true, false, Option, none, some, Bytes, option_bytes_eq_iff, arith,
}
use f1r3fly_rgb_lightning_no.Swap.{SwapInfo}
use f1r3fly_rgb_lightning_no.Node.Intercepted.{
  Intercepted, option_nat_eq, checked_sub, rgb_amount, swap_fails,
}

option_nat_eq_iff : (a b : Option ℕ) → (option_nat_eq a b ≡ true) ↔ (a ≡ b)
unfolding option_nat_eq
option_nat_eq_iff none none = ground arith
option_nat_eq_iff none (some b) = ground arith
option_nat_eq_iff (some a) none = ground arith
option_nat_eq_iff (some a) (some b) = ground arith

checked_sub_iff : (a b q : ℕ) → (option_nat_eq (checked_sub a b) (some q) ≡ true) ↔ (a ≡ b + q)
unfolding option_nat_eq checked_sub
checked_sub_iff a b q = ground arith

-- What crosses the taker by the terms of a swap: on the side of each asset the quantity in the channel
-- of that asset, and in bitcoin the difference of the two amounts.
abbrev pub Pays :
    Option Bytes → Option Bytes → SwapInfo → Option Bytes → Option Bytes → Intercepted → Type 0
Pays none to info inbound outbound e =
    (e.inbound_rgb_amount ≡ some info.qty_to)
    × (inbound ≡ to)
    × (e.expected_outbound_amount_msat ≡ e.inbound_amount_msat + info.qty_from)
Pays (some from) none info inbound outbound e =
    (rgb_amount e.expected_outbound_rgb_payment ≡ some info.qty_from)
    × (outbound ≡ some from)
    × (e.inbound_amount_msat ≡ e.expected_outbound_amount_msat + info.qty_to)
Pays (some from) (some to) info inbound outbound e =
    (e.inbound_amount_msat ≡ e.expected_outbound_amount_msat)
    × (rgb_amount e.expected_outbound_rgb_payment ≡ some info.qty_from)
    × (outbound ≡ some from)
    × (e.inbound_rgb_amount ≡ some info.qty_to)
    × (inbound ≡ some to)

terms_lem :
    (from to : Option Bytes) (info : SwapInfo) (inbound outbound : Option Bytes) (e : Intercepted)
    → info.from_asset ≡ from
    → info.to_asset ≡ to
    → 0 < info.qty_to
    → (swap_fails info inbound outbound e ≡ false) ↔ Pays from to info inbound outbound e
unfolding swap_fails
terms_lem none to info inbound outbound e f t pos =
    rw (f, t)
      (ground (
        arith,
        option_nat_eq_iff e.inbound_rgb_amount (some info.qty_to),
        option_bytes_eq_iff inbound to,
        checked_sub_iff e.expected_outbound_amount_msat e.inbound_amount_msat info.qty_from,
      ))
terms_lem (some from) none info inbound outbound e f t pos =
    rw (f, t)
      (ground (
        arith,
        option_nat_eq_iff (rgb_amount e.expected_outbound_rgb_payment) (some info.qty_from),
        option_bytes_eq_iff outbound (some from),
      ))
terms_lem (some from) (some to) info inbound outbound e f t pos =
    rw (f, t)
      (ground (
        arith,
        option_nat_eq_iff (rgb_amount e.expected_outbound_rgb_payment) (some info.qty_from),
        option_nat_eq_iff e.inbound_rgb_amount (some info.qty_to),
        option_bytes_eq_iff outbound (some from),
        option_bytes_eq_iff inbound (some to),
        checked_sub_iff e.inbound_amount_msat e.expected_outbound_amount_msat 0,
      ))

-- An intercepted payment passes the test against a swap with a positive quantity to receive exactly if it
-- pays by the swap's terms.
pub swap_fails_iff :
    (info : SwapInfo) (inbound outbound : Option Bytes) (e : Intercepted)
    → 0 < info.qty_to
    → (swap_fails info inbound outbound e ≡ false)
      ↔ Pays info.from_asset info.to_asset info inbound outbound e
swap_fails_iff info inbound outbound e pos =
    terms_lem info.from_asset info.to_asset info inbound outbound e refl refl pos
