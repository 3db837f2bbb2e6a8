-- ===== src/Node/Events/Settled.antt =====
-- What a payment's last event leaves of its swap, or of its payment.
use mathlib.Core.Option
use f1r3fly_rgb_lightning_no.Common.{
  ◌≡◌, refl, Bool, true, false, Option, none, some, List, [], ◌∷◌, Bytes, lookup, lookup-insert,
  bytes_eq_refl, inl, inr, Bool-cases, Option-cases,
}
use f1r3fly_rgb_lightning_no.Hex.{hex_str}
use f1r3fly_rgb_lightning_no.Swap.{SwapData, SwapStatus}
use f1r3fly_rgb_lightning_no.Node.State.{UnlockedAppState, HtlcStatus, PaymentInfo}
use f1r3fly_rgb_lightning_no.Node.Monad.{pure, gets, ◌>>◌}
use f1r3fly_rgb_lightning_no.Node.Ensures.{OkWith, Ensures, Leads, bind-Leads, pure-Ensures}
use f1r3fly_rgb_lightning_no.Node.Swaps.{is_maker_swap, update_maker_swap_status}
use f1r3fly_rgb_lightning_no.Node.Swaps.Moves.{moved, update_maker_swap_status_lem}
use f1r3fly_rgb_lightning_no.Node.Payments.{update_outbound_payment}
use f1r3fly_rgb_lightning_no.Node.Payments.Outbound.{update_outbound_payment_lem}
use f1r3fly_rgb_lightning_no.Node.Intercepted.{Crossing}
use f1r3fly_rgb_lightning_no.Node.Events.{
  PaymentFile, Event, Handled, is_other_file, move_one, move_amount, settle_maker, complete_payment,
  handle_ldk_events,
}

-- The maker swap of a hash is stored under a status.
abbrev pub IsSwapIn : Bytes → SwapStatus → UnlockedAppState → Type 0
IsSwapIn h st s = Option.map (λ (d : SwapData). d.status) (lookup h s.maker_swaps) ≡ some st

-- The outbound payment of an id has succeeded with a preimage.
pub record HasPaid (payment_id : Option Bytes) (preimage : Bytes) (s : UnlockedAppState)
    : Type 0 where
  pub id : Bytes
  pub info : PaymentInfo
  pub named : payment_id ≡ some id
  pub stored : lookup id s.outbound_payments ≡ some info
  pub succeeded : info.status ≡ HtlcStatus.succeeded
  pub preimage_stored : info.preimage ≡ some preimage

update_maker-OkWith :
    (h : Bytes) (s : UnlockedAppState)
    → OkWith
        (λ (_ : Unit {0}) t. IsSwapIn h SwapStatus.succeeded t)
        (update_maker_swap_status h SwapStatus.succeeded s)
unfolding update_maker_swap_status
update_maker-OkWith h s = elim (Option-cases (lookup h s.maker_swaps)) [
  | inl unknown ↦ rw unknown tt
  | inr (d, found) ↦ elim (Bool-cases s.write_fails) [
    | inl bad ↦ rw (found, bad) tt
    | inr good ↦ rw (update_maker_swap_status_lem h SwapStatus.succeeded s d found (λ e. cc) good) (
        rw
          (
            lookup-insert h h (moved SwapStatus.succeeded (s.clock s.ticks) d) s.maker_swaps,
            bytes_eq_refl h,
          )
          refl)
  ]
]

update_outbound-OkWith :
    (id preimage : Bytes) (s : UnlockedAppState)
    → OkWith
        (λ (_ : PaymentInfo) t. HasPaid (some id) preimage t)
        (update_outbound_payment id HtlcStatus.succeeded (some preimage) s)
unfolding update_outbound_payment
update_outbound-OkWith id preimage s = elim (Option-cases (lookup id s.outbound_payments)) [
  | inl unknown ↦ rw unknown tt
  | inr (old, found) ↦ elim (Bool-cases s.write_fails) [
    | inl bad ↦ rw (found, bad) tt
    | inr good ↦
        let info : PaymentInfo = record old {
          status = HtlcStatus.succeeded;
          preimage = some preimage;
          updated_at = s.clock s.ticks;
        } in
        rw (update_outbound_payment_lem id HtlcStatus.succeeded (some preimage) old s found good)
          (record {
            id = id;
            info = info;
            named = refl;
            stored = rw (lookup-insert id id info s.outbound_payments, bytes_eq_refl id) refl;
            succeeded = refl;
            preimage_stored = refl;
          })
  ]
]

complete-Ensures :
    (payment_id : Option Bytes) (preimage : Bytes)
    → Ensures (complete_payment payment_id preimage) (λ _ t. HasPaid payment_id preimage t)
unfolding complete_payment
complete-Ensures none preimage = record { apply = λ s. tt }
complete-Ensures (some id) preimage = record {
  apply =
      (pure-Ensures (λ _ t. HasPaid (some id) preimage t)
        (update_outbound_payment id HtlcStatus.succeeded (some preimage)) tt
        (record { apply = update_outbound-OkWith id preimage })).apply;
}

-- What is left by the event that a payment was sent: the swap of its hash, if the maker has one, has
-- succeeded, or else the payment of its id has, with the preimage.
abbrev pub SentAs : Bool → Bytes → Option Bytes → Bytes → UnlockedAppState → Type 0
SentAs true h payment_id preimage t = IsSwapIn h SwapStatus.succeeded t
SentAs false h payment_id preimage t = HasPaid payment_id preimage t

settle-Ensures :
    (b : Bool) (h : Bytes) (payment_id : Option Bytes) (preimage : Bytes)
    → Ensures
        (settle_maker b h SwapStatus.succeeded (complete_payment payment_id preimage))
        (λ _ t. SentAs b h payment_id preimage t)
unfolding settle_maker
settle-Ensures true h payment_id preimage = record { apply = update_maker-OkWith h }
settle-Ensures false h payment_id preimage = complete-Ensures payment_id preimage

move_amount-OkWith :
    (r : Bytes) (b c : Bool) (files : List PaymentFile) (h : Bytes) (s : UnlockedAppState)
    → is_maker_swap h s ≡ c
    → OkWith (λ (_ : Unit {0}) t. is_maker_swap h t ≡ c) (move_amount r b files s)
unfolding move_amount move_one is_maker_swap
move_amount-OkWith r b c [] h s e = e
move_amount-OkWith r b c (f ∷ fs) h s e = elim (Bool-cases (is_other_file r b f)) [
  | inl other ↦ rw other (move_amount-OkWith r b c fs h s e)
  | inr this ↦ rw this e
]

settled-Leads :
    (b : Bool) (h : Bytes) (payment_id : Option Bytes) (preimage : Bytes) (maker : Bool)
    → Leads
        (λ _. maker ≡ b)
        (settle_maker maker h SwapStatus.succeeded (complete_payment payment_id preimage)
          >> pure Handled.done)
        (λ _ t. SentAs b h payment_id preimage t)
settled-Leads b h payment_id preimage maker = record {
  apply = λ t e. rw e (
      (pure-Ensures (λ _ u. SentAs b h payment_id preimage u)
          (settle_maker b h SwapStatus.succeeded (complete_payment payment_id preimage))
          Handled.done (settle-Ensures b h payment_id preimage)).apply
        t);
}

-- When the event that a payment was sent is handled without a panic, the maker swap
-- of the hash has status `Succeeded` if the maker has one, and otherwise the outbound payment of the
-- event's id has succeeded and holds the event's preimage.
pub payment_sent_settles :
    (lib : Crossing) (files : List PaymentFile) (preimage h : Bytes) (payment_id : Option Bytes)
    (b : Bool) (s : UnlockedAppState)
    → is_maker_swap h s ≡ b
    → OkWith
        (λ _ t. SentAs b h payment_id preimage t)
        (handle_ldk_events lib files (Event.payment_sent preimage h payment_id) s)
unfolding handle_ldk_events
payment_sent_settles lib files preimage h payment_id b s known =
    (bind-Leads {P = λ _ t. SentAs b h payment_id preimage t} (λ _ t. is_maker_swap h t ≡ b) _ _
        (record { apply = move_amount-OkWith (hex_str h) false b files h })
        (λ _.
          bind-Leads (λ maker _. maker ≡ b) (gets (is_maker_swap h))
            (λ maker.
              settle_maker maker h SwapStatus.succeeded (complete_payment payment_id preimage)
              >> pure Handled.done)
            (record { apply = λ t e. e }) (settled-Leads b h payment_id preimage))).apply
      s known
