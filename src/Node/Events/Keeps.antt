-- ===== src/Node/Events/Keeps.antt =====
-- The events keep the invariant of the unlocked node.
use f1r3fly_rgb_lightning_no.Common.{
  ℕ, Bool, true, false, Option, none, some, List, [], ◌∷◌, Bytes, inl, inr, Bool-cases, arith,
}
use f1r3fly_rgb_lightning_no.Swap.{SwapStatus, SwapData}
use f1r3fly_rgb_lightning_no.Node.State.{UnlockedAppState, LibraryCall}
use f1r3fly_rgb_lightning_no.Node.Monad.{Action}
use f1r3fly_rgb_lightning_no.Node.Invariant.{
  Keeps, SoundAfter, IsSound, bind-Keeps, pure-Keeps, panic-Keeps, gets-Keeps, unwrap-Keeps,
  call-Keeps,
}
use f1r3fly_rgb_lightning_no.Node.Swaps.Status.{
  update_maker_swap_status-Keeps, update_taker_swap_status-Keeps,
}
use f1r3fly_rgb_lightning_no.Node.Payments.Sound.{
  upsert_inbound_payment-Keeps, update_outbound_payment-Keeps, update_outbound_payment_status-Keeps,
}
use f1r3fly_rgb_lightning_no.Node.Channels.{forget_temporary, add_channel_id, delete_channel_id}
use f1r3fly_rgb_lightning_no.Node.Intercepted.{
  Intercepted, CrossedChannel, Crossing, perform, fail_intercepted_htlc, forward_intercepted_htlc,
  reject_other, settle_intercepted, match_intercepted, cross_intercepted, handle_intercepted,
}
use f1r3fly_rgb_lightning_no.Node.Events.{
  PaymentPurpose, PaymentFile, Event, is_other_file, move_one, move_amount, settle_maker,
  claim_payment, complete_payment, forward_amount, settle_taker, finish_funding, handle_ldk_events,
}
use f1r3fly_rgb_lightning_no.Node.Funding.Keeps.{unlock_rgb_send-Keeps, fund_channel-Keeps}

add_channel_id-SoundAfter :
    (t c : Bytes) (s : UnlockedAppState) → IsSound s → SoundAfter (add_channel_id t c s)
unfolding add_channel_id
add_channel_id-SoundAfter t c s v = elim (Bool-cases s.write_fails) [
  | inl bad ↦ rw bad tt
  | inr good ↦ rw good (ground arith)
]

add_channel_id-Keeps : (t c : Bytes) → Keeps (add_channel_id t c)
add_channel_id-Keeps t c = record { apply = add_channel_id-SoundAfter t c }

forget_temporary-SoundAfter :
    (t : Bytes) (s : UnlockedAppState) → IsSound s → SoundAfter (forget_temporary (some t) s)
unfolding forget_temporary
forget_temporary-SoundAfter t s v = elim (Bool-cases s.write_fails) [
  | inl bad ↦ rw bad tt
  | inr good ↦ rw good (ground arith)
]

forget_temporary-Keeps : (o : Option Bytes) → Keeps (forget_temporary o)
unfolding forget_temporary
forget_temporary-Keeps none = pure-Keeps tt
forget_temporary-Keeps (some t) = record { apply = forget_temporary-SoundAfter t }

delete_channel_id-Keeps : (c : Bytes) → Keeps (delete_channel_id c)
unfolding delete_channel_id
delete_channel_id-Keeps c = search (bind-Keeps, gets-Keeps, forget_temporary-Keeps) depth 4

move_one-Keeps :
    (skip : Bool) (h : Bytes) (b : Bool) (f : PaymentFile) (others : Action (Unit {0}))
    → Keeps others
    → Keeps (move_one skip h b f others)
unfolding move_one
move_one-Keeps true h b f others k = k
move_one-Keeps false h b f others k = call-Keeps _

move_amount-Keeps : (h : Bytes) (b : Bool) (fs : List PaymentFile) → Keeps (move_amount h b fs)
unfolding move_amount
move_amount-Keeps h b [] = pure-Keeps tt
move_amount-Keeps h b (f ∷ fs) =
    move_one-Keeps (is_other_file h b f) h b f _ (move_amount-Keeps h b fs)

settle_maker-Keeps :
    (b : Bool) (h : Bytes) (st : SwapStatus) (other : Action (Unit {0}))
    → Keeps other
    → Keeps (settle_maker b h st other)
unfolding settle_maker
settle_maker-Keeps true h st other k = update_maker_swap_status-Keeps h st
settle_maker-Keeps false h st other k = k

settle_taker-Keeps : (b : Bool) (h : Bytes) → Keeps (settle_taker b h)
unfolding settle_taker
settle_taker-Keeps true h = update_taker_swap_status-Keeps h _
settle_taker-Keeps false h = pure-Keeps tt

forward_amount-Keeps : (o : Option ℕ) (f : ℕ → LibraryCall) → Keeps (forward_amount o f)
unfolding forward_amount
forward_amount-Keeps none f = pure-Keeps tt
forward_amount-Keeps (some n) f = call-Keeps _

perform-Keeps : (b : Bool) (c : LibraryCall) → Keeps (perform b c)
unfolding perform
perform-Keeps true c = call-Keeps c
perform-Keeps false c = panic-Keeps

ruleset event_rules = (
  bind-Keeps, pure-Keeps, panic-Keeps, gets-Keeps, unwrap-Keeps, call-Keeps,
  upsert_inbound_payment-Keeps, update_outbound_payment-Keeps, update_outbound_payment_status-Keeps,
  add_channel_id-Keeps, delete_channel_id-Keeps, move_amount-Keeps, settle_maker-Keeps,
  settle_taker-Keeps, forward_amount-Keeps, unlock_rgb_send-Keeps,
)

finish_funding-Keeps : (o : Option Bool) (b : Bool) → Keeps (finish_funding o b)
unfolding finish_funding
finish_funding-Keeps (some true) b = search event_rules depth 6
finish_funding-Keeps (some false) b = pure-Keeps _
finish_funding-Keeps none true = pure-Keeps _
finish_funding-Keeps none false = panic-Keeps

claim_payment-Keeps :
    (h : Bytes) (p : PaymentPurpose) (n : ℕ) (o : Option Bytes) → Keeps (claim_payment h p n o)
unfolding claim_payment
claim_payment-Keeps h p n o = search event_rules depth 6

complete_payment-Keeps : (o : Option Bytes) (p : Bytes) → Keeps (complete_payment o p)
unfolding complete_payment
complete_payment-Keeps o p = search event_rules depth 8

module _ (lib : Crossing) where
  fail_intercepted_htlc-Keeps : (id : Bytes) → Keeps (fail_intercepted_htlc lib id)
  unfolding fail_intercepted_htlc
  fail_intercepted_htlc-Keeps id = search (bind-Keeps, gets-Keeps, perform-Keeps) depth 6

  settle_intercepted-Keeps :
      (b : Bool) (e : Intercepted) (next : CrossedChannel) → Keeps (settle_intercepted lib b e next)
  unfolding settle_intercepted forward_intercepted_htlc
  settle_intercepted-Keeps true e next =
      search (bind-Keeps, update_taker_swap_status-Keeps, fail_intercepted_htlc-Keeps) depth 6
  settle_intercepted-Keeps false e next =
      search (bind-Keeps, gets-Keeps, perform-Keeps, update_taker_swap_status-Keeps) depth 6

  match_intercepted-Keeps :
      (o : Option SwapData) (e : Intercepted) (prev next : CrossedChannel)
      → Keeps (match_intercepted lib o e prev next)
  unfolding match_intercepted
  match_intercepted-Keeps none e prev next = fail_intercepted_htlc-Keeps _
  match_intercepted-Keeps (some d) e prev next = settle_intercepted-Keeps _ e next

  reject_other-Keeps : (b : Bool) (id : Bytes) → Keeps (reject_other lib b id)
  unfolding reject_other
  reject_other-Keeps true id = pure-Keeps tt
  reject_other-Keeps false id = fail_intercepted_htlc-Keeps id

  handle_intercepted-Keeps : (e : Intercepted) → Keeps (handle_intercepted lib e)
  unfolding handle_intercepted cross_intercepted
  handle_intercepted-Keeps e =
      search (bind-Keeps, gets-Keeps, unwrap-Keeps, reject_other-Keeps, match_intercepted-Keeps)
        depth 10

-- Each of these events is handled so that the invariant is kept, on every path that does not panic: the store
-- holds what the maps hold, and a pending swap has its start.
pub handle_ldk_events-Keeps :
    (lib : Crossing) (files : List PaymentFile) (e : Event) → Keeps (handle_ldk_events lib files e)
unfolding handle_ldk_events
handle_ldk_events-Keeps lib files (Event.payment_claimable p) = search event_rules depth 12
handle_ldk_events-Keeps lib files (Event.payment_claimed h p n o) =
    search (claim_payment-Keeps, event_rules) depth 12
handle_ldk_events-Keeps lib files (Event.payment_sent i h o) =
    search (complete_payment-Keeps, event_rules) depth 12
handle_ldk_events-Keeps lib files (Event.payment_failed (some h) o) = search event_rules depth 12
handle_ldk_events-Keeps lib files (Event.payment_failed none o) = search event_rules depth 12
handle_ldk_events-Keeps lib files (Event.payment_forwarded p n a b h) = search event_rules depth 20
handle_ldk_events-Keeps lib files (Event.channel_pending f c o b) =
    search (finish_funding-Keeps, event_rules) depth 12
handle_ldk_events-Keeps lib files (Event.discard_funding c) = search event_rules depth 12
handle_ldk_events-Keeps lib files (Event.htlc_intercepted e) =
    search (handle_intercepted-Keeps, event_rules) depth 6
handle_ldk_events-Keeps lib files (Event.funding_generation_ready f) = fund_channel-Keeps f
