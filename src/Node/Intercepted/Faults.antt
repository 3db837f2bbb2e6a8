-- ===== src/Node/Intercepted/Faults.antt =====
-- Two faults of the handling of intercepted payments: a payment that is no swap, and an RGB payment that
-- a swap from bitcoin carries along.
use f1r3fly_rgb_lightning_no.Common.{
  ℕ, ◌+◌, ◌<◌, ◌≡◌, ◌∙◌, refl, inl, inr, Bool, true, false, Option, none, some, List, ◌∷◌, Bytes,
  lookup, Bool-cases, Option-cases,
}
use f1r3fly_rgb_lightning_no.Outcome.{Outcome, ok, err, panicked}
use f1r3fly_rgb_lightning_no.Swap.{SwapInfo, SwapData, SwapStatus}
use f1r3fly_rgb_lightning_no.Node.State.{UnlockedAppState, LibraryCall}
use f1r3fly_rgb_lightning_no.Node.Monad.{Action, ◌>>◌, bind-ok}
use f1r3fly_rgb_lightning_no.Node.Swaps.{update_taker_swap_status}
use f1r3fly_rgb_lightning_no.Node.Swaps.Moves.{moved, with_taker, update_taker_swap_status_lem}
use f1r3fly_rgb_lightning_no.Node.Intercepted.{
  Intercepted, CrossedChannel, Crossing, find_channel, swap_fails, perform, fail_intercepted_htlc,
  forward_call, forward_intercepted_htlc, reject_other, settle_intercepted, match_intercepted,
  cross_intercepted, handle_intercepted,
}
use f1r3fly_rgb_lightning_no.Node.Intercepted.Terms.{Pays, swap_fails_iff}
use f1r3fly_rgb_lightning_no.Node.Intercepted.Outcomes.{Crosses, PaysFor}

-- The library does not know an intercepted payment any more once it was failed, as it documents.
pub record ForgetsFailed (lib : Crossing) : Type 0 where
  pub refail :
      (id : Bytes) (cs : List LibraryCall)
      → lib.accepts
          (LibraryCall.fail_intercepted_htlc id ∷ cs)
          (LibraryCall.fail_intercepted_htlc id)
        ≡ false
  pub reforward :
      (id : Bytes) (cs : List LibraryCall) (scid : ℕ) (node : Bytes) (amount : ℕ)
      (rgb : Option (Bytes × ℕ))
      → lib.accepts
          (LibraryCall.fail_intercepted_htlc id ∷ cs)
          (LibraryCall.forward_intercepted_htlc id scid node amount rgb)
        ≡ false

-- A step that panics, or returns in a state with a property.
abbrev PanicsOr : (UnlockedAppState → Type 0) → Outcome (Unit {0}) × UnlockedAppState → Type 0
PanicsOr Q (ok _, t) = Q t
PanicsOr Q (err _, t) = ⊥
PanicsOr Q (panicked, t) = Unit

then_panics :
    (Q : UnlockedAppState → Type 0) (r : Outcome (Unit {0}) × UnlockedAppState)
    (k : Action (Unit {0}))
    → PanicsOr Q r
    → ((t : UnlockedAppState) → Q t → (k t).0 ≡ panicked)
    → (((λ _. r) >> k) r.1).0 ≡ panicked
then_panics Q (ok _, t) k h f = f t h
then_panics Q (err _, t) k h f = absurd h
then_panics Q (panicked, t) k h f = refl

update_taker-PanicsOr :
    (h : Bytes) (st : SwapStatus) (s : UnlockedAppState)
    → PanicsOr (λ t. t.calls ≡ s.calls) (update_taker_swap_status h st s)
unfolding update_taker_swap_status
update_taker-PanicsOr h SwapStatus.waiting s = elim (Option-cases (lookup h s.taker_swaps)) [
  | inl unknown ↦ rw unknown tt
  | inr (d, found) ↦ rw found tt
]
update_taker-PanicsOr h _ s = elim (Option-cases (lookup h s.taker_swaps)) [
  | inl unknown ↦ rw unknown tt
  | inr (d, found) ↦ elim (Bool-cases s.write_fails) [
    | inl bad ↦ rw (found, bad) tt
    | inr good ↦ rw (found, good) refl
  ]
]

perform_refused :
    (b : Bool) (c : LibraryCall) (s : UnlockedAppState) → b ≡ false → (perform b c s).0 ≡ panicked
unfolding perform
perform_refused true c s h = cc
perform_refused false c s h = refl

module _ (lib : Crossing) (forgets : ForgetsFailed lib) (e : Intercepted) where
  -- A state in which the payment was just failed.
  abbrev HasFailed : UnlockedAppState → Type 0
  HasFailed t =
      (cs : List LibraryCall) × (t.calls ≡ LibraryCall.fail_intercepted_htlc e.intercept_id ∷ cs)

  refail_panics :
      (t : UnlockedAppState)
      → HasFailed t
      → (fail_intercepted_htlc lib e.intercept_id t).0 ≡ panicked
  unfolding fail_intercepted_htlc
  refail_panics t (cs, h) = perform_refused _ _ t (rw h (forgets.refail e.intercept_id cs))

  reforward_panics :
      (next : CrossedChannel) (t : UnlockedAppState)
      → HasFailed t
      → (forward_intercepted_htlc lib e next t).0 ≡ panicked
  unfolding forward_intercepted_htlc
  reforward_panics next t (cs, h) = perform_refused _ _ t (
      rw h (
        forgets.reforward e.intercept_id cs e.requested_next_hop_scid next.counterparty_node_id
          e.expected_outbound_amount_msat e.expected_outbound_rgb_payment))

  settle_panics :
      (b : Bool) (next : CrossedChannel) (s : UnlockedAppState)
      → HasFailed s
      → (settle_intercepted lib b e next s).0 ≡ panicked
  unfolding settle_intercepted
  settle_panics true next s (cs, h) =
      then_panics (λ t. t.calls ≡ s.calls) _ (fail_intercepted_htlc lib e.intercept_id)
        (update_taker-PanicsOr e.payment_hash SwapStatus.failed s)
        (λ t q. refail_panics t (cs, q ∙ h))
  settle_panics false next s (cs, h) =
      then_panics (λ t. t.calls ≡ s.calls) _ (forward_intercepted_htlc lib e next)
        (update_taker-PanicsOr e.payment_hash SwapStatus.pending s)
        (λ t q. reforward_panics next t (cs, q ∙ h))

  match_panics :
      (o : Option SwapData) (prev next : CrossedChannel) (s : UnlockedAppState)
      → HasFailed s
      → (match_intercepted lib o e prev next s).0 ≡ panicked
  unfolding match_intercepted
  match_panics none prev next s h = refail_panics s h
  match_panics (some d) prev next s h = settle_panics _ next s h

  cross_panics : (s : UnlockedAppState) → HasFailed s → (cross_intercepted lib e s).0 ≡ panicked
  unfolding cross_intercepted
  cross_panics s h = elim (Option-cases (find_channel e.prev_short_channel_id lib.list_channels)) [
    | inl lost ↦ rw lost refl
    | inr (prev, from) ↦
        elim (Option-cases (find_channel e.requested_next_hop_scid lib.list_channels)) [
          | inl lost ↦ rw (from, lost) refl
          | inr (next, to) ↦
              rw (from, to) (match_panics (lookup e.payment_hash s.taker_swaps) prev next s h)
        ]
  ]

  fail-PanicsOr :
      (b : Bool) (s : UnlockedAppState)
      → PanicsOr HasFailed (perform b (LibraryCall.fail_intercepted_htlc e.intercept_id) s)
  unfolding perform
  fail-PanicsOr true s = (s.calls, refl)
  fail-PanicsOr false s = tt

  reject_panics :
      (b : Bool) (s : UnlockedAppState)
      → b ≡ false
      → ((reject_other lib b e.intercept_id >> cross_intercepted lib e) s).0 ≡ panicked
  unfolding reject_other fail_intercepted_htlc
  reject_panics true s h = cc
  reject_panics false s h =
      then_panics HasFailed _ (cross_intercepted lib e) (fail-PanicsOr _ s) cross_panics

  -- With a library that accepts no call for a payment that it was told to fail, the handling of an intercepted payment that
  -- is not a swap always panics: it is failed, and then looked at as if it were a swap, which fails or forwards it again.
  pub handle_intercepted_other_panics :
      (s : UnlockedAppState) → e.is_swap ≡ false → (handle_intercepted lib e s).0 ≡ panicked
  unfolding handle_intercepted
  handle_intercepted_other_panics s other = reject_panics e.is_swap s other

-- A swap from bitcoin says nothing of the RGB payment that goes out.
Pays-from_btc :
    (from to : Option Bytes) (info : SwapInfo) (inbound outbound : Option Bytes) (e : Intercepted)
    (rgb : Option (Bytes × ℕ))
    → from ≡ none
    → Pays from to info inbound outbound e
    → Pays from to info inbound outbound (record e { expected_outbound_rgb_payment = rgb })
Pays-from_btc none to info inbound outbound e rgb btc h = h
Pays-from_btc (some a) to info inbound outbound e rgb btc h = cc

module _ (lib : Crossing) where
  -- The state in which a payment has been forwarded.
  abbrev forwarded_state :
      Intercepted → CrossedChannel → SwapData → UnlockedAppState → UnlockedAppState
  forwarded_state e next d s =
      let t =
        with_taker e.payment_hash (moved SwapStatus.pending (s.clock s.ticks) d)
          (record s { ticks = s.ticks + 1 }) in
      record t { calls = forward_call lib e next ∷ s.calls }

  perform_accepted :
      (b : Bool) (c : LibraryCall) (s : UnlockedAppState)
      → b ≡ true
      → perform b c s ≡ (ok tt, record s { calls = c ∷ s.calls })
  unfolding perform
  perform_accepted true c s h = refl
  perform_accepted false c s h = cc

  forward_lem :
      (e : Intercepted) (next : CrossedChannel) (s : UnlockedAppState) (d : SwapData)
      → lib.accepts s.calls (forward_call lib e next) ≡ true
      → lookup e.payment_hash s.taker_swaps ≡ some d
      → s.write_fails ≡ false
      → settle_intercepted lib false e next s ≡ (ok tt, forwarded_state e next d s)
  unfolding settle_intercepted forward_intercepted_htlc
  forward_lem e next s d accepts found writes =
      bind-ok (update_taker_swap_status e.payment_hash SwapStatus.pending)
        (λ _. forward_intercepted_htlc lib e next)
        (update_taker_swap_status_lem e.payment_hash SwapStatus.pending s d found (λ q. cc) writes)
      ∙ perform_accepted _ _ _ accepts

  forwards_lem :
      (e : Intercepted) (prev next : CrossedChannel) (s : UnlockedAppState) (d : SwapData)
      → lib.accepts s.calls (forward_call lib e next) ≡ true
      → lookup e.payment_hash s.taker_swaps ≡ some d
      → s.write_fails ≡ false
      → Crosses lib e prev next
      → swap_fails d.swap_info
          (lib.rgb_contract prev.channel_id)
          (lib.rgb_contract next.channel_id)
          e
        ≡ false
      → cross_intercepted lib e s ≡ (ok tt, forwarded_state e next d s)
  unfolding cross_intercepted match_intercepted
  forwards_lem e prev next s d accepts found writes crosses passes =
      rw (crosses.0, crosses.1, found, passes) (forward_lem e next s d accepts found writes)

  reject_swap :
      (b : Bool) (e : Intercepted) (s : UnlockedAppState)
      → b ≡ true
      → (reject_other lib b e.intercept_id >> cross_intercepted lib e) s ≡ cross_intercepted lib e s
  unfolding reject_other
  reject_swap true e s h = refl
  reject_swap false e s h = cc

  -- A payment by the terms of a whitelisted swap from bitcoin is forwarded whatever RGB payment the next channel is asked to
  -- carry, and the forwarding carries that RGB payment: the taker gives it away too. The channels and the swap are known,
  -- the swap's `qty_to` is positive, the library accepts this one forwarding at this point, and the store the write.
  pub handle_intercepted_carries_rgb :
      (e : Intercepted) (rgb : Option (Bytes × ℕ)) (prev next : CrossedChannel)
      (s : UnlockedAppState) (d : SwapData)
      → e.is_swap ≡ true
      → lib.accepts s.calls (
          LibraryCall.forward_intercepted_htlc e.intercept_id e.requested_next_hop_scid
            next.counterparty_node_id e.expected_outbound_amount_msat rgb)
        ≡ true
      → lookup e.payment_hash s.taker_swaps ≡ some d
      → s.write_fails ≡ false
      → d.swap_info.from_asset ≡ none
      → 0 < d.swap_info.qty_to
      → Crosses lib e prev next
      → PaysFor lib e d.swap_info prev next
      → (t : UnlockedAppState) × (handle_intercepted lib
            (record e { expected_outbound_rgb_payment = rgb })
            s
          ≡ (ok tt, t))
        × (t.calls
            ≡ LibraryCall.forward_intercepted_htlc e.intercept_id e.requested_next_hop_scid
                next.counterparty_node_id e.expected_outbound_amount_msat rgb
              ∷ s.calls)
  unfolding handle_intercepted
  handle_intercepted_carries_rgb e rgb prev next s d swap accepts found writes btc pos crosses
        pays =
      let e' : Intercepted = record e { expected_outbound_rgb_payment = rgb } in
      let same : PaysFor lib e' d.swap_info prev next =
        Pays-from_btc d.swap_info.from_asset d.swap_info.to_asset d.swap_info _ _ e rgb btc pays in
      (
        forwarded_state e' next d s,
        reject_swap e.is_swap e' s swap
            ∙ forwards_lem e' prev next s d accepts found writes crosses (
                (swap_fails_iff d.swap_info (lib.rgb_contract prev.channel_id)
                    (lib.rgb_contract next.channel_id) e' pos).1
                  same),
        refl,
      )
