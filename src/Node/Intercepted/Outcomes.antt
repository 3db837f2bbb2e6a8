-- ===== src/Node/Intercepted/Outcomes.antt =====
-- What an intercepted payment leaves: of the swap that it belongs to, and of the calls of the library.
use mathlib.Core.Option
use f1r3fly_rgb_lightning_no.Common.{
  ◌<◌, ◌≡◌, ◌≢◌, refl, ap, inl, inr, Bool, true, false, Option, none, some, ◌∷◌, Bytes, lookup,
  lookup-insert, bytes_eq_refl, Bool-cases, Option-cases,
}
use f1r3fly_rgb_lightning_no.Outcome.{Outcome, ok, err, panicked}
use f1r3fly_rgb_lightning_no.Swap.{SwapInfo, SwapData, SwapStatus}
use f1r3fly_rgb_lightning_no.Node.State.{UnlockedAppState, LibraryCall}
use f1r3fly_rgb_lightning_no.Node.Monad.{Action, ◌>>◌}
use f1r3fly_rgb_lightning_no.Node.Ensures.{OkWith}
use f1r3fly_rgb_lightning_no.Node.Swaps.{update_taker_swap_status}
use f1r3fly_rgb_lightning_no.Node.Intercepted.{
  Intercepted, CrossedChannel, Crossing, find_channel, swap_fails, perform, fail_intercepted_htlc,
  forward_call, forward_intercepted_htlc, reject_other, settle_intercepted, match_intercepted,
  cross_intercepted, handle_intercepted,
}
use f1r3fly_rgb_lightning_no.Node.Intercepted.Terms.{Pays, swap_fails_iff}

-- The taker swap of a hash is stored under a status.
abbrev pub IsTakerIn : Bytes → SwapStatus → UnlockedAppState → Type 0
IsTakerIn h st s = Option.map (λ (d : SwapData). d.status) (lookup h s.taker_swaps) ≡ some st

update_taker-OkWith :
    (h : Bytes) (st : SwapStatus) (s : UnlockedAppState)
    → st ≢ SwapStatus.waiting
    → OkWith
        (λ (_ : Unit {0}) t. IsTakerIn h st t × (t.calls ≡ s.calls))
        (update_taker_swap_status h st s)
unfolding update_taker_swap_status
update_taker-OkWith h SwapStatus.waiting s moves = absurd (moves refl)
update_taker-OkWith h _ s moves = elim (Option-cases (lookup h s.taker_swaps)) [
  | inl unknown ↦ rw unknown tt
  | inr (d, found) ↦ elim (Bool-cases s.write_fails) [
    | inl bad ↦ rw (found, bad) tt
    | inr good ↦ rw (found, good) (rw (lookup-insert h h, bytes_eq_refl h) (refl, refl))
  ]
]

perform-OkWith :
    (b : Bool) (c : LibraryCall) (P : UnlockedAppState → Type 0) (s : UnlockedAppState)
    → P (record s { calls = c ∷ s.calls })
    → OkWith (λ (_ : Unit {0}) t. P t) (perform b c s)
unfolding perform
perform-OkWith true c P s h = h
perform-OkWith false c P s h = tt

-- Two steps, of which the second needs what the first leaves.
then-OkWith :
    {A : Type 0} (Q P : UnlockedAppState → Type 0) (r : Outcome (Unit {0}) × UnlockedAppState)
    (k : Action A)
    → OkWith (λ _ t. Q t) r
    → ((t : UnlockedAppState) → Q t → OkWith (λ _ u. P u) (k t))
    → OkWith (λ _ u. P u) (((λ _. r) >> k) r.1)
then-OkWith Q P (ok _, t) k h f = f t h
then-OkWith Q P (err _, t) k h f = tt
then-OkWith Q P (panicked, t) k h f = tt

module _ (lib : Crossing) (e : Intercepted) where
  settle_refused-OkWith :
      (next : CrossedChannel) (s : UnlockedAppState)
      → OkWith
          (λ (_ : Unit {0}) t.
            IsTakerIn e.payment_hash SwapStatus.failed t
            × (t.calls ≡ LibraryCall.fail_intercepted_htlc e.intercept_id ∷ s.calls))
          (settle_intercepted lib true e next s)
  unfolding settle_intercepted
  settle_refused-OkWith next s =
      then-OkWith (λ t. IsTakerIn e.payment_hash SwapStatus.failed t × (t.calls ≡ s.calls)) _ _
        (fail_intercepted_htlc lib e.intercept_id)
        (update_taker-OkWith e.payment_hash SwapStatus.failed s (λ q. cc))
        (λ t h.
          perform-OkWith (lib.accepts t.calls (LibraryCall.fail_intercepted_htlc e.intercept_id))
            (LibraryCall.fail_intercepted_htlc e.intercept_id)
            (λ u.
              IsTakerIn e.payment_hash SwapStatus.failed u
              × (u.calls ≡ LibraryCall.fail_intercepted_htlc e.intercept_id ∷ s.calls))
            t (h.0, ap (λ cs. LibraryCall.fail_intercepted_htlc e.intercept_id ∷ cs) h.1))

  settle_forwarded-OkWith :
      (next : CrossedChannel) (s : UnlockedAppState)
      → OkWith
          (λ (_ : Unit {0}) t.
            IsTakerIn e.payment_hash SwapStatus.pending t
            × (t.calls ≡ forward_call lib e next ∷ s.calls))
          (settle_intercepted lib false e next s)
  unfolding settle_intercepted
  settle_forwarded-OkWith next s =
      then-OkWith (λ t. IsTakerIn e.payment_hash SwapStatus.pending t × (t.calls ≡ s.calls)) _ _
        (forward_intercepted_htlc lib e next)
        (update_taker-OkWith e.payment_hash SwapStatus.pending s (λ q. cc))
        (λ t h.
          perform-OkWith (lib.accepts t.calls (forward_call lib e next)) (forward_call lib e next)
            (λ u.
              IsTakerIn e.payment_hash SwapStatus.pending u
              × (u.calls ≡ forward_call lib e next ∷ s.calls))
            t (h.0, ap (λ cs. forward_call lib e next ∷ cs) h.1))

  -- The two channels that the payment crosses.
  abbrev pub Crosses : CrossedChannel → CrossedChannel → Type 0
  Crosses prev next =
      (find_channel e.prev_short_channel_id lib.list_channels ≡ some prev)
      × (find_channel e.requested_next_hop_scid lib.list_channels ≡ some next)

  -- The payment pays by the terms of a swap, on the contracts of its two channels.
  abbrev pub PaysFor : SwapInfo → CrossedChannel → CrossedChannel → Type 0
  PaysFor info prev next =
      Pays info.from_asset info.to_asset info (lib.rgb_contract prev.channel_id)
        (lib.rgb_contract next.channel_id) e

  -- What is done with an intercepted swap payment that starts in a state and ends in another.
  pub data IsSettled (s t : UnlockedAppState) : Type 0 where
    unknown :
        lookup e.payment_hash s.taker_swaps ≡ none
        → t.taker_swaps ≡ s.taker_swaps
        → t.calls ≡ LibraryCall.fail_intercepted_htlc e.intercept_id ∷ s.calls
        → IsSettled s t
    refused :
        (d : SwapData) (prev next : CrossedChannel)
        → lookup e.payment_hash s.taker_swaps ≡ some d
        → Crosses prev next
        → ¬ PaysFor d.swap_info prev next
        → IsTakerIn e.payment_hash SwapStatus.failed t
        → t.calls ≡ LibraryCall.fail_intercepted_htlc e.intercept_id ∷ s.calls
        → IsSettled s t
    forwarded :
        (d : SwapData) (prev next : CrossedChannel)
        → lookup e.payment_hash s.taker_swaps ≡ some d
        → Crosses prev next
        → PaysFor d.swap_info prev next
        → IsTakerIn e.payment_hash SwapStatus.pending t
        → t.calls ≡ forward_call lib e next ∷ s.calls
        → IsSettled s t

  weaken :
      (P Q : UnlockedAppState → Type 0) (r : Outcome (Unit {0}) × UnlockedAppState)
      → OkWith (λ _ t. P t) r
      → ((t : UnlockedAppState) → P t → Q t)
      → OkWith (λ _ t. Q t) r
  weaken P Q (ok _, t) h f = f t h
  weaken P Q (err _, t) h f = tt
  weaken P Q (panicked, t) h f = tt

  match-OkWith :
      (o : Option SwapData) (prev next : CrossedChannel) (s : UnlockedAppState)
      → lookup e.payment_hash s.taker_swaps ≡ o
      → Crosses prev next
      → ((d : SwapData) → o ≡ some d → 0 < d.swap_info.qty_to)
      → OkWith (λ _ t. IsSettled s t) (match_intercepted lib o e prev next s)
  unfolding match_intercepted
  match-OkWith none prev next s found crosses pos =
      perform-OkWith (lib.accepts s.calls (LibraryCall.fail_intercepted_htlc e.intercept_id))
        (LibraryCall.fail_intercepted_htlc e.intercept_id) (λ t. IsSettled s t) s
        (IsSettled.unknown found refl refl)
  match-OkWith (some d) prev next s found crosses pos =
      let terms =
        swap_fails_iff d.swap_info (lib.rgb_contract prev.channel_id)
          (lib.rgb_contract next.channel_id) e (pos d refl) in
      elim (Bool-cases (
        swap_fails d.swap_info (lib.rgb_contract prev.channel_id) (lib.rgb_contract next.channel_id)
          e)) [
            | inl fails ↦ rw fails (
                weaken
                  (λ t.
                    IsTakerIn e.payment_hash SwapStatus.failed t
                    × (t.calls ≡ LibraryCall.fail_intercepted_htlc e.intercept_id ∷ s.calls))
                  (λ t. IsSettled s t) _ (settle_refused-OkWith next s)
                  (λ t h.
                    IsSettled.refused d prev next found crosses (λ p. cc (terms.1 p)) h.0 h.1))
            | inr passes ↦ rw passes (
                weaken
                  (λ t.
                    IsTakerIn e.payment_hash SwapStatus.pending t
                    × (t.calls ≡ forward_call lib e next ∷ s.calls))
                  (λ t. IsSettled s t) _ (settle_forwarded-OkWith next s)
                  (λ t h. IsSettled.forwarded d prev next found crosses (terms.0 passes) h.0 h.1))
          ]

  cross-OkWith :
      (s : UnlockedAppState)
      → ((d : SwapData) → lookup e.payment_hash s.taker_swaps ≡ some d → 0 < d.swap_info.qty_to)
      → OkWith (λ (_ : Unit {0}) t. IsSettled s t) (cross_intercepted lib e s)
  unfolding cross_intercepted
  cross-OkWith s pos =
      elim (Option-cases (find_channel e.prev_short_channel_id lib.list_channels)) [
        | inl lost ↦ rw lost tt
        | inr (prev, from) ↦
            elim (Option-cases (find_channel e.requested_next_hop_scid lib.list_channels)) [
              | inl lost ↦ rw (from, lost) tt
              | inr (next, to) ↦
                  rw (from, to)
                    (match-OkWith (lookup e.payment_hash s.taker_swaps) prev next s refl (from, to)
                      pos)
            ]
      ]

  reject-OkWith :
      (b : Bool) (P : UnlockedAppState → Type 0) (s : UnlockedAppState)
      → b ≡ true
      → OkWith (λ (_ : Unit {0}) t. P t) (cross_intercepted lib e s)
      → OkWith
          (λ (_ : Unit {0}) t. P t)
          ((reject_other lib b e.intercept_id >> cross_intercepted lib e) s)
  unfolding reject_other
  reject-OkWith true P s swap h = h
  reject-OkWith false P s swap h = cc

  -- When an intercepted swap payment is handled without a panic, and the swap of its hash, if the taker
  -- has one, is to give the taker a positive quantity: an unknown payment is failed and no swap changes; one
  -- that does not pay by the terms of its swap is failed and the swap is marked failed; one that does is forwarded to the
  -- channel that it asks for, and the swap is pending. Each makes exactly that one call.
  pub handle_intercepted_settles :
      (s : UnlockedAppState)
      → e.is_swap ≡ true
      → ((d : SwapData) → lookup e.payment_hash s.taker_swaps ≡ some d → 0 < d.swap_info.qty_to)
      → OkWith (λ (_ : Unit {0}) t. IsSettled s t) (handle_intercepted lib e s)
  unfolding handle_intercepted
  handle_intercepted_settles s swap pos =
      reject-OkWith e.is_swap (λ t. IsSettled s t) s swap (cross-OkWith s pos)
