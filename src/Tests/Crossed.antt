-- ===== src/Tests/Crossed.antt =====
-- Intercepted payments that cross a concrete taker, whose swap takes 5000 msat and gives 10 of an asset.
use mathlib.Core.Path.{subst}
use mathlib.Core.Option.{some-injective}
use f1r3fly_rgb_lightning_no.Common.{
  ℕ, ◌<◌, ◌≡◌, ◌↔◌, ◌∙◌, sym, refl, Bool, true, false, Option, none, some, List, [], ◌∷◌, Bytes,
  lookup, bytes_eq, arith,
}
use f1r3fly_rgb_lightning_no.Outcome.{ok, panicked}
use f1r3fly_rgb_lightning_no.Swap.{SwapData}
use f1r3fly_rgb_lightning_no.Node.{UnlockedAppState, LibraryCall}
use f1r3fly_rgb_lightning_no.Node.Ensures.{OkWith}
use f1r3fly_rgb_lightning_no.Node.Intercepted.{
  Intercepted, CrossedChannel, Crossing, find_channel, swap_fails, handle_intercepted,
}
use f1r3fly_rgb_lightning_no.Node.Intercepted.Terms.{Pays, swap_fails_iff}
use f1r3fly_rgb_lightning_no.Node.Intercepted.Outcomes.{IsSettled, handle_intercepted_settles}
use f1r3fly_rgb_lightning_no.Node.Intercepted.Faults.{
  ForgetsFailed, handle_intercepted_other_panics, handle_intercepted_carries_rgb,
}
use f1r3fly_rgb_lightning_no.Tests.Data.{hash, asset, info, waiting_swap, empty_state}

abbrev pub from_maker : CrossedChannel
from_maker = record {
  channel_id = 1 ∷ [];
  short_channel_id = some 11;
  counterparty_node_id = 8 ∷ [];
}

abbrev pub to_maker : CrossedChannel
to_maker = record { channel_id = 2 ∷ []; short_channel_id = some 12; counterparty_node_id = 8 ∷ [] }

-- The library knows a payment until it was failed.
abbrev pub knows : List LibraryCall → LibraryCall → Bool
knows (LibraryCall.fail_intercepted_htlc id ∷ _) _ = false
knows _ _ = true

abbrev pub crossing : Crossing
crossing = record {
  list_channels = from_maker ∷ to_maker ∷ [];
  rgb_contract = λ _. some asset;
  accepts = knows;
}

crossing-ForgetsFailed : ForgetsFailed crossing
crossing-ForgetsFailed = record {
  refail = λ id cs. refl;
  reforward = λ id cs scid node amount rgb. refl;
}

abbrev swap_payment : Intercepted
swap_payment = record {
  is_swap = true;
  payment_hash = hash;
  intercept_id = 9 ∷ [];
  inbound_amount_msat = 3000;
  expected_outbound_amount_msat = 8000;
  inbound_rgb_amount = some 10;
  expected_outbound_rgb_payment = none;
  requested_next_hop_scid = 12;
  prev_short_channel_id = 11;
}

abbrev taker_state : UnlockedAppState
taker_state = record empty_state { taker_swaps = (hash, waiting_swap) ∷ [] }

Pays-by_terms : Pays none (some asset) info (some asset) (some asset) swap_payment
Pays-by_terms = (refl, refl, refl)

swap_fails_iff_example :
    (swap_fails info (some asset) (some asset) swap_payment ≡ false)
    ↔ Pays none (some asset) info (some asset) (some asset) swap_payment
swap_fails_iff_example = swap_fails_iff info (some asset) (some asset) swap_payment (omega arith)

is_whitelisted : lookup hash taker_state.taker_swaps ≡ some waiting_swap
unfolding lookup bytes_eq
is_whitelisted = refl

gives_asset : (d : SwapData) → lookup hash taker_state.taker_swaps ≡ some d → 0 < d.swap_info.qty_to
gives_asset d e =
    let same : waiting_swap ≡ d = some-injective waiting_swap d (sym is_whitelisted ∙ e) in
    subst (λ (x : SwapData). 0 < x.swap_info.qty_to) same (omega arith)

handle_intercepted_settles_example :
    OkWith
      (λ (_ : Unit {0}) t. IsSettled crossing swap_payment taker_state t)
      (handle_intercepted crossing swap_payment taker_state)
handle_intercepted_settles_example =
    handle_intercepted_settles crossing swap_payment taker_state refl gives_asset

abbrev other_payment : Intercepted
other_payment = record swap_payment { is_swap = false }

handle_intercepted_other_panics_example :
    (handle_intercepted crossing other_payment taker_state).0 ≡ panicked
handle_intercepted_other_panics_example =
    handle_intercepted_other_panics crossing crossing-ForgetsFailed other_payment taker_state refl

find_from : find_channel 11 crossing.list_channels ≡ some from_maker
unfolding find_channel
find_from = refl

find_to : find_channel 12 crossing.list_channels ≡ some to_maker
unfolding find_channel
find_to = refl

-- An RGB payment of 7 of the asset, out of the taker's channel, on top of the swap.
abbrev extra : Option (Bytes × ℕ)
extra = some (asset, 7)

handle_intercepted_carries_rgb_example :
    (t : UnlockedAppState) × (handle_intercepted crossing
        (record swap_payment { expected_outbound_rgb_payment = extra })
        taker_state
      ≡ (ok tt, t))
    × (t.calls ≡ LibraryCall.forward_intercepted_htlc (9 ∷ []) 12 (8 ∷ []) 8000 extra ∷ [])
handle_intercepted_carries_rgb_example =
    handle_intercepted_carries_rgb crossing swap_payment extra from_maker to_maker taker_state
      waiting_swap refl refl is_whitelisted refl refl (omega arith) (find_from, find_to)
      Pays-by_terms
