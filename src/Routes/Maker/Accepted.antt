-- ===== src/Routes/Maker/Accepted.antt =====
-- The offer that `maker_init` makes, given to `taker` (src/routes.rs).
use mathlib.Core.Option
use f1r3fly_rgb_lightning_no.Common.{
  ℕ, ◌+◌, ◌<◌, ◌≡◌, refl, ◌∙◌, false, Option, none, some, Bytes, IsBytes, length, lookup,
  lookup-insert, bytes_eq_refl, ltb,
}
use f1r3fly_rgb_lightning_no.Outcome.{ok}
use f1r3fly_rgb_lightning_no.Decimal.{u64_bound}
use f1r3fly_rgb_lightning_no.Swap.{
  SwapInfo, SwapData, SwapString, IsLawful, from_swap_info, create_from_swap_info, from_str, Parsed,
}
use f1r3fly_rgb_lightning_no.Swap.Roundtrip.{IsWellFormed, from_str-to_string}
use f1r3fly_rgb_lightning_no.Node.Swaps.Moves.{with_taker}
use f1r3fly_rgb_lightning_no.Node.{
  Action, ◌>>=◌, ◌>>◌, bind-ok, UnlockedAppState, get_current_timestamp,
}
use f1r3fly_rgb_lightning_no.Node.Swaps.{add_taker_swap}
use f1r3fly_rgb_lightning_no.Routes.Library.{Library}
use f1r3fly_rgb_lightning_no.Routes.Maker.{MakerInitRequest, MakerInitResponse, check_balance}
use f1r3fly_rgb_lightning_no.Routes.Maker.Offers.{Offer, Affords}
use f1r3fly_rgb_lightning_no.Routes.Maker.Execute.{parsed_offer, taker}

-- The terms of a stored swap.
abbrev pub swap_info_of : Option SwapData → Option SwapInfo
swap_info_of o = Option.map (λ (d : SwapData). d.swap_info) o

affordable :
    (lib : Library) (o : Option Bytes) (qty : ℕ) (s : UnlockedAppState)
    → Affords lib o qty
    → check_balance lib o qty s ≡ (ok tt, s)
unfolding check_balance
affordable lib none qty s h = refl
affordable lib (some a) qty s h = rw h refl

abbrev store_offer : SwapString → Action (Unit {0})
store_offer o = do
  requested ← get_current_timestamp
  add_taker_swap o.payment_hash (create_from_swap_info requested o.swap_info)

store_offer_lem :
    (o : SwapString) (s : UnlockedAppState)
    → s.write_fails ≡ false
    → store_offer o s ≡ (
      ok tt,
      with_taker o.payment_hash
          (create_from_swap_info (s.clock s.ticks) o.swap_info)
          (record s { ticks = s.ticks + 1 }),
    )
unfolding get_current_timestamp add_taker_swap
store_offer_lem o s w = simp w

check-store :
    (lib : Library) (o : SwapString) (s : UnlockedAppState)
    → Affords lib o.swap_info.from_asset o.swap_info.qty_from
    → s.write_fails ≡ false
    → (check_balance lib o.swap_info.from_asset o.swap_info.qty_from >> store_offer o) s ≡ (
      ok tt,
      with_taker o.payment_hash
          (create_from_swap_info (s.clock s.ticks) o.swap_info)
          (record s { ticks = s.ticks + 1 }),
    )
check-store lib o s pays w =
    bind-ok (check_balance lib o.swap_info.from_asset o.swap_info.qty_from) (λ _. store_offer o)
      (affordable lib o.swap_info.from_asset o.swap_info.qty_from s pays)
    ∙ store_offer_lem o s w

-- An offer that parses, has not expired, and is affordable is accepted: it is stored, not started
-- yet, in memory and in the store.
pub taker_lem :
    (lib : Library) (text : Bytes) (o : SwapString) (s : UnlockedAppState)
    → from_str lib.codec text ≡ Parsed.ok o
    → ltb o.swap_info.expiry (s.clock s.ticks) ≡ false
    → Affords lib o.swap_info.from_asset o.swap_info.qty_from
    → s.write_fails ≡ false
    → taker lib text s ≡ (
      ok tt,
      with_taker o.payment_hash
          (create_from_swap_info (s.clock (s.ticks + 1)) o.swap_info)
          (record s { ticks = s.ticks + 1 + 1 }),
    )
unfolding taker parsed_offer get_current_timestamp
taker_lem lib text o s parses timely pays w =
    rw (parses, timely) (check-store lib o (record s { ticks = s.ticks + 1 }) pays w)

-- The offer that a maker's `maker_init` made for a request of positive `u64` amounts, whose hash has
-- 32 bytes, is accepted by a taker that reads contract ids the same way, as long as it has not
-- expired and the taker can afford it; both nodes then store it under the same hash with the same
-- terms.
pub taker_accepts_offer :
    (maker taking : Library) (r : MakerInitRequest) (a : MakerInitResponse) (m s : UnlockedAppState)
    (o : Offer maker r a m)
    → IsLawful maker.codec
    → taking.codec ≡ maker.codec
    → (0 < r.qty_from) × (r.qty_from < u64_bound)
    → (0 < r.qty_to) × (r.qty_to < u64_bound)
    → 0 < o.info.expiry
    → IsBytes o.hash × (length o.hash ≡ 32)
    → ltb o.info.expiry (s.clock s.ticks) ≡ false
    → Affords taking o.info.from_asset o.info.qty_from
    → s.write_fails ≡ false
    → let (x, s') = taker taking a.swapstring s in
      (x ≡ ok tt)
      × (swap_info_of (lookup o.hash s'.taker_swaps) ≡ some o.info)
      × (swap_info_of (lookup o.hash m.maker_swaps) ≡ some o.info)
unfolding create_from_swap_info from_swap_info
taker_accepts_offer maker taking r a m s o lawful same from to later hash timely pays w =
    let wf : IsWellFormed (from_swap_info o.info o.hash) = record {
      qty_from_pos = rw o.qty_from from.0;
      qty_to_pos = rw o.qty_to to.0;
      expiry_pos = later;
      qty_from_lt = rw o.qty_from from.1;
      qty_to_lt = rw o.qty_to to.1;
      expiry_lt = o.expiry_lt;
      distinct = o.distinct;
      hash_bytes = hash.0;
      hash_length = hash.1;
    } in
    let parses : from_str taking.codec a.swapstring ≡ Parsed.ok (from_swap_info o.info o.hash) =
      rw (same, o.swapstring)
        (from_str-to_string maker.codec lawful (from_swap_info o.info o.hash) wf) in
    rw (taker_lem taking a.swapstring (from_swap_info o.info o.hash) s parses timely pays w) (
      refl,
      rw
          (
            lookup-insert o.hash o.hash (create_from_swap_info (s.clock (s.ticks + 1)) o.info)
                s.taker_swaps,
            bytes_eq_refl o.hash,
          )
          refl,
      rw o.stored refl,
    )
