-- ===== src/Routes/Swaps/Status.antt =====
-- Which status is reported for a swap, and that the swap is stored under it.
use mathlib.Core.Option
use f1r3fly_rgb_lightning_no.Common.{
  ℕ, ◌≡◌, refl, ◌≢◌, sym, ap, Bool, true, false, some, Bytes, lookup, lookup-insert, bytes_eq_refl,
  if◌then◌else◌,
}
use f1r3fly_rgb_lightning_no.Outcome.{Outcome, ok}
use f1r3fly_rgb_lightning_no.Swap.{SwapStatus, SwapData, Codec}
use f1r3fly_rgb_lightning_no.Node.{Action, pure, ◌>>=◌, ◌>>◌, bind-ok, UnlockedAppState}
use f1r3fly_rgb_lightning_no.Node.Invariant.{IsInitiated}
use f1r3fly_rgb_lightning_no.Node.Swaps.Moves.{
  moved, update_maker_swap_status_lem, update_taker_swap_status_lem,
}
use f1r3fly_rgb_lightning_no.Routes.Swaps.{
  Swap, current_status, update_swap_status, report, map_swap, swaps_of,
}
use f1r3fly_rgb_lightning_no.Routes.Swaps.Reported.{current_of_lem, due}

-- The stored status of a swap.
abbrev pub stored_status : Bool → Bytes → UnlockedAppState → Option.Option SwapStatus
stored_status taker h s = Option.map (λ (d : SwapData). d.status) (lookup h (swaps_of taker s))

-- A step that returns a value, after which the swap is stored under a status.
abbrev Leaves : {A : Type 0} → Bool → Bytes → SwapStatus → A → Outcome A × UnlockedAppState → Type 0
Leaves taker h st a r = (r.0 ≡ ok a) × (stored_status taker h r.1 ≡ some st)

moved_status : (st : SwapStatus) (now : ℕ) (d : SwapData) → (moved st now d).status ≡ st
moved_status SwapStatus.pending now d = refl
moved_status _ now d = refl

update-Leaves :
    (taker : Bool) (h : Bytes) (st : SwapStatus) (d : SwapData) (s : UnlockedAppState)
    → lookup h (swaps_of taker s) ≡ some d
    → st ≢ SwapStatus.waiting
    → s.write_fails ≡ false
    → Leaves taker h st tt (update_swap_status taker h st s)
unfolding update_swap_status
update-Leaves true h st d s found ne w =
    rw (update_taker_swap_status_lem h st s d found ne w) (
      refl,
      rw (lookup-insert h h _ s.taker_swaps, bytes_eq_refl h) (ap some (moved_status st _ d)),
    )
update-Leaves false h st d s found ne w =
    rw (update_maker_swap_status_lem h st s d found ne w) (
      refl,
      rw (lookup-insert h h _ s.maker_swaps, bytes_eq_refl h) (ap some (moved_status st _ d)),
    )

stored_timed :
    (taker : Bool) (h : Bytes) (d : SwapData) (s : UnlockedAppState) (t : ℕ)
    → lookup h (swaps_of taker s) ≡ some d
    → lookup h (swaps_of taker (record s { ticks = t })) ≡ some d
stored_timed true h d s t e = e
stored_timed false h d s t e = e

module _ (codec : Codec) (taker : Bool) (h : Bytes) (d : SwapData) where
  abbrev finish : SwapStatus × Bool → Action Swap
  finish now = do
    if now.1 then update_swap_status taker h now.0 else pure tt
    pure (report codec h d now.0)

  update-then-report :
      (st : SwapStatus) (s : UnlockedAppState)
      → Leaves taker h st tt (update_swap_status taker h st s)
      → Leaves taker h st
          (report codec h d st)
          ((update_swap_status taker h st >>= (λ _. pure (report codec h d st))) s)
  update-then-report st s l =
      let e : update_swap_status taker h st s ≡ (ok tt, (update_swap_status taker h st s).1) =
        ap (λ r. (r, (update_swap_status taker h st s).1)) l.0 in
      rw (bind-ok (update_swap_status taker h st) (λ _. pure (report codec h d st)) e) (refl, l.1)

  finish-Leaves :
      (st : SwapStatus) (changed : Bool) (s : UnlockedAppState)
      → lookup h (swaps_of taker s) ≡ some d
      → (changed ≡ true → st ≢ SwapStatus.waiting)
      → (changed ≡ false → st ≡ d.status)
      → s.write_fails ≡ false
      → Leaves taker h st (report codec h d st) (finish (st, changed) s)
  finish-Leaves st true s found ends same w =
      update-then-report st s (update-Leaves taker h st d s found (ends refl) w)
  finish-Leaves st false s found ends same w = (refl, rw found (ap some (sym (same refl))))

  -- A stored swap whose start is known if it is pending is reported, if the store takes writes, with
  -- the status that is due by the clock's reading, and is stored under that status afterwards.
  pub map_swap-due :
      (s : UnlockedAppState)
      → lookup h (swaps_of taker s) ≡ some d
      → IsInitiated d
      → s.write_fails ≡ false
      → let st = due d.status d.initiated_at d.swap_info.expiry (s.clock s.ticks) in
        let (r, s') = map_swap codec taker h d s in
        (r ≡ ok (report codec h d st)) × (stored_status taker h s' ≡ some st)
  unfolding map_swap current_status
  map_swap-due s found i w =
      let c = current_of_lem d.status d s i in
      let l =
        finish-Leaves c.status c.changed (record s { ticks = c.time })
          (stored_timed taker h d s c.time found) c.ends c.same w in
      rw (← c.is_due) (rw (bind-ok (current_status d) finish c.runs) l)
