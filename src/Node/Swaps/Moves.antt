-- ===== src/Node/Swaps/Moves.antt =====
-- What a change of a swap's status does to the maps and the store, and when it panics.
use f1r3fly_rgb_lightning_no.Common.{
  ℕ, ◌+◌, ◌≡◌, refl, ◌≢◌, ◌↔◌, ◌⊎◌, true, false, none, some, Bytes, lookup, insert, lookup-insert,
  bytes_eq, if◌then◌else◌, arith,
}
use f1r3fly_rgb_lightning_no.Outcome.{ok, panicked}
use f1r3fly_rgb_lightning_no.Swap.{SwapData, SwapStatus}
use f1r3fly_rgb_lightning_no.Node.State.{UnlockedAppState}
use f1r3fly_rgb_lightning_no.Node.Swaps.{update_maker_swap_status, update_taker_swap_status}

-- The data of a swap that is moved to a status at a time: `Pending` records the start, every other
-- status the end.
abbrev pub moved : SwapStatus → ℕ → SwapData → SwapData
moved SwapStatus.pending now d = record d { status = SwapStatus.pending; initiated_at = some now }
moved status now d = record d { status = status; completed_at = some now }

abbrev pub with_maker : Bytes → SwapData → UnlockedAppState → UnlockedAppState
with_maker h d s = record s {
  maker_swaps = insert h d s.maker_swaps;
  fs_store = record s.fs_store { maker_swaps = insert h d s.maker_swaps };
}

abbrev pub with_taker : Bytes → SwapData → UnlockedAppState → UnlockedAppState
with_taker h d s = record s {
  taker_swaps = insert h d s.taker_swaps;
  fs_store = record s.fs_store { taker_swaps = insert h d s.taker_swaps };
}

pub update_maker_swap_status_lem :
    (h : Bytes) (status : SwapStatus) (s : UnlockedAppState) (d : SwapData)
    → lookup h s.maker_swaps ≡ some d
    → status ≢ SwapStatus.waiting
    → s.write_fails ≡ false
    → update_maker_swap_status h status s
      ≡ (ok tt, with_maker h (moved status (s.clock s.ticks) d) (record s { ticks = s.ticks + 1 }))
unfolding update_maker_swap_status
update_maker_swap_status_lem h SwapStatus.waiting s d found ne w = absurd (ne refl)
update_maker_swap_status_lem h _ s d found ne w = rw found (simp w)

pub update_taker_swap_status_lem :
    (h : Bytes) (status : SwapStatus) (s : UnlockedAppState) (d : SwapData)
    → lookup h s.taker_swaps ≡ some d
    → status ≢ SwapStatus.waiting
    → s.write_fails ≡ false
    → update_taker_swap_status h status s
      ≡ (ok tt, with_taker h (moved status (s.clock s.ticks) d) (record s { ticks = s.ticks + 1 }))
unfolding update_taker_swap_status
update_taker_swap_status_lem h SwapStatus.waiting s d found ne w = absurd (ne refl)
update_taker_swap_status_lem h _ s d found ne w = rw found (simp w)

-- A known maker swap that is moved to a status other than `Waiting`, with a store that takes the
-- write, has that status and its time afterwards, in memory and in the store; every other maker swap
-- and all taker swaps are as before.
pub update_maker_swap_status_moves :
    (h : Bytes) (status : SwapStatus) (s : UnlockedAppState) (d : SwapData)
    → lookup h s.maker_swaps ≡ some d
    → status ≢ SwapStatus.waiting
    → s.write_fails ≡ false
    → let (r, s') = update_maker_swap_status h status s in
      (r ≡ ok tt)
      × ((j : Bytes)
          → lookup j s'.maker_swaps ≡ (
              if bytes_eq h j
              then some (moved status (s.clock s.ticks) d)
              else lookup j s.maker_swaps))
      × (s'.fs_store.maker_swaps ≡ s'.maker_swaps)
      × (s'.taker_swaps ≡ s.taker_swaps)
update_maker_swap_status_moves h status s d found ne w =
    rw (update_maker_swap_status_lem h status s d found ne w)
      (refl, λ j. lookup-insert h j _ s.maker_swaps, refl, refl)

-- The update panics exactly if the swap is unknown, or the status is `Waiting`, or the store refuses
-- the write.
pub update_maker_swap_status_panics :
    (h : Bytes) (status : SwapStatus) (s : UnlockedAppState)
    → ((update_maker_swap_status h status s).0 ≡ panicked)
      ↔ ((lookup h s.maker_swaps ≡ none) ⊎ ((status ≡ SwapStatus.waiting) ⊎ (s.write_fails ≡ true)))
unfolding update_maker_swap_status
update_maker_swap_status_panics h SwapStatus.waiting s = ground arith
update_maker_swap_status_panics h _ s = ground arith
