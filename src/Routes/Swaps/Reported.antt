-- ===== src/Routes/Swaps/Reported.antt =====
-- Reporting the swaps never panics in a sound state, keeps it sound, and leaves each swap stored
-- under the status that was reported.
use f1r3fly_rgb_lightning_no.Common.{
  ℕ, ◌+◌, ◌≡◌, refl, ◌≢◌, inl, inr, Bool, true, false, Option, none, some, [], ◌∷◌, Bytes, Map, ltb,
  if◌then◌else◌, Option-cases, arith,
}
use f1r3fly_rgb_lightning_no.Outcome.{ok}
use f1r3fly_rgb_lightning_no.Swap.{SwapStatus, SwapData, Codec}
use f1r3fly_rgb_lightning_no.Node.{pure, gets, UnlockedAppState}
use f1r3fly_rgb_lightning_no.Node.Invariant.{
  IsSound, HasStart, Keeps, SoundAfter, bind-Keeps, gets-Keeps, pure-Keeps, if-Keeps,
}
use f1r3fly_rgb_lightning_no.Node.Swaps.Status.{
  update_maker_swap_status-Keeps, update_taker_swap_status-Keeps,
}
use f1r3fly_rgb_lightning_no.Routes.Amounts.{wrapping_add}
use f1r3fly_rgb_lightning_no.Routes.Swaps.{
  current_of, current_status, update_swap_status, report, map_swap, map_swaps, list_swaps,
}

current_of-SoundAfter :
    (st : SwapStatus) (d : SwapData) (s : UnlockedAppState)
    → IsSound s
    → SoundAfter (current_of st d s)
unfolding current_of
current_of-SoundAfter SwapStatus.waiting d s v = ground arith
current_of-SoundAfter SwapStatus.pending d s v = elim (Option-cases d.initiated_at) [
  | inl missing ↦ ground arith
  | inr (t, found) ↦ rw found (ground arith)
]
current_of-SoundAfter _ d s v = v

current_status-Keeps : (d : SwapData) → Keeps (current_status d)
unfolding current_status
current_status-Keeps d = record { apply = current_of-SoundAfter d.status d }

update_swap_status-Keeps :
    (taker : Bool) (h : Bytes) (status : SwapStatus) → Keeps (update_swap_status taker h status)
unfolding update_swap_status
update_swap_status-Keeps true = update_taker_swap_status-Keeps
update_swap_status-Keeps false = update_maker_swap_status-Keeps

pub map_swap-Keeps :
    (codec : Codec) (taker : Bool) (h : Bytes) (d : SwapData) → Keeps (map_swap codec taker h d)
unfolding map_swap
map_swap-Keeps codec taker h d = bind-Keeps (current_status d) _ (current_status-Keeps d) λ now.
    bind-Keeps (if now.1 then update_swap_status taker h now.0 else pure tt) _
      (if-Keeps now.1 (update_swap_status-Keeps taker h now.0) (pure-Keeps tt))
      λ _. pure-Keeps (report codec h d now.0)

map_swaps-Keeps :
    (codec : Codec) (taker : Bool) (m : Map SwapData) → Keeps (map_swaps codec taker m)
unfolding map_swaps
map_swaps-Keeps codec taker [] = pure-Keeps []
map_swaps-Keeps codec taker ((h, d) ∷ m) =
    bind-Keeps (map_swap codec taker h d) _ (map_swap-Keeps codec taker h d) λ swap.
      bind-Keeps (map_swaps codec taker m) _ (map_swaps-Keeps codec taker m)
        λ swaps. pure-Keeps (swap ∷ swaps)

-- Listing the swaps keeps the invariant.
pub list_swaps-Keeps : (codec : Codec) → Keeps (list_swaps codec)
unfolding list_swaps
list_swaps-Keeps codec = bind-Keeps (gets (λ s. s.taker_swaps)) _ (gets-Keeps _) λ taker.
    bind-Keeps (gets (λ s. s.maker_swaps)) _ (gets-Keeps _) λ maker.
      bind-Keeps (map_swaps codec true taker) _ (map_swaps-Keeps codec true taker) λ xs.
        bind-Keeps (map_swaps codec false maker) _ (map_swaps-Keeps codec false maker)
          λ ys. pure-Keeps (xs, ys)

-- The status that a swap has at a time: an offer past its expiry is `Expired`, a swap that has been
-- pending for more than a day is `Failed`, and any other keeps its status.
abbrev pub due : SwapStatus → Option ℕ → ℕ → ℕ → SwapStatus
due SwapStatus.waiting _ expiry now =
    if ltb expiry now then SwapStatus.expired else SwapStatus.waiting
due SwapStatus.pending (some start) _ now =
    if ltb (wrapping_add start 86400) now then SwapStatus.failed else SwapStatus.pending
due status _ _ _ = status

-- What is known about a status that is brought up to date.
pub record Current (st : SwapStatus) (d : SwapData) (s : UnlockedAppState) : Type 0 where
  pub status : SwapStatus
  pub changed : Bool
  pub time : ℕ
  pub runs : current_of st d s ≡ (ok (status, changed), record s { ticks = time })
  pub is_due : status ≡ due st d.initiated_at d.swap_info.expiry (s.clock s.ticks)
  pub ends : changed ≡ true → status ≢ SwapStatus.waiting
  pub same : changed ≡ false → status ≡ st

pending-Current :
    (o : Option ℕ) (d : SwapData) (s : UnlockedAppState)
    → d.initiated_at ≡ o
    → HasStart SwapStatus.pending o
    → Current SwapStatus.pending d s
unfolding current_of
pending-Current none d s e h = absurd h
pending-Current (some t) d s e h = record {
  status =
      if ltb (wrapping_add t 86400) (s.clock s.ticks)
      then SwapStatus.failed
      else SwapStatus.pending;
  changed = ltb (wrapping_add t 86400) (s.clock s.ticks);
  time = s.ticks + 1;
  runs = rw e (ground arith);
  is_due = rw e;
  ends = ground arith;
  same = ground arith;
}

pub current_of_lem :
    (st : SwapStatus) (d : SwapData) (s : UnlockedAppState)
    → HasStart st d.initiated_at
    → Current st d s
unfolding current_of
current_of_lem SwapStatus.pending d s h = pending-Current d.initiated_at d s refl h
current_of_lem SwapStatus.waiting d s h = record {
  status =
      if ltb d.swap_info.expiry (s.clock s.ticks) then SwapStatus.expired else SwapStatus.waiting;
  changed = ltb d.swap_info.expiry (s.clock s.ticks);
  time = s.ticks + 1;
  runs = ground arith;
  is_due = refl;
  ends = ground arith;
  same = ground arith;
}
current_of_lem st d s h = record {
  status = st;
  changed = false;
  time = s.ticks;
  runs = refl;
  is_due = refl;
  ends = λ e. cc;
  same = λ e. refl;
}
