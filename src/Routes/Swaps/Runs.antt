-- ===== src/Routes/Swaps/Runs.antt =====
-- Steps on the swap maps that return with a store that takes writes, and lose no swap.
use f1r3fly_rgb_lightning_no.Common.{
  ℕ, ◌+◌, ◌≡◌, refl, ◌≢◌, ◌∙◌, Bool, true, false, none, some, Bytes, Map, lookup, insert,
  lookup-insert, is_some, if◌then◌else◌, Option, arith,
}
use f1r3fly_rgb_lightning_no.Outcome.{ok}
use f1r3fly_rgb_lightning_no.Swap.{SwapStatus, SwapData}
use f1r3fly_rgb_lightning_no.Node.{Action, pure, ◌>>=◌, bind-ok, UnlockedAppState}
use f1r3fly_rgb_lightning_no.Node.Swaps.Moves.{
  moved, with_maker, with_taker, update_maker_swap_status_lem, update_taker_swap_status_lem,
}
use f1r3fly_rgb_lightning_no.Routes.Swaps.{update_swap_status, swaps_of}

-- No swap that was known is lost.
pub record Grows (s t : UnlockedAppState) : Type 0 where
  pub taker :
      (j : Bytes)
      → is_some (lookup j s.taker_swaps) ≡ true
      → is_some (lookup j t.taker_swaps) ≡ true
  pub maker :
      (j : Bytes)
      → is_some (lookup j s.maker_swaps) ≡ true
      → is_some (lookup j t.maker_swaps) ≡ true

pub Grows-swaps_of :
    (taker : Bool) (s t : UnlockedAppState)
    → Grows s t
    → (j : Bytes) → is_some (lookup j (swaps_of taker s)) ≡ true
    → is_some (lookup j (swaps_of taker t)) ≡ true
Grows-swaps_of true s t g = g.taker
Grows-swaps_of false s t g = g.maker

-- A step that returns, with a store that takes writes.
pub record Runs {A : Type 0} (m : Action A) (s : UnlockedAppState) : Type 0 where
  pub value : A
  pub state : UnlockedAppState
  pub runs : m s ≡ (ok value, state)
  pub writes : state.write_fails ≡ false
  pub grows : Grows s state

pub bind-Runs :
    {A B : Type 0} (m : Action A) (f : A → Action B) {s : UnlockedAppState} (r : Runs m s)
    → Runs (f r.value) r.state
    → Runs (m >>= f) s
bind-Runs m f r q = record {
  value = q.value;
  state = q.state;
  runs = bind-ok m f r.runs ∙ q.runs;
  writes = q.writes;
  grows = record {
    taker = λ j h. q.grows.taker j (r.grows.taker j h);
    maker = λ j h. q.grows.maker j (r.grows.maker j h);
  };
}

pub pure-Runs :
    {A : Type 0} (a : A) (s : UnlockedAppState) → s.write_fails ≡ false → Runs (pure a) s
pure-Runs a s w = record {
  value = a;
  state = s;
  runs = refl;
  writes = w;
  grows = record { taker = λ j h. h; maker = λ j h. h };
}

pub insert-is_some :
    (h j : Bytes) (d : SwapData) (m : Map SwapData)
    → is_some (lookup j m) ≡ true
    → is_some (lookup j (insert h d m)) ≡ true
insert-is_some h j d m e = rw (lookup-insert h j d m) (ground arith)

pub some_of_known : {A : Type 0} (o : Option A) → is_some o ≡ true → (a : A) × (o ≡ some a)
some_of_known none e = cc
some_of_known (some a) e = (a, refl)

pub update-Runs :
    (taker : Bool) (h : Bytes) (st : SwapStatus) (s : UnlockedAppState)
    → st ≢ SwapStatus.waiting
    → is_some (lookup h (swaps_of taker s)) ≡ true
    → s.write_fails ≡ false
    → Runs (update_swap_status taker h st) s
unfolding update_swap_status
update-Runs true h st s ne known w =
    let (d, found) = some_of_known (lookup h s.taker_swaps) known in
    record {
      value = tt;
      state = with_taker h (moved st (s.clock s.ticks) d) (record s { ticks = s.ticks + 1 });
      runs = update_taker_swap_status_lem h st s d found ne w;
      writes = w;
      grows = record { taker = λ j. insert-is_some h j _ s.taker_swaps; maker = λ j e. e };
    }
update-Runs false h st s ne known w =
    let (d, found) = some_of_known (lookup h s.maker_swaps) known in
    record {
      value = tt;
      state = with_maker h (moved st (s.clock s.ticks) d) (record s { ticks = s.ticks + 1 });
      runs = update_maker_swap_status_lem h st s d found ne w;
      writes = w;
      grows = record { maker = λ j. insert-is_some h j _ s.maker_swaps; taker = λ j e. e };
    }

-- The state after the clock is read still knows the swaps.
pub timed :
    (taker : Bool) (h : Bytes) (s : UnlockedAppState) (t : ℕ)
    → is_some (lookup h (swaps_of taker s)) ≡ true
    → is_some (lookup h (swaps_of taker (record s { ticks = t }))) ≡ true
timed true h s t e = e
timed false h s t e = e

pub settle :
    (taker : Bool) (h : Bytes) (st : SwapStatus) (changed : Bool) (s : UnlockedAppState)
    → (changed ≡ true → st ≢ SwapStatus.waiting)
    → is_some (lookup h (swaps_of taker s)) ≡ true
    → s.write_fails ≡ false
    → Runs (if changed then update_swap_status taker h st else pure tt) s
settle taker h st true s ends known w = update-Runs taker h st s (ends refl) known w
settle taker h st false s ends known w = pure-Runs tt s w
