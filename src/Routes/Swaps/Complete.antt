-- ===== src/Routes/Swaps/Complete.antt =====
-- In a sound state whose store takes writes, reporting swaps returns, without a panic, and each swap
-- is stored under the status that was reported.
use mathlib.Core.Path.{subst}
use f1r3fly_rgb_lightning_no.Common.{
  ◌≡◌, Bool, true, false, List, [], ◌∷◌, Bytes, Map, All, AllValues, lookup, lookup-cons, All-map,
  bytes_eq_refl, is_some, if◌then◌else◌, arith,
}
use f1r3fly_rgb_lightning_no.Outcome.{ok}
use f1r3fly_rgb_lightning_no.Swap.{SwapStatus, SwapData, Codec}
use f1r3fly_rgb_lightning_no.Node.{Action, pure, ◌>>=◌, ◌>>◌, UnlockedAppState}
use f1r3fly_rgb_lightning_no.Node.Invariant.{IsSound, IsInitiated, SoundAfter}
use f1r3fly_rgb_lightning_no.Routes.Swaps.{
  Swap, current_status, update_swap_status, report, map_swap, map_swaps, list_swaps, swaps_of,
}
use f1r3fly_rgb_lightning_no.Routes.Swaps.Reported.{Current, current_of_lem, list_swaps-Keeps}
use f1r3fly_rgb_lightning_no.Routes.Swaps.Runs.{
  Grows, Grows-swaps_of, Runs, bind-Runs, pure-Runs, timed, settle,
}

current_status-Runs :
    (d : SwapData) (s : UnlockedAppState) (c : Current d.status d s)
    → s.write_fails ≡ false
    → Runs (current_status d) s
unfolding current_status
current_status-Runs d s c w = record {
  value = (c.status, c.changed);
  state = record s { ticks = c.time };
  runs = c.runs;
  writes = w;
  grows = record { taker = λ j h. h; maker = λ j h. h };
}

module _ (codec : Codec) where
  abbrev finish : Bool → Bytes → SwapData → SwapStatus × Bool → Action Swap
  finish taker h d now = do
    if now.1 then update_swap_status taker h now.0 else pure tt
    pure (report codec h d now.0)

  map_swap-Runs :
      (taker : Bool) (h : Bytes) (d : SwapData) (s : UnlockedAppState)
      → IsInitiated d
      → is_some (lookup h (swaps_of taker s)) ≡ true
      → s.write_fails ≡ false
      → Runs (map_swap codec taker h d) s
  unfolding map_swap current_status-Runs
  map_swap-Runs taker h d s i known w =
      let c = current_of_lem d.status d s i in
      let r =
        settle taker h c.status c.changed (record s { ticks = c.time }) c.ends
          (timed taker h s c.time known) w in
      bind-Runs (current_status d) (finish taker h d) (current_status-Runs d s c w) (
        bind-Runs (if c.changed then update_swap_status taker h c.status else pure tt)
          (λ _. pure (report codec h d c.status)) r
          (pure-Runs (report codec h d c.status) r.state r.writes))

  -- Every swap of a list is known in a state.
  abbrev AllKnown : Bool → UnlockedAppState → Map SwapData → Type 0
  AllKnown taker s = All (λ e. is_some (lookup e.0 (swaps_of taker s)) ≡ true)

  AllKnown-Grows :
      (taker : Bool) (s t : UnlockedAppState) (m : Map SwapData)
      → Grows s t
      → AllKnown taker s m
      → AllKnown taker t m
  AllKnown-Grows taker s t [] g h = tt
  AllKnown-Grows taker s t ((k, d) ∷ m) g h =
      (Grows-swaps_of taker s t g k h.0, AllKnown-Grows taker s t m g h.1)

  map_swaps-Runs :
      (taker : Bool) (m : Map SwapData) (s : UnlockedAppState)
      → AllValues IsInitiated m
      → AllKnown taker s m
      → s.write_fails ≡ false
      → Runs (map_swaps codec taker m) s
  unfolding map_swaps
  map_swaps-Runs taker [] s i known w = pure-Runs [] s w
  map_swaps-Runs taker ((h, d) ∷ m) s i known w =
      let r = map_swap-Runs taker h d s i.0 known.0 w in
      let q =
        map_swaps-Runs taker m r.state i.1 (AllKnown-Grows taker s r.state m r.grows known.1)
          r.writes in
      bind-Runs (map_swap codec taker h d)
        (λ swap. map_swaps codec taker m >>= (λ swaps. pure (swap ∷ swaps))) r
        (bind-Runs (map_swaps codec taker m) (λ swaps. pure (r.value ∷ swaps)) q
          (pure-Runs (r.value ∷ q.value) q.state q.writes))

known_of_cons :
    (k : Bytes) (d : SwapData) (m : Map SwapData) (e : Bytes × SwapData)
    → is_some (lookup e.0 m) ≡ true
    → is_some (lookup e.0 ((k, d) ∷ m)) ≡ true
known_of_cons k d m e h = rw (lookup-cons k e.0 d m) (ground arith)

-- Every entry of a map is known in it.
known_entries : (m : Map SwapData) → All (λ e. is_some (lookup e.0 m) ≡ true) m
known_entries [] = tt
known_entries ((k, d) ∷ m) = (
  rw (lookup-cons k k d m, bytes_eq_refl k),
  All-map (λ (e : Bytes × SwapData). is_some (lookup e.0 m) ≡ true)
      (λ (e : Bytes × SwapData). is_some (lookup e.0 ((k, d) ∷ m)) ≡ true) (known_of_cons k d m) m
      (known_entries m),
)

abbrev pair_up : Codec → Map SwapData → List Swap → Action (List Swap × List Swap)
pair_up codec maker xs = map_swaps codec false maker >>= (λ ys. pure (xs, ys))

list_swaps-Runs :
    (codec : Codec) (s : UnlockedAppState)
    → IsSound s
    → s.write_fails ≡ false
    → Runs (list_swaps codec) s
unfolding list_swaps
list_swaps-Runs codec s v w =
    let r =
      map_swaps-Runs codec true s.taker_swaps s v.taker_initiated (known_entries s.taker_swaps) w in
    let known =
      AllKnown-Grows codec false s r.state s.maker_swaps r.grows (known_entries s.maker_swaps) in
    let q = map_swaps-Runs codec false s.maker_swaps r.state v.maker_initiated known r.writes in
    let whole = bind-Runs (map_swaps codec true s.taker_swaps) (pair_up codec s.maker_swaps) r (
      bind-Runs (map_swaps codec false s.maker_swaps) (λ ys. pure (r.value, ys)) q
        (pure-Runs (r.value, q.value) q.state q.writes)) in
    record {
      value = whole.value;
      state = whole.state;
      runs = whole.runs;
      writes = whole.writes;
      grows = whole.grows;
    }

-- In a sound state whose store takes writes, `list_swaps` returns a list, and leaves a sound state.
pub list_swaps_returns :
    (codec : Codec) (s : UnlockedAppState)
    → IsSound s
    → s.write_fails ≡ false
    → (swaps : List Swap × List Swap) × (s' : UnlockedAppState) × (list_swaps codec s
        ≡ (ok swaps, s'))
      × IsSound s'
list_swaps_returns codec s v w =
    let r = list_swaps-Runs codec s v w in
    (r.value, r.state, r.runs, subst SoundAfter r.runs ((list_swaps-Keeps codec).apply s v))
