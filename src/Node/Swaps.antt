-- ===== src/Node/Swaps.antt =====
-- The swap maps of the unlocked node (src/ldk.rs): adding a swap, and moving it to another status.
pub mod Status
pub mod Moves
use f1r3fly_rgb_lightning_no.Common.{Bool, some, Bytes, Map, lookup, insert, contains_key}
use f1r3fly_rgb_lightning_no.Swap.{SwapData, SwapStatus}
use f1r3fly_rgb_lightning_no.Node.State.{UnlockedAppState, FsStore}
use f1r3fly_rgb_lightning_no.Node.Monad.{
  Action, pure, panic, gets, unwrap, modify, write_store, ◌>>=◌, ◌>>◌, get_current_timestamp,
}

unfoldable pub save_maker_swaps : Action (Unit {0})
save_maker_swaps =
    write_store (λ s. record s { fs_store = record s.fs_store { maker_swaps = s.maker_swaps } })

unfoldable pub save_taker_swaps : Action (Unit {0})
save_taker_swaps =
    write_store (λ s. record s { fs_store = record s.fs_store { taker_swaps = s.taker_swaps } })

unfoldable pub add_maker_swap : Bytes → SwapData → Action (Unit {0})
unfolding save_maker_swaps
add_maker_swap hash swap = do
  modify (λ s. record s { maker_swaps = insert hash swap s.maker_swaps })
  save_maker_swaps

unfoldable pub add_taker_swap : Bytes → SwapData → Action (Unit {0})
unfolding save_taker_swaps
add_taker_swap hash swap = do
  modify (λ s. record s { taker_swaps = insert hash swap s.taker_swaps })
  save_taker_swaps

-- The `match &status` of the two updates, and the new status.
unfoldable pub stamp : SwapStatus → SwapData → Action SwapData
unfolding get_current_timestamp
stamp SwapStatus.succeeded d = do
  now ← get_current_timestamp
  pure (record d { completed_at = some now; status = SwapStatus.succeeded })
stamp SwapStatus.failed d = do
  now ← get_current_timestamp
  pure (record d { completed_at = some now; status = SwapStatus.failed })
stamp SwapStatus.expired d = do
  now ← get_current_timestamp
  pure (record d { completed_at = some now; status = SwapStatus.expired })
stamp SwapStatus.pending d = do
  now ← get_current_timestamp
  pure (record d { initiated_at = some now; status = SwapStatus.pending })
stamp SwapStatus.waiting d = panic

unfoldable pub update_maker_swap_status : Bytes → SwapStatus → Action (Unit {0})
unfolding stamp save_maker_swaps
update_maker_swap_status hash status = do
  swaps ← gets (λ s. s.maker_swaps)
  swap ← unwrap (lookup hash swaps)
  swap' ← stamp status swap
  modify (λ s. record s { maker_swaps = insert hash swap' s.maker_swaps })
  save_maker_swaps

unfoldable pub update_taker_swap_status : Bytes → SwapStatus → Action (Unit {0})
unfolding stamp save_taker_swaps
update_taker_swap_status hash status = do
  swaps ← gets (λ s. s.taker_swaps)
  swap ← unwrap (lookup hash swaps)
  swap' ← stamp status swap
  modify (λ s. record s { taker_swaps = insert hash swap' s.taker_swaps })
  save_taker_swaps

unfoldable pub is_maker_swap : Bytes → UnlockedAppState → Bool
is_maker_swap hash s = contains_key hash s.maker_swaps

unfoldable pub is_taker_swap : Bytes → UnlockedAppState → Bool
is_taker_swap hash s = contains_key hash s.taker_swaps
