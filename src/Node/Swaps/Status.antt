-- ===== src/Node/Swaps/Status.antt =====
-- Every operation on the swap maps keeps the invariant.
use f1r3fly_rgb_lightning_no.Common.{inl, inr, Bytes, lookup, insert-AllValues, Bool-cases, arith}
use f1r3fly_rgb_lightning_no.Swap.{SwapData, SwapStatus}
use f1r3fly_rgb_lightning_no.Node.State.{UnlockedAppState}
use f1r3fly_rgb_lightning_no.Node.Monad.{gets, unwrap}
use f1r3fly_rgb_lightning_no.Node.Invariant.{
  IsInitiated, IsSound, Keeps, SoundAfter, Returns, bind-Keeps, bind-Returns, gets-Keeps,
  unwrap-Keeps, get_current_timestamp-Keeps,
}
use f1r3fly_rgb_lightning_no.Node.Swaps.{
  stamp, add_maker_swap, add_taker_swap, update_maker_swap_status, update_taker_swap_status,
}

add_maker-SoundAfter :
    (h : Bytes) (d : SwapData) (s : UnlockedAppState)
    → IsInitiated d
    → IsSound s
    → SoundAfter (add_maker_swap h d s)
unfolding add_maker_swap
add_maker-SoundAfter h d s i v = elim (Bool-cases s.write_fails) [
  | inl bad ↦ rw bad tt
  | inr good ↦
      rw good (ground (arith, insert-AllValues IsInitiated h d s.maker_swaps i v.maker_initiated))
]

pub add_maker_swap-Keeps : (h : Bytes) (d : SwapData) → IsInitiated d → Keeps (add_maker_swap h d)
add_maker_swap-Keeps h d i = record { apply = λ s. add_maker-SoundAfter h d s i }

add_taker-SoundAfter :
    (h : Bytes) (d : SwapData) (s : UnlockedAppState)
    → IsInitiated d
    → IsSound s
    → SoundAfter (add_taker_swap h d s)
unfolding add_taker_swap
add_taker-SoundAfter h d s i v = elim (Bool-cases s.write_fails) [
  | inl bad ↦ rw bad tt
  | inr good ↦
      rw good (ground (arith, insert-AllValues IsInitiated h d s.taker_swaps i v.taker_initiated))
]

pub add_taker_swap-Keeps : (h : Bytes) (d : SwapData) → IsInitiated d → Keeps (add_taker_swap h d)
add_taker_swap-Keeps h d i = record { apply = λ s. add_taker-SoundAfter h d s i }

-- The stamped data of a swap has its start, whatever it had before.
stamp-Returns : (status : SwapStatus) (d : SwapData) → Returns IsInitiated (stamp status d)
unfolding stamp
stamp-Returns SwapStatus.waiting d = record { apply = λ s v. tt }
stamp-Returns _ d = record { apply = λ s v. (tt, (get_current_timestamp-Keeps).apply s v) }

pub update_maker_swap_status-Keeps :
    (h : Bytes) (status : SwapStatus) → Keeps (update_maker_swap_status h status)
unfolding update_maker_swap_status add_maker_swap
update_maker_swap_status-Keeps h status =
    bind-Keeps (gets (λ s. s.maker_swaps)) _ (gets-Keeps _) λ swaps.
      bind-Keeps (unwrap (lookup h swaps)) _ (unwrap-Keeps _) λ d.
        bind-Returns IsInitiated (stamp status d) _ (stamp-Returns status d)
          λ d' i. add_maker_swap-Keeps h d' i

pub update_taker_swap_status-Keeps :
    (h : Bytes) (status : SwapStatus) → Keeps (update_taker_swap_status h status)
unfolding update_taker_swap_status add_taker_swap
update_taker_swap_status-Keeps h status =
    bind-Keeps (gets (λ s. s.taker_swaps)) _ (gets-Keeps _) λ swaps.
      bind-Keeps (unwrap (lookup h swaps)) _ (unwrap-Keeps _) λ d.
        bind-Returns IsInitiated (stamp status d) _ (stamp-Returns status d)
          λ d' i. add_taker_swap-Keeps h d' i
