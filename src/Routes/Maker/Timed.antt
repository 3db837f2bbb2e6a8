-- ===== src/Routes/Maker/Timed.antt =====
-- The two readings of the clock by `maker_init` (src/routes.rs): the one for the expiry, and the one for the request's time.
use f1r3fly_rgb_lightning_no.Common.{
  ℕ, ◌+◌, ◌≡◌, refl, ap, some, Bytes, lookup, lookup-insert, bytes_eq_refl, Bool-cases, inl, inr,
  arith,
}
use f1r3fly_rgb_lightning_no.Swap.{SwapData}
use f1r3fly_rgb_lightning_no.Node.{UnlockedAppState, get_current_timestamp}
use f1r3fly_rgb_lightning_no.Node.Ensures.{Ensures, Leads}
use f1r3fly_rgb_lightning_no.Node.Swaps.{add_maker_swap}

-- The two last readings of the clock.
pub record Timed (now requested : ℕ) (s : UnlockedAppState) : Type 0 where
  pub reading : ℕ
  pub last_readings : s.ticks ≡ reading + 2
  pub now_read : now ≡ s.clock reading
  pub requested_read : requested ≡ s.clock (reading + 1)

-- The last reading of the clock.
pub record ReadNow (now : ℕ) (s : UnlockedAppState) : Type 0 where
  pub reading : ℕ
  pub last_reading : s.ticks ≡ reading + 1
  pub now_read : now ≡ s.clock reading

pub read_now : Ensures get_current_timestamp ReadNow
unfolding get_current_timestamp
read_now = record {
  apply = λ s. record { reading = s.ticks; last_reading = refl; now_read = refl };
}

pub read_requested : (now : ℕ) → Leads (ReadNow now) get_current_timestamp (Timed now)
unfolding get_current_timestamp
read_requested now = record {
  apply = λ s h. record {
    reading = h.reading;
    last_readings = (let q = h.last_reading in omega arith);
    now_read = h.now_read;
    requested_read = ap s.clock h.last_reading;
  };
}

pub add_maker_swap-Leads :
    (now requested : ℕ) (hash : Bytes) (d : SwapData)
    → Leads
        (Timed now requested)
        (add_maker_swap hash d)
        (λ _ s. (lookup hash s.maker_swaps ≡ some d) × Timed now requested s)
unfolding add_maker_swap
add_maker_swap-Leads now requested hash d = record {
  apply = λ s h. elim (Bool-cases s.write_fails) [
    | inl bad ↦ rw bad tt
    | inr good ↦ rw good (
      rw (lookup-insert hash hash d s.maker_swaps, bytes_eq_refl hash) refl,
      record {
        reading = h.reading;
        last_readings = h.last_readings;
        now_read = h.now_read;
        requested_read = h.requested_read;
      },
    )
  ];
}
