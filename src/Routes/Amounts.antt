-- ===== src/Routes/Amounts.antt =====
-- The amounts that the handlers compare with (src/routes.rs), and `u64` addition in a release build.
use f1r3fly_rgb_lightning_no.Common.{ℕ, ◌+◌, ◌%◌, ◌^◌}

abbrev pub htlc_min_msat : ℕ
htlc_min_msat = 3000000

abbrev pub max_swap_fee_msat : ℕ
max_swap_fee_msat = htlc_min_msat

abbrev pub dust_limit_msat : ℕ
dust_limit_msat = 546000

abbrev pub invoice_min_msat : ℕ
invoice_min_msat = htlc_min_msat

-- `a + b` on `u64`, which wraps in a release build.
unfoldable pub wrapping_add : ℕ → ℕ → ℕ
wrapping_add a b = (a + b) % 2 ^ 64
