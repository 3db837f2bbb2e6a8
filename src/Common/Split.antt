-- ===== src/Common/Split.antt =====
-- `str::split` at a byte.
use Prim.Native.Nat.{ℕ}
use mathlib.Core.Path.{◌≡◌, refl}
use mathlib.Core.Logic.{◌≢◌}
use mathlib.Core.List.{List, [], ◌∷◌, ◌++◌}
use native.Mathlib.Omega.{arith}
use f1r3fly_rgb_lightning_no.Common.Tests.{◌==◌, if◌then◌else◌}
use f1r3fly_rgb_lightning_no.Common.Lists.{All}
use f1r3fly_rgb_lightning_no.Common.Text.{Bytes}

abbrev cons_head : ℕ → List Bytes → List Bytes
cons_head x [] = (x ∷ []) ∷ []
cons_head x (p ∷ ps) = (x ∷ p) ∷ ps

unfoldable pub split : ℕ → Bytes → List Bytes
split sep [] = [] ∷ []
split sep (x ∷ xs) = let rest = split sep xs in if x == sep then [] ∷ rest else cons_head x rest

abbrev pub IsFree : ℕ → Bytes → Type 0
IsFree sep = All (λ b. b ≢ sep)

pub split_free : (sep : ℕ) (p : Bytes) → IsFree sep p → split sep p ≡ p ∷ []
unfolding split
split_free sep [] h = refl
split_free sep (x ∷ p) h = ground (arith, split_free sep p h.1)

pub split-append :
    (sep : ℕ) (p q : Bytes) → IsFree sep p → split sep (p ++ (sep ∷ q)) ≡ p ∷ split sep q
unfolding split
split-append sep [] q h = ground arith
split-append sep (x ∷ p) q h = ground (arith, split-append sep p q h.1)
