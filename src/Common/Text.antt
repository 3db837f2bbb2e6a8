-- ===== src/Common/Text.antt =====
-- Byte strings: Rust's `&str`, `String`, `Vec<u8>` and `[u8; 32]` alike.
use Prim.Native.Nat.{ℕ, ◌<◌}
use Prim.Native.Char.{code}
use Prim.Native.String.{String}
use mathlib.Core.Path.{◌≡◌, refl}
use mathlib.Core.Logic.{◌↔◌}
use mathlib.Core.Bool.{Bool, true, false, ◌&&◌}
use mathlib.Core.Option.{Option, none, some}
use mathlib.Core.List.{List, [], ◌∷◌}
use native.Mathlib.Omega.{arith}
use f1r3fly_rgb_lightning_no.Common.Tests.{◌==◌}
use f1r3fly_rgb_lightning_no.Common.Lists.{All}

abbrev pub Bytes : Type 0
Bytes = List ℕ

-- Every entry fits a `u8`.
abbrev pub IsBytes : Bytes → Type 0
IsBytes = All (λ b. b < 256)

-- The bytes of an ASCII literal.
unfoldable pub str : String → Bytes
str String.[] = []
str (String.◌∷◌ c s) = code c ∷ str s

unfoldable pub bytes_eq : Bytes → Bytes → Bool
bytes_eq [] [] = true
bytes_eq [] (_ ∷ _) = false
bytes_eq (_ ∷ _) [] = false
bytes_eq (x ∷ xs) (y ∷ ys) = x == y && bytes_eq xs ys

eq_of_bytes_eq : (a b : Bytes) → bytes_eq a b ≡ true → a ≡ b
unfolding bytes_eq
eq_of_bytes_eq [] [] h = refl
eq_of_bytes_eq [] (_ ∷ _) h = cc
eq_of_bytes_eq (_ ∷ _) [] h = cc
eq_of_bytes_eq (x ∷ xs) (y ∷ ys) h = ground (arith, eq_of_bytes_eq xs ys)

pub bytes_eq_refl : (a : Bytes) → bytes_eq a a ≡ true
unfolding bytes_eq
bytes_eq_refl [] = refl
bytes_eq_refl (x ∷ xs) = ground (arith, bytes_eq_refl xs)

pub bytes_eq_iff : (a b : Bytes) → (bytes_eq a b ≡ true) ↔ (a ≡ b)
bytes_eq_iff a b = (eq_of_bytes_eq a b, λ e. rw e (bytes_eq_refl b))

-- `==` on `Option<ContractId>`.
unfoldable pub option_bytes_eq : Option Bytes → Option Bytes → Bool
option_bytes_eq none none = true
option_bytes_eq none (some _) = false
option_bytes_eq (some _) none = false
option_bytes_eq (some a) (some b) = bytes_eq a b

pub option_bytes_eq_iff : (a b : Option Bytes) → (option_bytes_eq a b ≡ true) ↔ (a ≡ b)
unfolding option_bytes_eq
option_bytes_eq_iff none none = ground arith
option_bytes_eq_iff none (some b) = ground arith
option_bytes_eq_iff (some a) none = ground arith
option_bytes_eq_iff (some a) (some b) = ground (arith, bytes_eq_iff a b)

-- `[T]::contains` over byte strings.
unfoldable pub contains : List Bytes → Bytes → Bool
contains [] _ = false
contains (x ∷ xs) a = elim (bytes_eq x a) [ true ↦ true | false ↦ contains xs a ]
