-- ===== src/Common/Maps.antt =====
-- Rust's `HashMap` with byte-string keys, as an association list in the order of insertion.
use mathlib.Core.Path.{◌≡◌, refl, subst}
use mathlib.Core.Logic.{inl, inr}
use mathlib.Core.Option.{none-ne-some, some-injective}
use mathlib.Core.Bool.{Bool}
use mathlib.Core.Option.{Option, none, some}
use mathlib.Core.List.{List, [], ◌∷◌}
use native.Mathlib.Omega.{arith}
use f1r3fly_rgb_lightning_no.Common.Tests.{Bool-cases, if◌then◌else◌, is_some}
use f1r3fly_rgb_lightning_no.Common.Lists.{All}
use f1r3fly_rgb_lightning_no.Common.Text.{Bytes, bytes_eq, bytes_eq_iff}

abbrev pub Map {ℓ} : Type ℓ → Type ℓ
Map V = List (Bytes × V)

module _ {ℓ} {V : Type ℓ} where
  unfoldable pub lookup : Bytes → Map V → Option V
  lookup k [] = none
  lookup k ((j, v) ∷ m) = if bytes_eq j k then some v else lookup k m

  unfoldable pub insert : Bytes → V → Map V → Map V
  insert k v [] = (k, v) ∷ []
  insert k v ((j, w) ∷ m) = if bytes_eq j k then (k, v) ∷ m else (j, w) ∷ insert k v m

  unfoldable pub remove : Bytes → Map V → Map V
  remove k [] = []
  remove k ((j, w) ∷ m) = let rest = remove k m in if bytes_eq j k then rest else (j, w) ∷ rest

  abbrev pub contains_key : Bytes → Map V → Bool
  contains_key k m = is_some (lookup k m)

  -- No key is listed twice.
  abbrev pub NodupKeys : Map V → Type ℓ
  NodupKeys [] = Unit
  NodupKeys ((k, _) ∷ m) = (lookup k m ≡ none) × NodupKeys m

  pub lookup-cons :
      (k j : Bytes) (v : V) (m : Map V)
      → lookup j ((k, v) ∷ m) ≡ (if bytes_eq k j then some v else lookup j m)
  unfolding lookup
  lookup-cons k j v m = refl

  pub lookup-insert :
      (k j : Bytes) (v : V) (m : Map V)
      → lookup j (insert k v m) ≡ (if bytes_eq k j then some v else lookup j m)
  unfolding lookup insert
  lookup-insert k j v [] = refl
  lookup-insert k j v ((i, w) ∷ m) =
      ground (arith, bytes_eq_iff k j, bytes_eq_iff i k, bytes_eq_iff i j, lookup-insert k j v m)

  pub lookup-remove :
      (k j : Bytes) (m : Map V)
      → lookup j (remove k m) ≡ (if bytes_eq k j then none else lookup j m)
  unfolding lookup remove
  lookup-remove k j [] = ground arith
  lookup-remove k j ((i, w) ∷ m) =
      ground (arith, bytes_eq_iff k j, bytes_eq_iff i k, bytes_eq_iff i j, lookup-remove k j m)

  pub insert-NodupKeys : (k : Bytes) (v : V) (m : Map V) → NodupKeys m → NodupKeys (insert k v m)
  unfolding insert lookup
  insert-NodupKeys k v [] _ = (refl, tt)
  insert-NodupKeys k v ((j, w) ∷ m) (fresh, u) =
      ground
        (arith, insert-NodupKeys k v m u, lookup-insert k j v m, bytes_eq_iff j k, bytes_eq_iff k j)

-- A predicate on every value of a map.
abbrev pub AllValues {ℓ κ} : {V : Type ℓ} → (V → Type κ) → Map V → Type κ
AllValues P m = All (λ e. P e.1) m

module _ {ℓ κ} {V : Type ℓ} (P : V → Type κ) where
  pub insert-AllValues :
      (k : Bytes) (v : V) (m : Map V) → P v → AllValues P m → AllValues P (insert k v m)
  unfolding insert
  insert-AllValues k v [] p h = (p, h)
  insert-AllValues k v ((j, w) ∷ m) p h = elim (Bool-cases (bytes_eq j k)) [
    | inl same ↦ rw same (p, h.1)
    | inr differ ↦ rw differ (h.0, insert-AllValues k v m p h.1)
  ]

  pub lookup-AllValues : (k : Bytes) (v : V) (m : Map V) → AllValues P m → lookup k m ≡ some v → P v
  unfolding lookup
  lookup-AllValues k v [] h e = absurd (none-ne-some v e)
  lookup-AllValues k v ((j, w) ∷ m) h e = elim (Bool-cases (bytes_eq j k)) [
    | inl same ↦ subst P (some-injective w v (rw same at e)) h.0
    | inr differ ↦ lookup-AllValues k v m h.1 (rw differ at e)
  ]
