-- ===== src/Hex/Laws.antt =====
-- `hex_str_to_vec` reads back what `hex_str` writes, and what it accepts.
use Prim.Native.Nat.{bit_or}
use f1r3fly_rgb_lightning_no.Common.{
  ℕ, zero, suc, ◌+◌, ◌*◌, ◌/◌, ◌%◌, ◌<◌, ◌≤◌, All, ◌≡◌, refl, ◌∙◌, sym, inl, inr, Bool, true, ◌&&◌,
  some, [], ◌∷◌, ◌++◌, ap, Bytes, IsBytes, All-append, Option-cases, length, length-append, ◌==◌,
  ==_iff, arith, Bool-cases, IsFree,
}
use mathlib.Core.Option.{some-injective, none-ne-some}
use mathlib.Core.List.{append_assoc, append-nil}
use f1r3fly_rgb_lightning_no.Hex.{hex_digit, hex_str, hex_value, hex_loop, hex_str_to_vec}

hex_value-hex_digit : (d : ℕ) → d < 16 → hex_value (hex_digit d) ≡ some d
unfolding hex_value hex_digit
hex_value-hex_digit d h = ground arith

hex_value-lt : (c : ℕ) {d : ℕ} → hex_value c ≡ some d → d < 16
unfolding hex_value
hex_value-lt c e = ground arith

-- Every half byte, tried in turn.
tried : (ℕ → Bool) → ℕ → Bool
tried p zero = true
tried p (suc k) = tried p k && p k

tried_at : (x k : ℕ) (p : ℕ → Bool) → tried p k ≡ true → x < k → p x ≡ true
unfolding tried
tried_at x zero p all lt = absurd (omega arith)
tried_at x (suc k) p all lt = ground (arith, tried_at x k p)

-- The or of two half bytes is their sum.
or_is_sum : ℕ → ℕ → Bool
or_is_sum h l = bit_or (h * 16 % 256) l == h * 16 + l

or_is_sum_everywhere : tried (λ h. tried (or_is_sum h) 16) 16 ≡ true
unfolding tried or_is_sum
or_is_sum_everywhere = refl

sum_of_test : (h l : ℕ) → or_is_sum h l ≡ true → bit_or (h * 16 % 256) l ≡ h * 16 + l
unfolding or_is_sum
sum_of_test h l t = (==_iff _ _).0 t

bit_or_nibbles : (h l : ℕ) → h < 16 → l < 16 → bit_or (h * 16 % 256) l ≡ h * 16 + l
bit_or_nibbles h l p q =
    let row = tried_at h 16 (λ i. tried (or_is_sum i) 16) or_is_sum_everywhere p in
    sum_of_test h l (tried_at l 16 (or_is_sum h) row q)

-- Two digits of one byte, read at an even place.
hex_loop-byte :
    (idx v : ℕ) (out rest : Bytes)
    → idx % 2 ≡ 0
    → v < 256
    → hex_loop idx 0 out (hex_digit (v / 16) ∷ hex_digit (v % 16) ∷ rest)
      ≡ hex_loop (idx + 1 + 1) 0 (out ++ (v ∷ [])) rest
unfolding hex_loop
hex_loop-byte idx v out rest even h =
    let first : bit_or (0 * 16 % 256) (v / 16) ≡ v / 16 =
      bit_or_nibbles 0 (v / 16) (omega arith) (omega arith) ∙ omega arith in
    let second : bit_or (v / 16 * 16 % 256) (v % 16) ≡ v =
      bit_or_nibbles (v / 16) (v % 16) (omega arith) (omega arith) ∙ omega arith in
    ground (arith, first, second, hex_value-hex_digit (v / 16), hex_value-hex_digit (v % 16))

hex_loop-nil : (idx b : ℕ) (out : Bytes) → hex_loop idx b out [] ≡ some out
unfolding hex_loop
hex_loop-nil idx b out = refl

hex_loop-hex_str :
    (idx : ℕ) (out vs : Bytes)
    → idx % 2 ≡ 0
    → IsBytes vs
    → hex_loop idx 0 out (hex_str vs) ≡ some (out ++ vs)
unfolding hex_str
hex_loop-hex_str idx out [] even h = hex_loop-nil idx 0 out ∙ ap some (sym (append-nil out))
hex_loop-hex_str idx out (v ∷ vs) even h =
    hex_loop-byte idx v out (hex_str vs) even h.0
    ∙ hex_loop-hex_str (idx + 1 + 1) (out ++ (v ∷ [])) vs (omega arith) h.1
    ∙ ap some (append_assoc out (v ∷ []) vs)

-- Bytes that are printed in hexadecimal are read back as themselves.
pub hex_str_to_vec-hex_str : (v : Bytes) → IsBytes v → hex_str_to_vec (hex_str v) ≡ some v
unfolding hex_str_to_vec
hex_str_to_vec-hex_str v h = hex_loop-hex_str 0 [] v refl h

pub length-hex_str : (v : Bytes) → length (hex_str v) ≡ 2 * length v
unfolding hex_str
length-hex_str [] = omega arith
length-hex_str (x ∷ v) = omega (arith, length-hex_str v)

hex_loop-odd :
    (idx b d c : ℕ) (out s : Bytes)
    → b < 16
    → hex_value c ≡ some d
    → idx % 2 ≡ 1
    → hex_loop idx b out (c ∷ s) ≡ hex_loop (idx + 1) 0 (out ++ ((b * 16 + d) ∷ [])) s
unfolding hex_loop
hex_loop-odd idx b d c out s hb good odd =
    ground (arith, bit_or_nibbles b d hb (hex_value-lt c good))

hex_loop-even :
    (idx b d c : ℕ) (out s : Bytes)
    → b ≡ 0
    → hex_value c ≡ some d
    → idx % 2 ≡ 0
    → hex_loop idx b out (c ∷ s) ≡ hex_loop (idx + 1) d out s
unfolding hex_loop
hex_loop-even idx b d c out s zero_b good even =
    rw zero_b (ground (arith, bit_or_nibbles 0 d (omega arith) (hex_value-lt c good)))

hex_loop-IsBytes :
    (idx b : ℕ) (out s v : Bytes)
    → b < 16
    → (idx % 2 ≡ 0 → b ≡ 0)
    → IsBytes out
    → hex_loop idx b out s ≡ some v
    → IsBytes v × (length v ≡ length out + (length s + idx % 2) / 2)
unfolding hex_loop
hex_loop-IsBytes idx b out [] v hb z ho e =
    let same : out ≡ v = some-injective out v e in rw (← same) (ho, omega arith)
hex_loop-IsBytes idx b out (c ∷ s) v hb z ho e = elim (Option-cases (hex_value c)) [
  | inl bad ↦ absurd (none-ne-some v (rw (bad, hex_loop) at e))
  | inr (d, good) ↦
      let small = hex_value-lt c good in
      elim (Bool-cases (idx % 2 == 1)) [
        | inl odd ↦
            let step = hex_loop-odd idx b d c out s hb good ((==_iff _ _).0 odd) in
            let (bytes, len) =
              hex_loop-IsBytes (idx + 1) 0 (out ++ ((b * 16 + d) ∷ [])) s v (omega arith)
                (λ _. refl) (All-append (λ x. x < 256) out ((b * 16 + d) ∷ []) ho (omega arith))
                (sym step ∙ e) in
            (bytes, omega (arith, len, (==_iff _ _).0 odd, length-append out ((b * 16 + d) ∷ [])))
        | inr even ↦
            let place : idx % 2 ≡ 0 = ground arith in
            let step = hex_loop-even idx b d c out s (z place) good place in
            let (bytes, len) =
              hex_loop-IsBytes (idx + 1) d out s v small (λ k. absurd (omega arith)) ho
                (sym step ∙ e) in
            (bytes, omega (arith, len))
      ]
]

-- What is accepted gives bytes, one for two digits; a last single digit is dropped.
pub hex_str_to_vec-IsBytes :
    (s v : Bytes) → hex_str_to_vec s ≡ some v → IsBytes v × (length v ≡ length s / 2)
unfolding hex_str_to_vec
hex_str_to_vec-IsBytes s v e =
    let (bytes, len) = hex_loop-IsBytes 0 0 [] s v (omega arith) (λ _. refl) tt e in
    (bytes, omega (arith, len))

pub hex_str-IsFree : (v : Bytes) → IsFree b'/' (hex_str v)
unfolding hex_str hex_digit
hex_str-IsFree [] = tt
hex_str-IsFree (x ∷ v) = (ground arith, (ground arith, hex_str-IsFree v))

-- Every byte of the text is a digit or a lower-case letter.
pub hex_str-IsPrintable : (v : Bytes) → All (λ b. b'0' ≤ b) (hex_str v)
unfolding hex_str hex_digit
hex_str-IsPrintable [] = tt
hex_str-IsPrintable (x ∷ v) = (ground arith, (ground arith, hex_str-IsPrintable v))
