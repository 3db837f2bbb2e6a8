-- ===== src/Decimal/Laws.antt =====
-- Printing a `u64` and reading it back, and the bytes that are printed.
use f1r3fly_rgb_lightning_no.Common.{
  ℕ, zero, suc, ◌+◌, ◌*◌, ◌/◌, ◌%◌, ◌≤◌, ◌<◌, ◌≡◌, refl, ◌≢◌, ◌-◌, ap, sym, ◌∙◌, inl, inr, some, [],
  ◌∷◌, ◌++◌, Bytes, All, All-append, Bool-cases, ltb, arith,
}
use mathlib.Core.List.{append_assoc, append-nil}
use f1r3fly_rgb_lightning_no.Decimal.{u64_bound, digits_of, show_nat, parse_digits, parse_u64}

abbrev pub IsDigit : ℕ → Type 0
IsDigit c = (b'0' ≤ c) × (c ≤ b'9')

digits_of-IsDigit : (f n : ℕ) → All IsDigit (digits_of f n)
unfolding digits_of
digits_of-IsDigit zero n = tt
digits_of-IsDigit (suc f) n = elim (Bool-cases (ltb n 10)) [
  | inl small ↦ ground arith
  | inr large ↦ ground (
    arith,
    All-append IsDigit (digits_of f (n / 10)) ((n % 10 + b'0') ∷ []) (digits_of-IsDigit f (n / 10)),
  )
]

pub show_nat-IsDigit : (n : ℕ) → All IsDigit (show_nat n)
unfolding show_nat
show_nat-IsDigit n = digits_of-IsDigit (suc n) n

parse_digits-cons :
    (acc d : ℕ) (rest : Bytes)
    → d < 10
    → acc * 10 + d < u64_bound
    → parse_digits acc ((d + b'0') ∷ rest) ≡ parse_digits (acc * 10 + d) rest
unfolding parse_digits
parse_digits-cons acc d rest h b = let e : d + b'0' - b'0' ≡ d = omega arith in rw e (ground arith)

parse_digits-last :
    (n : ℕ) (rest : Bytes)
    → n < u64_bound
    → parse_digits (n / 10) ((n % 10 + b'0') ∷ rest) ≡ parse_digits n rest
parse_digits-last n rest b =
    let whole : n / 10 * 10 + n % 10 ≡ n = omega arith in
    parse_digits-cons (n / 10) (n % 10) rest (omega arith) (omega arith) ∙ rw whole

parse_digits-nil : (n : ℕ) → parse_digits n [] ≡ some n
unfolding parse_digits
parse_digits-nil n = refl

zero_times : (n : ℕ) → 0 * 10 + n ≡ n
zero_times n = omega arith

append-singleton-ne-nil : (xs : Bytes) (x : ℕ) → xs ++ (x ∷ []) ≢ []
append-singleton-ne-nil [] x e = cc
append-singleton-ne-nil (y ∷ xs) x e = cc

parse_digits-digits_of :
    (f n : ℕ) (rest : Bytes)
    → n < f
    → n < u64_bound
    → parse_digits 0 (digits_of f n ++ rest) ≡ parse_digits n rest
unfolding digits_of
parse_digits-digits_of zero n rest h b = elim h [ ]
parse_digits-digits_of (suc f) n rest h b = elim (Bool-cases (ltb n 10)) [
  | inl small ↦
      rw small (parse_digits-cons 0 n rest (ground arith) (omega arith) ∙ rw (zero_times n))
  | inr large ↦
      rw (large, append_assoc)
        (parse_digits-digits_of f (n / 10) ((n % 10 + b'0') ∷ rest) (ground arith) (omega arith)
          ∙ parse_digits-last n rest b)
]

parse_u64-digits : (ds : Bytes) → All IsDigit ds → ds ≢ [] → parse_u64 ds ≡ parse_digits 0 ds
unfolding parse_u64
parse_u64-digits [] h ne = absurd (ne refl)
parse_u64-digits (c ∷ cs) h ne = ground arith

show_nat-ne-nil : (n : ℕ) → show_nat n ≢ []
unfolding show_nat
show_nat-ne-nil n e = elim (Bool-cases (ltb n 10)) [
  | inl small ↦ ground arith
  | inr large ↦ append-singleton-ne-nil _ _ (rw large at e)
]

-- A `u64` that is printed is read back as itself.
pub parse_u64-show_nat : (n : ℕ) → n < u64_bound → parse_u64 (show_nat n) ≡ some n
unfolding show_nat
parse_u64-show_nat n b =
    parse_u64-digits (show_nat n) (show_nat-IsDigit n) (show_nat-ne-nil n)
    ∙ ap (parse_digits 0) (sym (append-nil (show_nat n)))
    ∙ parse_digits-digits_of (suc n) n [] (omega arith) b
    ∙ parse_digits-nil n

parse_digits-lt :
    (acc : ℕ) (ds : Bytes) (n : ℕ) → acc < u64_bound → parse_digits acc ds ≡ some n → n < u64_bound
unfolding parse_digits
parse_digits-lt acc [] n b e = ground arith
parse_digits-lt acc (c ∷ cs) n b e = ground (arith, parse_digits-lt (acc * 10 + (c - b'0')) cs n)

-- What is read fits a `u64`.
pub parse_u64-lt : (s : Bytes) (n : ℕ) → parse_u64 s ≡ some n → n < u64_bound
unfolding parse_u64
parse_u64-lt [] n e = cc
parse_u64-lt (c ∷ []) n e = ground (arith, parse_digits-lt 0 (c ∷ []) n)
parse_u64-lt (c ∷ d ∷ cs) n e =
    ground (arith, parse_digits-lt 0 (c ∷ d ∷ cs) n, parse_digits-lt 0 (d ∷ cs) n)
