-- ===== src/Decimal.antt =====
-- Rust's decimal `Display` and `FromStr` of `u64`, as the swap string and the messages use them.
pub mod Laws
use f1r3fly_rgb_lightning_no.Common.{
  ℕ, zero, suc, ◌+◌, ◌-◌, ◌*◌, ◌/◌, ◌%◌, ◌^◌, Bool, ◌&&◌, Option, none, some, List, [], ◌∷◌, ◌++◌,
  Bytes, ltb, leb, ◌==◌, if◌then◌else◌,
}

abbrev pub u64_bound : ℕ
u64_bound = 2 ^ 64

unfoldable pub digits_of : ℕ → ℕ → Bytes
digits_of zero n = []
digits_of (suc f) n =
    let front = digits_of f (n / 10) in
    if ltb n 10 then (n + b'0') ∷ [] else front ++ ((n % 10 + b'0') ∷ [])

unfoldable pub show_nat : ℕ → Bytes
unfolding digits_of
show_nat n = digits_of (suc n) n

abbrev pub is_digit : ℕ → Bool
is_digit c = leb b'0' c && leb c b'9'

-- The checked multiplication and addition of `u64::from_str`: `none` on a digit that does not fit.
unfoldable pub parse_digits : ℕ → Bytes → Option ℕ
parse_digits acc [] = some acc
parse_digits acc (c ∷ cs) =
    let acc' = acc * 10 + (c - b'0') in
    let rest = parse_digits acc' cs in if is_digit c && ltb acc' u64_bound then rest else none

-- An empty string, or a sign alone, is no number.
abbrev pub parse_unsigned : Bytes → Option ℕ
parse_unsigned [] = none
parse_unsigned (c ∷ cs) = parse_digits 0 (c ∷ cs)

unfoldable pub parse_u64 : Bytes → Option ℕ
unfolding parse_digits
parse_u64 [] = none
parse_u64 (c ∷ cs) = if c == b'+' then parse_unsigned cs else parse_digits 0 (c ∷ cs)
