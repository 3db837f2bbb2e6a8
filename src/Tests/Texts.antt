-- ===== src/Tests/Texts.antt =====
-- The texts: swap strings, hexadecimal, decimal, and errors.
use f1r3fly_rgb_lightning_no.Common.{◌≡◌, refl, some, [], ◌∷◌, Bytes, str, arith}
use f1r3fly_rgb_lightning_no.Decimal.{show_nat, parse_u64}
use f1r3fly_rgb_lightning_no.Decimal.Laws.{parse_u64-show_nat}
use f1r3fly_rgb_lightning_no.Hex.{hex_str, hex_str_to_vec}
use f1r3fly_rgb_lightning_no.Hex.Laws.{hex_str_to_vec-hex_str}
use f1r3fly_rgb_lightning_no.Error.{ApiError, BitcoinNetwork}
use f1r3fly_rgb_lightning_no.Swap.{Parsed, from_str, to_string}
use f1r3fly_rgb_lightning_no.Swap.Roundtrip.{
  IsWellFormed, from_str-to_string, from_str-IsWellFormed,
}
use f1r3fly_rgb_lightning_no.Tests.Data.{codec, codec-IsLawful, offer}

pub offer-IsWellFormed : IsWellFormed offer
offer-IsWellFormed = record {
  qty_from_pos = omega arith;
  qty_to_pos = omega arith;
  expiry_pos = omega arith;
  qty_from_lt = omega arith;
  qty_to_lt = omega arith;
  expiry_lt = omega arith;
  distinct = λ e. cc;
  hash_bytes = ground arith;
  hash_length = refl;
}

abbrev pub offer_text : Bytes
offer_text = to_string codec offer

from_str-to_string_example : from_str codec offer_text ≡ Parsed.ok offer
from_str-to_string_example = from_str-to_string codec codec-IsLawful offer offer-IsWellFormed

pub offer_is_read : from_str codec offer_text ≡ Parsed.ok offer
offer_is_read = from_str-to_string codec codec-IsLawful offer offer-IsWellFormed

from_str-IsWellFormed_example : IsWellFormed offer
from_str-IsWellFormed_example = from_str-IsWellFormed codec offer_text offer offer_is_read

hex_str_to_vec-hex_str_example :
    hex_str_to_vec (hex_str (0 ∷ 171 ∷ 255 ∷ [])) ≡ some (0 ∷ 171 ∷ 255 ∷ [])
hex_str_to_vec-hex_str_example = hex_str_to_vec-hex_str (0 ∷ 171 ∷ 255 ∷ []) (ground arith)

abbrev odd_digits : Bytes
odd_digits = b'a' ∷ b'B' ∷ b'7' ∷ []

abbrev one_byte : Bytes
one_byte = 171 ∷ []

odd_text : hex_str_to_vec odd_digits ≡ some one_byte
unfolding hex_str_to_vec
odd_text = refl

parse_u64-show_nat_example : parse_u64 (show_nat 18446744073709551615) ≡ some 18446744073709551615
parse_u64-show_nat_example = parse_u64-show_nat 18446744073709551615 (omega arith)

abbrev show_network : BitcoinNetwork → Bytes
show_network _ = str "Regtest"

abbrev two_lines : ApiError
two_lines = ApiError.unexpected (b'a' ∷ 10 ∷ b'b' ∷ [])
