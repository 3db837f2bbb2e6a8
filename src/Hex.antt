-- ===== src/Hex.antt =====
-- `hex_str`, `hex_str_to_vec` and their direct callers (src/utils.rs).
pub mod Laws
use Prim.Native.Nat.{bit_or}
use mathlib.Core.Option
use f1r3fly_rgb_lightning_no.Common.{
  ℕ, suc, ◌+◌, ◌-◌, ◌*◌, ◌/◌, ◌%◌, Bool, ◌&&◌, Option, none, some, List, [], ◌∷◌, ◌++◌, Bytes, ltb,
  leb, ◌==◌, if◌then◌else◌, length,
}

-- A digit of `{:02x}`.
unfoldable pub hex_digit : ℕ → ℕ
hex_digit d = if ltb d 10 then d + b'0' else d - 10 + b'a'

unfoldable pub hex_str : Bytes → Bytes
unfolding hex_digit
hex_str [] = []
hex_str (v ∷ vs) = hex_digit (v / 16) ∷ hex_digit (v % 16) ∷ hex_str vs

-- The `match *c`: the value that is or-ed into `b`.
unfoldable pub hex_value : ℕ → Option ℕ
hex_value c =
    if leb b'A' c && leb c b'F'
    then some (c - b'A' + 10)
    else if leb b'a' c && leb c b'f'
    then some (c - b'a' + 10)
    else if leb b'0' c && leb c b'9'
    then some (c - b'0')
    else none

-- The loop over `hex.as_bytes().iter().enumerate()`; `b` is a `u8`, so `b <<= 4` drops its top.
unfoldable pub hex_loop : ℕ → ℕ → Bytes → Bytes → Option Bytes
hex_loop idx b out [] = some out
hex_loop idx b out (c ∷ cs) = elim (hex_value c) [
  | none ↦ none
  | some d ↦
      let b' = bit_or (b * 16 % 256) d in
      if idx % 2 == 1
      then hex_loop (idx + 1) 0 (out ++ (b' ∷ [])) cs
      else hex_loop (idx + 1) b' out cs
]

unfoldable pub hex_str_to_vec : Bytes → Option Bytes
unfolding hex_loop hex_value
hex_str_to_vec hex = hex_loop 0 0 [] hex

-- `hex_str_to_compressed_pubkey` (src/utils.rs)
unfoldable pub hex_str_to_compressed_pubkey : (Bytes → Option Bytes) → Bytes → Option Bytes
hex_str_to_compressed_pubkey pubkey_from_slice hex =
    let bytes = hex_str_to_vec hex in
    if length hex == 33 * 2 then Option.bind bytes pubkey_from_slice else none
