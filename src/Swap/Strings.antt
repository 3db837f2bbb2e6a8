-- ===== src/Swap/Strings.antt =====
-- `SwapString`, its `Display` and its `FromStr` (src/swap.rs).
use mathlib.Core.Option
use f1r3fly_rgb_lightning_no.Common.{
  ◌||◌, Option, none, some, List, [], ◌∷◌, ◌++◌, Bytes, length, split, str, bytes_eq, ◌==◌,
  if◌then◌else◌,
}
use f1r3fly_rgb_lightning_no.Decimal.{show_nat, parse_u64}
use f1r3fly_rgb_lightning_no.Hex.{hex_str_to_vec}
use f1r3fly_rgb_lightning_no.Swap.Codecs.{Codec}
use f1r3fly_rgb_lightning_no.Swap.Data.{SwapInfo, same_asset}

pub record SwapString : Type 0 where
  pub swap_info : SwapInfo
  pub payment_hash : Bytes

unfoldable pub from_swap_info : SwapInfo → Bytes → SwapString
from_swap_info info hash = record { swap_info = info; payment_hash = hash }

-- `Result<SwapString, &'static str>`
pub data Parsed : Type 0 where
  ok : SwapString → Parsed
  err : Bytes → Parsed

-- `vec.try_into::<[u8; 32]>().ok()`
unfoldable pub to_array32 : Bytes → Option Bytes
to_array32 v = if length v == 32 then some v else none

infixl 5 ◌>>=◌
abbrev pub ◌>>=◌ : {A B : Type 0} → Option A → (A → Option B) → Option B
none >>= f = none
some a >>= f = f a

-- The checks after the fields are parsed.
unfoldable pub check_fields : SwapString → Parsed
unfolding same_asset
check_fields s =
    if s.swap_info.qty_from == 0 || s.swap_info.qty_to == 0 || s.swap_info.expiry == 0
    then err (str "qty_from, qty_to and expiry should be positive")
    else if same_asset s.swap_info
    then err (str "From and to assets should be different")
    else ok s

abbrev pub or_unable : Option SwapString → Parsed
or_unable none = err (str "Unable to parse")
or_unable (some s) = check_fields s

module _ (codec : Codec) where
  unfoldable pub show_asset : Option Bytes → Bytes
  show_asset none = str "btc"
  show_asset (some c) = codec.contract_to_string c

  -- `impl fmt::Display for SwapString`
  unfoldable pub to_string : SwapString → Bytes
  unfolding show_asset
  to_string s =
      show_nat s.swap_info.qty_from
      ++ (b'/'
          ∷ (show_asset s.swap_info.from_asset
              ++ (b'/'
                  ∷ (show_nat s.swap_info.qty_to
                      ++ (b'/'
                          ∷ (show_asset s.swap_info.to_asset
                              ++ (b'/'
                                  ∷ (show_nat s.swap_info.expiry
                                      ++ (b'/' ∷ codec.show_payment_hash s.payment_hash)))))))))

  unfoldable pub parse_swapstring_asset : Bytes → Option (Option Bytes)
  parse_swapstring_asset asset =
      if bytes_eq asset (str "btc")
      then some none
      else Option.map some (codec.contract_from_str asset)

  unfoldable pub parse_fields : Bytes → Bytes → Bytes → Bytes → Bytes → Bytes → Option SwapString
  unfolding parse_swapstring_asset to_array32
  parse_fields qty_from from_asset qty_to to_asset expiry payment_hash = do
    qf ← parse_u64 qty_from
    qt ← parse_u64 qty_to
    fa ← parse_swapstring_asset from_asset
    ta ← parse_swapstring_asset to_asset
    e ← parse_u64 expiry
    h ← hex_str_to_vec payment_hash >>= to_array32
    some (record {
      swap_info = record { qty_from = qf; qty_to = qt; from_asset = fa; to_asset = ta; expiry = e };
      payment_hash = h;
    })

  unfoldable pub from_parts : List Bytes → Parsed
  unfolding parse_fields check_fields
  from_parts (a ∷ b ∷ c ∷ d ∷ e ∷ f ∷ []) = or_unable (parse_fields a b c d e f)
  from_parts _ = err (str "Wrong number of parts")

  -- `impl FromStr for SwapString`
  unfoldable pub from_str : Bytes → Parsed
  unfolding from_parts
  from_str s = from_parts (split b'/' s)
