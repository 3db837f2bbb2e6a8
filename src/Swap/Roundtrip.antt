-- ===== src/Swap/Roundtrip.antt =====
-- The swap string: what is accepted, and printing followed by parsing.
use mathlib.Core.Path.{subst}
use mathlib.Core.Option.{some-injective}
use f1r3fly_rgb_lightning_no.Common.{
  ℕ, ◌<◌, ◌≡◌, refl, ◌≢◌, ◌∙◌, ap, Option, none, some, List, [], ◌∷◌, Bytes, IsBytes, All-map,
  length, IsFree, split, split_free, split-append, str, bytes_eq_refl, option_bytes_eq_iff, arith,
}
use f1r3fly_rgb_lightning_no.Decimal.{u64_bound, show_nat, parse_u64}
use f1r3fly_rgb_lightning_no.Decimal.Laws.{
  IsDigit, show_nat-IsDigit, parse_u64-show_nat, parse_u64-lt,
}
use f1r3fly_rgb_lightning_no.Hex.{hex_str_to_vec}
use f1r3fly_rgb_lightning_no.Hex.Laws.{
  hex_str-IsFree, hex_str_to_vec-hex_str, hex_str_to_vec-IsBytes,
}
use f1r3fly_rgb_lightning_no.Swap.Codecs.{Codec, IsLawful}
use f1r3fly_rgb_lightning_no.Swap.Strings.{
  SwapString, ok, to_array32, check_fields, show_asset, to_string, parse_swapstring_asset,
  parse_fields, from_parts, from_str, or_unable, ◌>>=◌,
}

-- What an offer must satisfy: positive `u64` amounts and expiry, two different assets, and a
-- payment hash of 32 bytes.
pub record IsWellFormed (s : SwapString) : Type 0 where
  pub qty_from_pos : 0 < s.swap_info.qty_from
  pub qty_to_pos : 0 < s.swap_info.qty_to
  pub expiry_pos : 0 < s.swap_info.expiry
  pub qty_from_lt : s.swap_info.qty_from < u64_bound
  pub qty_to_lt : s.swap_info.qty_to < u64_bound
  pub expiry_lt : s.swap_info.expiry < u64_bound
  pub distinct : s.swap_info.from_asset ≢ s.swap_info.to_asset
  pub hash_bytes : IsBytes s.payment_hash
  pub hash_length : length s.payment_hash ≡ 32

show_nat-IsFree : (n : ℕ) → IsFree b'/' (show_nat n)
show_nat-IsFree n =
    All-map IsDigit (λ b. b ≢ b'/') (λ c d. omega arith) (show_nat n) (show_nat-IsDigit n)

check_fields-IsWellFormed : (s : SwapString) → IsWellFormed s → check_fields s ≡ ok s
unfolding check_fields
check_fields-IsWellFormed s w =
    ground (arith, option_bytes_eq_iff s.swap_info.from_asset s.swap_info.to_asset)

module _ (codec : Codec) (lawful : IsLawful codec) where
  show_asset-IsFree : (a : Option Bytes) → IsFree b'/' (show_asset codec a)
  unfolding show_asset str
  show_asset-IsFree none = omega arith
  show_asset-IsFree (some k) = lawful.no_slash k

  parse-show_asset : (a : Option Bytes) → parse_swapstring_asset codec (show_asset codec a) ≡ some a
  unfolding parse_swapstring_asset show_asset
  parse-show_asset none = rw (bytes_eq_refl (str "btc"))
  parse-show_asset (some k) = rw (lawful.not_btc k, lawful.from_str-to_string k)

  show_hash-IsFree : (h : Bytes) → IsFree b'/' (codec.show_payment_hash h)
  show_hash-IsFree h = rw (lawful.hash_hex h) (hex_str-IsFree h)

  split-to_string :
      (s : SwapString)
      → split b'/' (to_string codec s)
        ≡ show_nat s.swap_info.qty_from
          ∷ show_asset codec s.swap_info.from_asset
          ∷ show_nat s.swap_info.qty_to
          ∷ show_asset codec s.swap_info.to_asset
          ∷ show_nat s.swap_info.expiry
          ∷ codec.show_payment_hash s.payment_hash
          ∷ []
  unfolding to_string
  split-to_string s = rw (split-append b'/' _ _ (show_nat-IsFree s.swap_info.qty_from)) (
      rw (split-append b'/' _ _ (show_asset-IsFree s.swap_info.from_asset)) (
        rw (split-append b'/' _ _ (show_nat-IsFree s.swap_info.qty_to)) (
          rw (split-append b'/' _ _ (show_asset-IsFree s.swap_info.to_asset)) (
            rw (split-append b'/' _ _ (show_nat-IsFree s.swap_info.expiry))
              (rw (split_free b'/' _ (show_hash-IsFree s.payment_hash)))))))

  to_array32-hash : (h : Bytes) → length h ≡ 32 → to_array32 h ≡ some h
  unfolding to_array32
  to_array32-hash h e = rw e

  parse_fields-show :
      (s : SwapString)
      → IsWellFormed s
      → parse_fields codec
          (show_nat s.swap_info.qty_from)
          (show_asset codec s.swap_info.from_asset)
          (show_nat s.swap_info.qty_to)
          (show_asset codec s.swap_info.to_asset)
          (show_nat s.swap_info.expiry)
          (codec.show_payment_hash s.payment_hash)
        ≡ some s
  unfolding parse_fields
  parse_fields-show s w = rw (parse_u64-show_nat _ w.qty_from_lt) (
      rw (parse_u64-show_nat _ w.qty_to_lt) (
        rw (parse-show_asset s.swap_info.from_asset, parse-show_asset s.swap_info.to_asset)
          (rw (parse_u64-show_nat _ w.expiry_lt) (
            rw (lawful.hash_hex s.payment_hash, hex_str_to_vec-hex_str s.payment_hash w.hash_bytes)
              (rw (to_array32-hash s.payment_hash w.hash_length))))))

  -- An offer that is printed is parsed as itself.
  pub from_str-to_string :
      (s : SwapString) → IsWellFormed s → from_str codec (to_string codec s) ≡ ok s
  unfolding from_str
  from_str-to_string s w =
      rw (split-to_string s)
        (ap (or_unable) (parse_fields-show s w) ∙ check_fields-IsWellFormed s w)

to_array32-eq-some : (v h : Bytes) → to_array32 v ≡ some h → (v ≡ h) × (length h ≡ 32)
unfolding to_array32
to_array32-eq-some v h e = ground arith

check_fields-eq-ok :
    (s s' : SwapString)
    → check_fields s ≡ ok s'
    → (s ≡ s')
      × (0 < s.swap_info.qty_from)
      × (0 < s.swap_info.qty_to)
      × (0 < s.swap_info.expiry)
      × (s.swap_info.from_asset ≢ s.swap_info.to_asset)
unfolding check_fields
check_fields-eq-ok s s' e =
    ground (arith, option_bytes_eq_iff s.swap_info.from_asset s.swap_info.to_asset)

-- The ranges that parsing the six fields gives.
record IsParsed (s : SwapString) : Type 0 where
  qty_from_lt : s.swap_info.qty_from < u64_bound
  qty_to_lt : s.swap_info.qty_to < u64_bound
  expiry_lt : s.swap_info.expiry < u64_bound
  hash_bytes : IsBytes s.payment_hash
  hash_length : length s.payment_hash ≡ 32

>>=-eq-some :
    {A B : Type 0} (m : Option A) (f : A → Option B) {b : B}
    → (m >>= f) ≡ some b
    → (a : A) × (m ≡ some a) × (f a ≡ some b)
>>=-eq-some none f e = cc
>>=-eq-some (some a) f e = (a, refl, e)

parse_fields-IsParsed :
    (codec : Codec) (a b c d e f : Bytes) (s : SwapString)
    → parse_fields codec a b c d e f ≡ some s
    → IsParsed s
unfolding parse_fields
parse_fields-IsParsed codec a b c d e f s eq =
    let (qf, e1, r1) = >>=-eq-some (parse_u64 a) _ eq in
    let (qt, e2, r2) = >>=-eq-some (parse_u64 c) _ r1 in
    let (fa, e3, r3) = >>=-eq-some (parse_swapstring_asset codec b) _ r2 in
    let (ta, e4, r4) = >>=-eq-some (parse_swapstring_asset codec d) _ r3 in
    let (x, e5, r5) = >>=-eq-some (parse_u64 e) _ r4 in
    let (h, e6, r6) = >>=-eq-some (hex_str_to_vec f >>= to_array32) _ r5 in
    let (v, e7, r7) = >>=-eq-some (hex_str_to_vec f) to_array32 e6 in
    let same = to_array32-eq-some v h r7 in
    let bytes : IsBytes h = subst IsBytes same.0 (hex_str_to_vec-IsBytes f v e7).0 in
    subst IsParsed (some-injective _ _ r6) (record {
      qty_from_lt = parse_u64-lt a qf e1;
      qty_to_lt = parse_u64-lt c qt e2;
      expiry_lt = parse_u64-lt e x e5;
      hash_bytes = bytes;
      hash_length = same.1;
    })

or_unable-IsWellFormed :
    (o : Option SwapString) (s : SwapString)
    → ((s' : SwapString) → o ≡ some s' → IsParsed s')
    → or_unable o ≡ ok s
    → IsWellFormed s
or_unable-IsWellFormed none s p e = cc
or_unable-IsWellFormed (some s') s p e =
    let (same, qf, qt, x, ne) = check_fields-eq-ok s' s e in
    let ranges = p s' refl in
    subst IsWellFormed same (record {
      qty_from_pos = qf;
      qty_to_pos = qt;
      expiry_pos = x;
      qty_from_lt = ranges.qty_from_lt;
      qty_to_lt = ranges.qty_to_lt;
      expiry_lt = ranges.expiry_lt;
      distinct = ne;
      hash_bytes = ranges.hash_bytes;
      hash_length = ranges.hash_length;
    })

from_parts-IsWellFormed :
    (codec : Codec) (ps : List Bytes) (s : SwapString) → from_parts codec ps ≡ ok s → IsWellFormed s
unfolding from_parts
from_parts-IsWellFormed codec [] s e = cc
from_parts-IsWellFormed codec (a ∷ []) s e = cc
from_parts-IsWellFormed codec (a ∷ b ∷ []) s e = cc
from_parts-IsWellFormed codec (a ∷ b ∷ c ∷ []) s e = cc
from_parts-IsWellFormed codec (a ∷ b ∷ c ∷ d ∷ []) s e = cc
from_parts-IsWellFormed codec (a ∷ b ∷ c ∷ d ∷ x ∷ []) s e = cc
from_parts-IsWellFormed codec (a ∷ b ∷ c ∷ d ∷ x ∷ f ∷ []) s e =
    or_unable-IsWellFormed (parse_fields codec a b c d x f) s
      (λ s' q. parse_fields-IsParsed codec a b c d x f s' q) e
from_parts-IsWellFormed codec (a ∷ b ∷ c ∷ d ∷ x ∷ f ∷ g ∷ r) s e = cc

-- What is accepted is well formed.
pub from_str-IsWellFormed :
    (codec : Codec) (t : Bytes) (s : SwapString) → from_str codec t ≡ ok s → IsWellFormed s
unfolding from_str
from_str-IsWellFormed codec t s e = from_parts-IsWellFormed codec (split b'/' t) s e
