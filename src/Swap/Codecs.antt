-- ===== src/Swap/Codecs.antt =====
-- What the swap string takes from the libraries: `ContractId::from_str`, the `Display` of
-- `ContractId` and that of `PaymentHash`.
use f1r3fly_rgb_lightning_no.Common.{◌≡◌, Option, some, false, Bytes, IsFree, bytes_eq, str}
use f1r3fly_rgb_lightning_no.Hex.{hex_str}

pub record Codec : Type 0 where
  pub contract_from_str : Bytes → Option Bytes
  pub contract_to_string : Bytes → Bytes
  pub show_payment_hash : Bytes → Bytes

-- A contract id is printed without a slash, never as the word `btc`, and is read back; a payment
-- hash is printed in hexadecimal.
pub record IsLawful (c : Codec) : Type 0 where
  pub from_str-to_string : (k : Bytes) → c.contract_from_str (c.contract_to_string k) ≡ some k
  pub no_slash : (k : Bytes) → IsFree b'/' (c.contract_to_string k)
  pub not_btc : (k : Bytes) → bytes_eq (c.contract_to_string k) (str "btc") ≡ false
  pub hash_hex : (h : Bytes) → c.show_payment_hash h ≡ hex_str h
