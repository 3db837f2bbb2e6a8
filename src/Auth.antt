-- ===== src/Auth.antt =====
-- Authentication (src/auth.rs, and `revoke_token` of src/routes.rs): the arguments, the decision on a
-- request, and the revoked tokens in memory and in their file.
pub mod Decisions
pub mod Tokens
pub mod Files
pub mod Revocations
use mathlib.Core.Option
use f1r3fly_rgb_lightning_no.Common.{
  ℕ, Bool, true, false, ◌&&◌, ◌||◌, not, Option, none, some, is_some, List, [], ◌∷◌, ◌++◌, Bytes,
  str, bytes_eq, contains, split, is_empty, ◌==◌, ltb, leb, length, if◌then◌else◌,
}
use f1r3fly_rgb_lightning_no.Error.{ApiError, AppError}
use f1r3fly_rgb_lightning_no.Outcome.{Outcome}
use f1r3fly_rgb_lightning_no.Hex.{hex_str, hex_str_to_vec}
use f1r3fly_rgb_lightning_no.Swap.{to_array32}

-- A result under an `AppError`.
pub data AppResult (A : Type 0) : Type 0 where
  ok : A → AppResult A
  err : AppError → AppResult A

-- A token of the Biscuit library: its revocation ids, and what the authorizers say of it now.
pub record Biscuit : Type 0 where
  pub revocation_identifiers : List Bytes
  pub allows_any : Bool
  pub allows_role : Bytes → Bool
  pub allows_operation : Bytes → Bool

-- `Biscuit::from_base64` and `PublicKey::from_bytes`
pub record BiscuitLibrary : Type 0 where
  pub from_base64 : Bytes → Bytes → Option Biscuit
  pub public_key : Bytes → Option Bytes

abbrev pub read_only_ops : List Bytes
read_only_ops =
    str "/assetbalance"
    ∷ str "/assetmetadata"
    ∷ str "/btcbalance"
    ∷ str "/checkindexerurl"
    ∷ str "/checkproxyendpoint"
    ∷ str "/decodelninvoice"
    ∷ str "/decodergbinvoice"
    ∷ str "/estimatefee"
    ∷ str "/getassetmedia"
    ∷ str "/getchannelid"
    ∷ str "/getpayment"
    ∷ str "/getswap"
    ∷ str "/invoicestatus"
    ∷ str "/listassets"
    ∷ str "/listchannels"
    ∷ str "/listpayments"
    ∷ str "/listpeers"
    ∷ str "/listswaps"
    ∷ str "/listtransactions"
    ∷ str "/listtransfers"
    ∷ str "/listunspents"
    ∷ str "/networkinfo"
    ∷ str "/nodeinfo"
    ∷ []

unfoldable pub is_operation_readonly : Bytes → Bool
is_operation_readonly operation = contains read_only_ops operation

-- What becomes of a request: it goes on to its handler, or is answered by a status.
pub data Decision : Type 0 where
  next : Decision
  refused : ℕ → Decision

abbrev pub unauthorized : Decision
unauthorized = Decision.refused 401

abbrev pub forbidden : Decision
forbidden = Decision.refused 403

-- `s.strip_prefix(p)`
unfoldable pub strip_prefix : Bytes → Bytes → Option Bytes
strip_prefix [] s = some s
strip_prefix (p ∷ ps) [] = none
strip_prefix (p ∷ ps) (c ∷ cs) = let rest = strip_prefix ps cs in if p == c then rest else none

-- `!revocation_ids.is_disjoint(&revoked)`
unfoldable pub is_token_revoked : List Bytes → List Bytes → Bool
is_token_revoked revoked [] = false
is_token_revoked revoked (id ∷ ids) = contains revoked id || is_token_revoked revoked ids

-- The decision on a token that was verified.
unfoldable pub decide_token : List Bytes → Bytes → Biscuit → Decision
unfolding is_token_revoked is_operation_readonly
decide_token revoked op token =
    if is_token_revoked revoked token.revocation_identifiers
    then unauthorized
    else if not token.allows_any
    then unauthorized
    else if token.allows_role (str "admin")
    then Decision.next
    else if token.allows_role (str "read-only")
    then (if is_operation_readonly op then Decision.next else forbidden)
    else if token.allows_role (str "custom")
    then (if token.allows_operation op then Decision.next else forbidden)
    else unauthorized

module _ (lib : BiscuitLibrary) where
  -- The match on the arguments, and the reading of the root key.
  unfoldable pub check_auth_args : Bool → Option Bytes → AppResult (Option Bytes)
  check_auth_args true (some key) = AppResult.err AppError.invalid_authentication_args
  check_auth_args false none = AppResult.err AppError.invalid_authentication_args
  check_auth_args true none = AppResult.ok none
  check_auth_args false (some key) =
      elim (Option.bind (Option.bind (hex_str_to_vec key) to_array32) lib.public_key) [
        | none ↦ AppResult.err AppError.invalid_root_key
        | some public_key ↦ AppResult.ok (some public_key)
      ]

  -- From the `Authorization` header, its bytes if it is there and is text, and the path.
  unfoldable pub conditional_auth_middleware :
      Option Bytes → List Bytes → Option Bytes → Bytes → Decision
  unfolding strip_prefix decide_token
  conditional_auth_middleware none revoked header op = Decision.next
  conditional_auth_middleware (some root_pubkey) revoked header op =
      elim (Option.bind header (strip_prefix (str "Bearer "))) [
        | none ↦ unauthorized
        | some auth_token ↦ elim (lib.from_base64 auth_token root_pubkey) [
          | none ↦ unauthorized
          | some token ↦ decide_token revoked op token
        ]
      ]
