-- ===== src/Auth/Tokens.antt =====
-- The revoked tokens (src/auth.rs, and `revoke_token` of src/routes.rs): the set in memory, in some
-- order, and the text of its file.
use f1r3fly_rgb_lightning_no.Common.{
  Bool, true, Option, none, some, List, [], ◌∷◌, ◌++◌, Bytes, contains, ◌==◌, if◌then◌else◌,
}
use f1r3fly_rgb_lightning_no.Error.{ApiError, AppError}
use f1r3fly_rgb_lightning_no.Outcome.{Outcome}
use f1r3fly_rgb_lightning_no.Lines.{trim, lines}
use f1r3fly_rgb_lightning_no.Hex.{hex_str, hex_str_to_vec}
use f1r3fly_rgb_lightning_no.Auth.{AppResult, Biscuit, BiscuitLibrary}

-- The set and the file; the file system refuses a write with an error's text, if with any.
pub record TokenState : Type 0 where
  pub revoked_tokens : List Bytes
  pub revoked_tokens_file : Option Bytes
  pub write_error : Option Bytes

-- `HashSet::insert`
unfoldable pub insert_token : Bytes → List Bytes → List Bytes
insert_token id revoked = if contains revoked id then revoked else id ∷ revoked

unfoldable pub insert_tokens : List Bytes → List Bytes → List Bytes
unfolding insert_token
insert_tokens [] revoked = revoked
insert_tokens (id ∷ ids) revoked = insert_tokens ids (insert_token id revoked)

-- `updated_list`: one line for each token.
unfoldable pub file_body : List Bytes → Bytes
file_body [] = []
file_body (id ∷ ids) = hex_str id ++ (10 ∷ file_body ids)

-- The set after a revocation, and the file if it can be written.
unfoldable pub store_tokens :
    List Bytes → Option Bytes → TokenState → Outcome (Unit {0}) × TokenState
unfolding file_body
store_tokens revoked none s = (
  Outcome.ok tt,
  record s { revoked_tokens = revoked; revoked_tokens_file = some (file_body revoked) },
)
store_tokens revoked (some e) s =
    (Outcome.err (ApiError.io e), record s { revoked_tokens = revoked })

-- `AppState::revoke_token`: the set grows before the file is written.
unfoldable pub revoke_token : Biscuit → TokenState → Outcome (Unit {0}) × TokenState
unfolding insert_tokens store_tokens
revoke_token token s =
    store_tokens (insert_tokens token.revocation_identifiers s.revoked_tokens) s.write_error s

-- The handler `revoke_token`.
unfoldable pub revoke_token_route :
    BiscuitLibrary → Option Bytes → Bytes → TokenState → Outcome (Unit {0}) × TokenState
unfolding revoke_token
revoke_token_route lib none text s = (Outcome.err ApiError.authentication_disabled, s)
revoke_token_route lib (some root_pubkey) text s = elim (lib.from_base64 text root_pubkey) [
  | none ↦ (Outcome.err ApiError.invalid_biscuit_token, s)
  | some token ↦ revoke_token token s
]

-- `s.is_empty() || s.starts_with('#')`
unfoldable pub is_skipped : Bytes → Bool
is_skipped [] = true
is_skipped (c ∷ cs) = c == b'#'

-- The token of a line, if it has one; `none` is the error on a line that is not hexadecimal.
unfoldable pub load_line : Bytes → List Bytes → Option (List Bytes)
unfolding is_skipped insert_token
load_line s revoked =
    if is_skipped s
    then some revoked
    else elim (hex_str_to_vec s) [ none ↦ none | some id ↦ some (insert_token id revoked) ]

-- The loop of `load_revoked_tokens`.
unfoldable pub load_lines : List Bytes → List Bytes → Option (List Bytes)
unfolding load_line trim
load_lines [] revoked = some revoked
load_lines (line ∷ rest) revoked = elim (load_line (trim line) revoked) [
  | none ↦ none
  | some revoked' ↦ load_lines rest revoked'
]

abbrev pub or_invalid : Option (List Bytes) → AppResult (List Bytes)
or_invalid none = AppResult.err AppError.invalid_revoked_tokens_file
or_invalid (some revoked) = AppResult.ok revoked

-- `AppState::load_revoked_tokens`, from the file, if there is one, that can be read.
unfoldable pub load_revoked_tokens : Option Bytes → AppResult (List Bytes)
unfolding load_lines lines
load_revoked_tokens none = AppResult.ok []
load_revoked_tokens (some text) = or_invalid (load_lines (lines text) [])
