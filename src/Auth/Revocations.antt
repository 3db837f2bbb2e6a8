-- ===== src/Auth/Revocations.antt =====
-- Revoked tokens stay revoked: in memory, and after a restart from the file.
use f1r3fly_rgb_lightning_no.Common.{
  ◌≡◌, ◌≢◌, refl, ◌∙◌, ap, true, ◌||◌, Option, none, some, List, [], ◌∷◌, Bytes, All, contains,
  arith, bytes_eq_refl,
}
use f1r3fly_rgb_lightning_no.Lines.{lines}
use f1r3fly_rgb_lightning_no.Auth.{AppResult, Biscuit, unauthorized, is_token_revoked, decide_token}
use f1r3fly_rgb_lightning_no.Auth.Tokens.{
  TokenState, insert_tokens, file_body, store_tokens, or_invalid, revoke_token, load_lines,
  load_revoked_tokens,
}
use f1r3fly_rgb_lightning_no.Auth.Files.{
  contains-nil, contains-cons, lines-file_body, IsTokenId, load_lines-hex_str,
  contains-insert_tokens, insert_tokens-IsTokenId,
}

stored_file :
    (revoked : List Bytes) (o : Option Bytes) (s : TokenState)
    → o ≡ none
    → (store_tokens revoked o s).1.revoked_tokens_file ≡ some (file_body revoked)
unfolding store_tokens
stored_file revoked none s w = refl
stored_file revoked (some e) s w = cc

stored_set :
    (revoked : List Bytes) (o : Option Bytes) (s : TokenState)
    → (store_tokens revoked o s).1.revoked_tokens ≡ revoked
unfolding store_tokens
stored_set revoked none s = refl
stored_set revoked (some e) s = refl

revoked_file :
    (token : Biscuit) (s : TokenState)
    → s.write_error ≡ none
    → (revoke_token token s).1.revoked_tokens_file
      ≡ some (file_body (insert_tokens token.revocation_identifiers s.revoked_tokens))
unfolding revoke_token
revoked_file token s w = stored_file _ s.write_error s w

load_text :
    (text : Bytes) (loaded : List Bytes)
    → load_lines (lines text) [] ≡ some loaded
    → load_revoked_tokens (some text) ≡ AppResult.ok loaded
unfolding load_revoked_tokens
load_text text loaded e = ap or_invalid e

revoked_set :
    (token : Biscuit) (s : TokenState)
    → (revoke_token token s).1.revoked_tokens
      ≡ insert_tokens token.revocation_identifiers s.revoked_tokens
unfolding revoke_token
revoked_set token s = stored_set _ s.write_error s

own_ids_revoked :
    (ids acc : List Bytes) → ids ≢ [] → is_token_revoked (insert_tokens ids acc) ids ≡ true
unfolding is_token_revoked
own_ids_revoked [] acc h = absurd (h refl)
own_ids_revoked (id ∷ ids) acc h =
    ground
      (arith, contains-insert_tokens (id ∷ ids) acc id, contains-cons id id ids, bytes_eq_refl id)

-- After a token is revoked and its file is written, a restart loads a set that holds exactly the ids
-- that were revoked before and those of the token.
pub revoke_token_persists :
    (token : Biscuit) (s : TokenState)
    → All IsTokenId token.revocation_identifiers
    → All IsTokenId s.revoked_tokens
    → s.write_error ≡ none
    → (loaded : List Bytes) × (load_revoked_tokens (revoke_token token s).1.revoked_tokens_file
        ≡ AppResult.ok loaded)
      × ((a : Bytes)
          → contains loaded a
            ≡ (contains token.revocation_identifiers a || contains s.revoked_tokens a))
revoke_token_persists token s h k w =
    let revoked = insert_tokens token.revocation_identifiers s.revoked_tokens in
    let ids = insert_tokens-IsTokenId token.revocation_identifiers s.revoked_tokens h k in
    (
      insert_tokens revoked [],
      ap load_revoked_tokens (revoked_file token s w)
          ∙ load_text (file_body revoked) (insert_tokens revoked []) (
              ap (λ l. load_lines l []) (lines-file_body revoked)
              ∙ load_lines-hex_str revoked [] ids),
      λ a. ground (
        arith,
        contains-insert_tokens revoked [] a,
        contains-nil a,
        contains-insert_tokens token.revocation_identifiers s.revoked_tokens a,
      ),
    )

-- A token that has an id is refused from its revocation on, for every operation, whether or not the
-- file could be written.
pub revoke_token_refuses :
    (token : Biscuit) (s : TokenState) (op : Bytes)
    → token.revocation_identifiers ≢ []
    → decide_token (revoke_token token s).1.revoked_tokens op token ≡ unauthorized
unfolding decide_token
revoke_token_refuses token s op some_id =
    rw (revoked_set token s, own_ids_revoked token.revocation_identifiers s.revoked_tokens some_id)
      refl
