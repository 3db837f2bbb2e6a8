-- ===== src/Auth/Files.antt =====
-- The file of revoked tokens: its lines are read back as the tokens that were written.
use mathlib.Core.List
use f1r3fly_rgb_lightning_no.Common.{
  ℕ, ◌≤◌, ◌≡◌, ◌≢◌, refl, ◌∙◌, ap, false, ◌||◌, some, List, [], ◌∷◌, Bytes, IsBytes, All, All-map,
  contains, bytes_eq, bytes_eq_iff, split, IsFree, split-append, arith,
}
use f1r3fly_rgb_lightning_no.Hex.{hex_str}
use f1r3fly_rgb_lightning_no.Hex.Laws.{hex_str-IsPrintable, hex_str_to_vec-hex_str}
use f1r3fly_rgb_lightning_no.Lines.{trim, drop_last_empty, lines}
use f1r3fly_rgb_lightning_no.Lines.Laws.{IsVisible, trim_visible, split_cons, drop_last_empty-cons}
use f1r3fly_rgb_lightning_no.Auth.Tokens.{
  insert_token, insert_tokens, file_body, is_skipped, load_line, load_lines,
}

pub contains-nil : (a : Bytes) → contains [] a ≡ false
unfolding contains
contains-nil a = refl

pub contains-cons :
    (x a : Bytes) (xs : List Bytes) → contains (x ∷ xs) a ≡ (bytes_eq x a || contains xs a)
unfolding contains
contains-cons x a xs = ground arith

pub contains-insert_token :
    (id a : Bytes) (xs : List Bytes)
    → contains (insert_token id xs) a ≡ (bytes_eq id a || contains xs a)
unfolding insert_token
contains-insert_token id a xs = ground (arith, bytes_eq_iff id a, contains-cons id a xs)

pub hex_str-IsVisible : (v : Bytes) → IsVisible (hex_str v)
hex_str-IsVisible v =
    All-map (λ b. b'0' ≤ b) (λ b. 33 ≤ b) (λ b h. omega arith) (hex_str v) (hex_str-IsPrintable v)

pub hex_line-IsFree : (v : Bytes) → IsFree 10 (hex_str v)
hex_line-IsFree v =
    All-map (λ b. b'0' ≤ b) (λ b. b ≢ 10) (λ b h. omega arith) (hex_str v) (hex_str-IsPrintable v)

pub lines-file_body : (ids : List Bytes) → lines (file_body ids) ≡ List.map hex_str ids
unfolding lines file_body split drop_last_empty
lines-file_body [] = refl
lines-file_body (id ∷ ids) =
    let (p, ps, e) = split_cons 10 (file_body ids) in
    rw (split-append 10 (hex_str id) (file_body ids) (hex_line-IsFree id)) (
      drop_last_empty-cons (hex_str id) (split 10 (file_body ids)) ps p e
      ∙ ap (λ rest. hex_str id ∷ rest) (lines-file_body ids))

-- A revocation id: some bytes, at least one.
abbrev pub IsTokenId : Bytes → Type 0
IsTokenId id = IsBytes id × (id ≢ [])

pub not_skipped : (v : ℕ) (vs : Bytes) → is_skipped (hex_str (v ∷ vs)) ≡ false
unfolding is_skipped hex_str
not_skipped v vs = ground (arith, hex_str-IsPrintable (v ∷ vs))

pub load_line-hex_str :
    (id : Bytes) (acc : List Bytes)
    → IsTokenId id
    → load_line (trim (hex_str id)) acc ≡ some (insert_token id acc)
unfolding load_line is_skipped
load_line-hex_str [] acc h = absurd (h.1 refl)
load_line-hex_str (v ∷ vs) acc h =
    rw
      (
        trim_visible (hex_str (v ∷ vs)) (hex_str-IsVisible (v ∷ vs)),
        not_skipped v vs,
        hex_str_to_vec-hex_str (v ∷ vs) h.0,
      )
      refl

pub load_lines-hex_str :
    (ids acc : List Bytes)
    → All IsTokenId ids
    → load_lines (List.map hex_str ids) acc ≡ some (insert_tokens ids acc)
unfolding load_lines insert_tokens
load_lines-hex_str [] acc h = refl
load_lines-hex_str (id ∷ ids) acc h =
    rw (load_line-hex_str id acc h.0, load_lines) (load_lines-hex_str ids (insert_token id acc) h.1)

pub contains-insert_tokens :
    (ids acc : List Bytes) (a : Bytes)
    → contains (insert_tokens ids acc) a ≡ (contains ids a || contains acc a)
unfolding insert_tokens
contains-insert_tokens [] acc a = rw (contains-nil a) refl
contains-insert_tokens (id ∷ ids) acc a = ground (
  arith,
  contains-insert_tokens ids (insert_token id acc) a,
  contains-insert_token id a acc,
  contains-cons id a ids,
)

pub insert_token-IsTokenId :
    (id : Bytes) (acc : List Bytes)
    → IsTokenId id
    → All IsTokenId acc
    → All IsTokenId (insert_token id acc)
unfolding insert_token
insert_token-IsTokenId id acc h k = ground arith

pub insert_tokens-IsTokenId :
    (ids acc : List Bytes)
    → All IsTokenId ids
    → All IsTokenId acc
    → All IsTokenId (insert_tokens ids acc)
unfolding insert_tokens
insert_tokens-IsTokenId [] acc h k = k
insert_tokens-IsTokenId (id ∷ ids) acc h k =
    insert_tokens-IsTokenId ids (insert_token id acc) h.1 (insert_token-IsTokenId id acc h.0 k)
