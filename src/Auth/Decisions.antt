-- ===== src/Auth/Decisions.antt =====
-- Which requests reach their handlers.
use mathlib.Core.List.{Memᴰ}
use mathlib.Core.Path.{subst}
use f1r3fly_rgb_lightning_no.Common.{
  ◌≡◌, ◌↔◌, ◌⊎◌, refl, sym, inl, inr, true, false, List, [], ◌∷◌, Bytes, str, bytes_eq,
  bytes_eq_iff, contains, Bool-cases, arith,
}
use f1r3fly_rgb_lightning_no.Auth.{
  Biscuit, Decision, read_only_ops, is_operation_readonly, is_token_revoked, decide_token,
}

-- A token that may call an operation: none of its revocation ids is revoked, it has not expired, and it is an admin's, or a
-- reader's and the operation is listed as one that only reads, or, if it is no reader's, a custom one with the right.
pub record MayCall (revoked : List Bytes) (op : Bytes) (t : Biscuit) : Type 0 where
  pub live : (id : Bytes) → Memᴰ id t.revocation_identifiers → ¬ Memᴰ id revoked
  pub valid : t.allows_any ≡ true
  pub role :
      (t.allows_role (str "admin") ≡ true)
      ⊎ ((t.allows_role (str "read-only") ≡ true) × Memᴰ op read_only_ops
          ⊎ (t.allows_role (str "read-only") ≡ false)
            × (t.allows_role (str "custom") ≡ true)
            × (t.allows_operation op ≡ true))

contains-Memᴰ : (xs : List Bytes) (a : Bytes) → contains xs a ≡ true → Memᴰ a xs
unfolding contains
contains-Memᴰ [] a e = cc
contains-Memᴰ (x ∷ xs) a e = elim (Bool-cases (bytes_eq x a)) [
  | inl same ↦ Memᴰ.head (sym ((bytes_eq_iff x a).0 same))
  | inr differs ↦
      let inside : contains xs a ≡ true = ground arith in Memᴰ.tail (contains-Memᴰ xs a inside)
]

Memᴰ-contains : (xs : List Bytes) (a : Bytes) → Memᴰ a xs → contains xs a ≡ true
unfolding contains
Memᴰ-contains [] a d = elim d [ ]
Memᴰ-contains (x ∷ xs) a (Memᴰ.head e) =
    let same : bytes_eq x a ≡ true = (bytes_eq_iff x a).1 (sym e) in ground arith
Memᴰ-contains (x ∷ xs) a (Memᴰ.tail d) = elim (Bool-cases (bytes_eq x a)) [
  | inl same ↦ ground arith
  | inr differs ↦ let inside = Memᴰ-contains xs a d in ground arith
]

revoked_lem :
    (revoked ids : List Bytes)
    → is_token_revoked revoked ids ≡ false
    → (id : Bytes) → Memᴰ id ids
    → ¬ Memᴰ id revoked
unfolding is_token_revoked
revoked_lem revoked [] e id d m = elim d [ ]
revoked_lem revoked (x ∷ ids) e id (Memᴰ.head same) m =
    let listed : contains revoked x ≡ true =
      Memᴰ-contains revoked x (subst (λ y. Memᴰ y revoked) same m) in
    cc
revoked_lem revoked (x ∷ ids) e id (Memᴰ.tail d) m =
    let rest : is_token_revoked revoked ids ≡ false = ground arith in
    revoked_lem revoked ids rest id d m

live_lem :
    (revoked ids : List Bytes)
    → ((id : Bytes) → Memᴰ id ids → ¬ Memᴰ id revoked)
    → is_token_revoked revoked ids ≡ false
unfolding is_token_revoked
live_lem revoked [] h = refl
live_lem revoked (x ∷ ids) h = elim (Bool-cases (contains revoked x)) [
  | inl listed ↦ absurd (h x (Memᴰ.head refl) (contains-Memᴰ revoked x listed))
  | inr free ↦ rw free (live_lem revoked ids (λ id d. h id (Memᴰ.tail d)))
]

-- The role's part, by the code's own test.
abbrev HasRole : Bytes → Biscuit → Type 0
HasRole op t =
    (t.allows_role (str "admin") ≡ true)
    ⊎ ((t.allows_role (str "read-only") ≡ true) × (is_operation_readonly op ≡ true)
        ⊎ (t.allows_role (str "read-only") ≡ false)
          × (t.allows_role (str "custom") ≡ true)
          × (t.allows_operation op ≡ true))

decide_token_lem :
    (revoked : List Bytes) (op : Bytes) (t : Biscuit)
    → (decide_token revoked op t ≡ Decision.next) ↔ (
        (is_token_revoked revoked t.revocation_identifiers ≡ false)
        × (t.allows_any ≡ true)
        × HasRole op t)
unfolding decide_token
decide_token_lem revoked op t = ground arith

readonly_iff : (op : Bytes) → (is_operation_readonly op ≡ true) ↔ Memᴰ op read_only_ops
unfolding is_operation_readonly
readonly_iff op = (contains-Memᴰ read_only_ops op, Memᴰ-contains read_only_ops op)

-- A verified token's request goes on exactly if the token may call the operation: no revocation id of it is in the list of
-- the revoked ones, it has not expired, and its role allows the operation, a reader's only those of the list of operations
-- that only read.
pub decide_token_iff :
    (revoked : List Bytes) (op : Bytes) (t : Biscuit)
    → (decide_token revoked op t ≡ Decision.next) ↔ MayCall revoked op t
decide_token_iff revoked op t = (
  λ e.
      let (live, valid, role) = (decide_token_lem revoked op t).0 e in
      record {
        live = revoked_lem revoked t.revocation_identifiers live;
        valid = valid;
        role = elim role [
          | inl admin ↦ inl admin
          | inr (inl (reader, reads)) ↦ inr (inl (reader, (readonly_iff op).0 reads))
          | inr (inr custom) ↦ inr (inr custom)
        ];
      },
  λ h. (decide_token_lem revoked op t).1 (
    live_lem revoked t.revocation_identifiers h.live,
    h.valid,
    elim h.role [
      | inl admin ↦ inl admin
      | inr (inl (reader, reads)) ↦ inr (inl (reader, (readonly_iff op).1 reads))
      | inr (inr custom) ↦ inr (inr custom)
    ],
  ),
)
