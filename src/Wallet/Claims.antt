-- ===== src/Wallet/Claims.antt =====
-- The outputs for claims: `ensure_claim_utxos_available` and `get_claim_utxo`.
use f1r3fly_rgb_lightning_no.Common.{
  ℕ, ◌+◌, ◌-◌, Bool, ◌&&◌, Option, none, some, List, [], ◌∷◌, Bytes, str, is_empty, leb, ltb,
  if◌then◌else◌,
}
use f1r3fly_rgb_lightning_no.Wallet.{Answer, utxo_key}

-- `Unspent`, as far as it is read; an allocation is its asset's id.
pub record Unspent : Type 0 where
  pub txid : Bytes
  pub vout : ℕ
  pub btc_amount : ℕ
  pub rgb_allocations : List Bytes

-- The unspent outputs, the creation of more of them, and the unspent outputs after that.
pub record Utxos : Type 0 where
  pub list_unspents : Answer (List Unspent)
  pub create_utxos : ℕ → Answer (Unit {0})
  pub list_created : Answer (List Unspent)

-- The two filters.
unfoldable pub is_claim_sized : Unspent → Bool
is_claim_sized u = is_empty u.rgb_allocations && leb u.btc_amount 2000

-- `min_by_key` on what passes the filters: the first of the smallest.
unfoldable pub smaller : Unspent → Option Unspent → Option Unspent
smaller u none = some u
smaller u (some v) = if leb u.btc_amount v.btc_amount then some u else some v

unfoldable pub smallest : List Unspent → Option Unspent
unfolding is_claim_sized smaller
smallest [] = none
smallest (u ∷ us) = let rest = smallest us in if is_claim_sized u then smaller u rest else rest

unfoldable pub count_claim_sized : List Unspent → ℕ
unfolding is_claim_sized
count_claim_sized [] = 0
count_claim_sized (u ∷ us) =
    let rest = count_claim_sized us in if is_claim_sized u then 1 + rest else rest

-- `?`
abbrev pub after : {A B : Type 0} → Answer A → (A → Answer B) → Answer B
after (Answer.done a) k = k a
after (Answer.refused e) k = Answer.refused e
after Answer.panicked k = Answer.panicked

unfoldable pub ensure_claim_utxos_available : Utxos → Answer (Unit {0})
unfolding count_claim_sized
ensure_claim_utxos_available w = after w.list_unspents λ unspents.
    if ltb (count_claim_sized unspents) 2
    then w.create_utxos (2 - count_claim_sized unspents)
    else Answer.done tt

unfoldable pub last : List Unspent → Option Unspent
last [] = none
last (u ∷ []) = some u
last (u ∷ v ∷ us) = last (v ∷ us)

-- The text of an output.
unfoldable pub claim_text : Option Unspent → Answer Bytes
unfolding utxo_key
claim_text none = Answer.refused (str "Failed to create claim UTXO")
claim_text (some u) = Answer.done (utxo_key u.txid u.vout)

-- From the search among the outputs on.
unfoldable pub claim_from : Utxos → Option Unspent → Answer Bytes
unfolding claim_text last
claim_from w (some u) = claim_text (some u)
claim_from w none =
    after (w.create_utxos 1) λ _. after w.list_created λ unspents. claim_text (last unspents)

unfoldable pub get_claim_utxo : Utxos → Answer Bytes
unfolding smallest claim_from
get_claim_utxo w = after w.list_unspents λ unspents. claim_from w (smallest unspents)
