-- ===== src/Wallet/Closed.antt =====
-- What the close of a channel leaves.
use f1r3fly_rgb_lightning_no.Common.{
  ℕ, ◌≡◌, ◌≢◌, ◌⊎◌, refl, sym, ap, true, false, ◌&&◌, not, Option, none, some, List, ◌∷◌, ◌++◌,
  Bytes, str, take, inl, inr, Bool-cases, ◌==◌, split, arith,
}
use f1r3fly_rgb_lightning_no.Decimal.{show_nat}
use f1r3fly_rgb_lightning_no.Wallet.{Answer, Json, utxo_key, release_locked_utxo}
use f1r3fly_rgb_lightning_no.Wallet.Released.{IsReleased, release_from-IsReleased}
use f1r3fly_rgb_lightning_no.Wallet.Claims.{Utxos, get_claim_utxo}
use f1r3fly_rgb_lightning_no.Wallet.Closing.{
  Claim, ClaimLibrary, ChannelInfo, ClosingState, is_witness_claimed, outpoint_error, witness_of,
  our_witness_id, insert_claim, register_claim, save_claims, claim_parsed, claim_called, claim,
  clean_up, close_with, handle_rgb_channel_close,
}

-- The witness of the role of the node: the holder's if it has the funding transaction, or else the counterparty's.
abbrev pub IsOurs : ClaimLibrary → Bytes → ℕ → Bytes → Type 0
IsOurs lib txid vout witness =
    ((lib.has_transaction txid ≡ true)
      × (witness
          ≡ str "witness:"
            ++ (take 32 (
                  lib.sha256_hex
                    (str "witness:" ++ ((txid ++ (b':' ∷ show_nat vout)) ++ str "holder")))
                ++ str ":0")))
    ⊎ ((lib.has_transaction txid ≡ false)
        × (witness
            ≡ str "witness:"
              ++ (take 32 (
                    lib.sha256_hex
                      (str "witness:" ++ ((txid ++ (b':' ∷ show_nat vout)) ++ str "counterparty")))
                  ++ str ":0")))

our_witness_id-IsOurs :
    (lib : ClaimLibrary) (txid : Bytes) (vout : ℕ)
    → IsOurs lib txid vout (our_witness_id lib txid (utxo_key txid vout))
unfolding our_witness_id witness_of utxo_key
our_witness_id-IsOurs lib txid vout = elim (Bool-cases (lib.has_transaction txid)) [
  | inl holder ↦ inl (holder, rw holder refl)
  | inr other ↦ inr (other, rw other refl)
]

-- A claim of the witness and the contract is in the list: it was there before, or it was put before the others, completed.
abbrev pub IsRegistered : Bytes → Bytes → List Claim → List Claim → Type 0
IsRegistered witness contract before after =
    ((is_witness_claimed witness contract before ≡ true) × (after ≡ before))
    ⊎ ((is_witness_claimed witness contract before ≡ false)
        × (after
            ≡ record { contract_id = contract; witness_id = witness; completed = true } ∷ before))

module _ (lib : ClaimLibrary) (witness contract : Bytes) (claims cs : List Claim) where
  insert_claim_done :
      (i c : Option Bytes)
      → insert_claim lib witness contract claims i c ≡ (Answer.done tt, cs)
      → cs ≡ record { contract_id = contract; witness_id = witness; completed = true } ∷ claims
  unfolding insert_claim
  insert_claim_done (some x) c e = cc
  insert_claim_done none (some x) e = cc
  insert_claim_done none none e = ap (λ (r : Answer (Unit {0}) × List Claim). r.1) (sym e)

  register_claim_done :
      register_claim lib witness contract claims ≡ (Answer.done tt, cs)
      → IsRegistered witness contract claims cs
  unfolding register_claim
  register_claim_done e = elim (Bool-cases (is_witness_claimed witness contract claims)) [
    | inl known ↦
        let q : Path (Answer (Unit {0}) × List Claim) (Answer.done tt, claims)
            (Answer.done tt, cs) =
          rw known at e in
        inl (known, ap (λ (r : Answer (Unit {0}) × List Claim). r.1) (sym q))
    | inr new ↦
        let q : insert_claim lib witness contract claims lib.insert_error lib.complete_error
            ≡ (Answer.done tt, cs) =
          rw new at e in
        inr (new, insert_claim_done lib.insert_error lib.complete_error q)
  ]

  save_claims_done :
      (w : Option Bytes) (r : Answer (Unit {0}) × List Claim)
      → save_claims lib w r ≡ (Answer.done tt, cs)
      → r ≡ (Answer.done tt, cs)
  unfolding save_claims
  save_claims_done none (Answer.done _, x) e = e
  save_claims_done (some y) (Answer.done _, x) e = cc
  save_claims_done none (Answer.refused y, x) e = cc
  save_claims_done (some z) (Answer.refused y, x) e = cc
  save_claims_done none (Answer.panicked, x) e = cc
  save_claims_done (some z) (Answer.panicked, x) e = cc

  claim_parsed_done :
      (o : Option Bytes)
      → claim_parsed lib o witness contract claims ≡ (Answer.done tt, cs)
      → IsRegistered witness contract claims cs
  unfolding claim_parsed
  claim_parsed_done (some x) e = cc
  claim_parsed_done none e =
      register_claim_done
        (save_claims_done lib.save_error (register_claim lib witness contract claims) e)

  -- A claim that returns was paid by the contract, and is registered.
  claim_called_done :
      (utxo : Bytes) (o : Option Bytes)
      → claim_called lib o witness utxo contract claims ≡ (Answer.done tt, cs)
      → (o ≡ none) × IsRegistered witness contract claims cs
  unfolding claim_called
  claim_called_done utxo (some x) e = cc
  claim_called_done utxo none e =
      (refl, claim_parsed_done (outpoint_error lib utxo (split b':' utxo)) e)

-- What the close of a channel leaves.
pub record IsClosed (lib : ClaimLibrary) (json : Json) (utxos : Utxos) (contract txid : Bytes)
    (vout : ℕ) (s t : ClosingState) : Type 0 where
  pub witness : Bytes
  pub ours : IsOurs lib txid vout witness
  pub utxo : Bytes
  pub chosen : get_claim_utxo utxos ≡ Answer.done utxo
  pub paid : lib.call_claim witness utxo contract ≡ none
  pub registered : IsRegistered witness contract s.claims t.claims
  pub locked : t.locked ≡ (release_locked_utxo json txid vout s.locked).1
  pub released :
      IsReleased json (utxo_key txid vout) s.locked (release_locked_utxo json txid vout s.locked)
  pub info : t.info_file ≡ (s.info_file && not lib.removes_info)
  pub pending_info : t.pending_info_file ≡ (s.pending_info_file && not lib.removes_pending_info)

pub record IsKept (s t : ClosingState) : Type 0 where
  pub locked : t.locked ≡ s.locked
  pub info : t.info_file ≡ s.info_file
  pub pending_info : t.pending_info_file ≡ s.pending_info_file

abbrev pub ClosesOrKeeps :
    ClaimLibrary
    → Json
    → Utxos
    → Bytes
    → Bytes
    → ℕ
    → ClosingState
    → Answer (Unit {0}) × ClosingState
    → Type 0
ClosesOrKeeps lib json utxos contract txid vout s (Answer.done _, t) =
    IsClosed lib json utxos contract txid vout s t
ClosesOrKeeps lib json utxos contract txid vout s (Answer.refused _, t) = IsKept s t
ClosesOrKeeps lib json utxos contract txid vout s (Answer.panicked, t) = IsKept s t

module _ (lib : ClaimLibrary) (json : Json) (txid : Bytes) (vout : ℕ) (s : ClosingState) where
  kept : (cs : List Claim) → IsKept s (record s { claims = cs })
  kept cs = record { locked = refl; info = refl; pending_info = refl }

  clean_up-ClosesOrKeeps :
      (utxos : Utxos) (utxo contract : Bytes) (r : Answer (Unit {0}) × List Claim)
      → get_claim_utxo utxos ≡ Answer.done utxo
      → claim lib (our_witness_id lib txid (utxo_key txid vout)) utxo contract s.claims ≡ r
      → ClosesOrKeeps lib json utxos contract txid vout s (clean_up lib json txid vout s r)
  unfolding clean_up claim release_locked_utxo
  clean_up-ClosesOrKeeps utxos utxo contract (Answer.done _, cs) chosen q =
      let witness = our_witness_id lib txid (utxo_key txid vout) in
      let (paid, registered) =
        claim_called_done lib witness contract s.claims cs utxo
          (lib.call_claim witness utxo contract) q in
      record {
        witness = witness;
        ours = our_witness_id-IsOurs lib txid vout;
        utxo = utxo;
        chosen = chosen;
        paid = paid;
        registered = registered;
        locked = refl;
        released = release_from-IsReleased json (utxo_key txid vout) s.locked s.locked.file refl;
        info = refl;
        pending_info = refl;
      }
  clean_up-ClosesOrKeeps utxos utxo contract (Answer.refused e, cs) chosen q = kept cs
  clean_up-ClosesOrKeeps utxos utxo contract (Answer.panicked, cs) chosen q = kept cs

  close_with-ClosesOrKeeps :
      (utxos : Utxos) (contract : Bytes) (a : Answer Bytes)
      → get_claim_utxo utxos ≡ a
      → ClosesOrKeeps lib json utxos contract txid vout s
          (close_with lib json txid vout contract s a)
  unfolding close_with
  close_with-ClosesOrKeeps utxos contract (Answer.done utxo) q =
      clean_up-ClosesOrKeeps utxos utxo contract
        (claim lib (our_witness_id lib txid (utxo_key txid vout)) utxo contract s.claims) q refl
  close_with-ClosesOrKeeps utxos contract (Answer.refused e) q = kept s.claims
  close_with-ClosesOrKeeps utxos contract Answer.panicked q = kept s.claims

  -- When the close of a channel with assets of ours is handled without an error, the contract has paid the witness of our
  -- role (the holder's if the node has the funding transaction, or else the counterparty's) to the output that
  -- `get_claim_utxo` gave, and the claim is registered, and not again if it was before. The funding output's entry is then
  -- removed from the file of locked outputs, unless there is no file or that fails, when the output stays locked although
  -- the handler returns; and each file of the channel's RGB data is removed, unless its removal fails. On an error the
  -- output stays locked and the data stay, so that the claim can be tried again.
  pub handle_rgb_channel_close-ClosesOrKeeps :
      (utxos : Utxos) (info : ChannelInfo)
      → info.local_rgb_amount ≢ 0
      → ClosesOrKeeps lib json utxos info.contract_id txid vout s
          (handle_rgb_channel_close lib json utxos (some info) txid vout s)
  unfolding handle_rgb_channel_close
  handle_rgb_channel_close-ClosesOrKeeps utxos info some_amount =
      elim (Bool-cases (info.local_rgb_amount == 0)) [
        | inl zero_amount ↦ absurd (ground arith)
        | inr positive ↦
            rw positive
              (close_with-ClosesOrKeeps utxos info.contract_id (get_claim_utxo utxos) refl)
      ]
