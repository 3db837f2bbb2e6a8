-- ===== src/Wallet/Closing.antt =====
-- The claim of the assets of a closed channel: `claim` (src/f1r3fly_rgb_adapter.rs) and `handle_rgb_channel_close` (src/ldk.rs).
use f1r3fly_rgb_lightning_no.Common.{
  ℕ, ◌^◌, Bool, true, false, ◌&&◌, ◌||◌, not, Option, none, some, List, [], ◌∷◌, ◌++◌, Bytes, str,
  bytes_eq, split, take, ltb, ◌==◌, if◌then◌else◌,
}
use f1r3fly_rgb_lightning_no.Decimal.{parse_u64}
use f1r3fly_rgb_lightning_no.Wallet.{Answer, Json, LockedStore, utxo_key, release_locked_utxo}
use f1r3fly_rgb_lightning_no.Wallet.Claims.{Utxos, get_claim_utxo}

-- A `PendingClaim`, as far as it is read, and whether it was marked as completed.
pub record Claim : Type 0 where
  pub contract_id : Bytes
  pub witness_id : Bytes
  pub completed : Bool

-- What the libraries answer: the call of the contract with what leads to it, and the storage of claims.
pub record ClaimLibrary : Type 0 where
  -- the hexadecimal text of a SHA-256 hash
  pub sha256_hex : Bytes → Bytes
  pub has_transaction : Bytes → Bool
  -- from the witness, the output and the contract: the error, if any
  pub call_claim : Bytes → Bytes → Bytes → Option Bytes
  -- the text of a number that does not parse
  pub parse_error : Bytes → Bytes
  pub insert_error : Option Bytes
  pub complete_error : Option Bytes
  pub save_error : Option Bytes
  -- `remove_file` works on the RGB data of the channel, and on its pending RGB data
  pub removes_info : Bool
  pub removes_pending_info : Bool

-- The RGB data of a channel, as far as it is read.
pub record ChannelInfo : Type 0 where
  pub contract_id : Bytes
  pub local_rgb_amount : ℕ

pub record ClosingState : Type 0 where
  pub locked : LockedStore
  pub claims : List Claim
  pub info_file : Bool
  pub pending_info_file : Bool

-- `any` on the claims of the contract.
unfoldable pub is_witness_claimed : Bytes → Bytes → List Claim → Bool
is_witness_claimed witness contract [] = false
is_witness_claimed witness contract (c ∷ cs) =
    (bytes_eq c.contract_id contract && bytes_eq c.witness_id witness)
    || is_witness_claimed witness contract cs

-- `parse::<u32>()`
unfoldable pub parse_u32 : Bytes → Option ℕ
parse_u32 text = elim (parse_u64 text) [
  | none ↦ none
  | some n ↦ if ltb n (2 ^ 32) then some n else none
]

module _ (lib : ClaimLibrary) where
  -- What is wrong with the text of an output, which is an id and a number.
  unfoldable pub outpoint_error : Bytes → List Bytes → Option Bytes
  unfolding parse_u32
  outpoint_error utxo (txid ∷ vout ∷ []) = elim (parse_u32 vout) [
    | none ↦ some (str "Invalid vout: " ++ lib.parse_error vout)
    | some _ ↦ none
  ]
  outpoint_error utxo _ =
      some (str "Invalid claim UTXO format: " ++ (utxo ++ str ". Expected 'txid:vout'"))

  -- The witness of a channel's funding output, for a role.
  unfoldable pub witness_of : Bytes → Bytes → Bytes
  witness_of funding role =
      str "witness:" ++ (take 32 (lib.sha256_hex (str "witness:" ++ (funding ++ role))) ++ str ":0")

  unfoldable pub our_witness_id : Bytes → Bytes → Bytes
  unfolding witness_of
  our_witness_id txid funding =
      if lib.has_transaction txid
      then witness_of funding (str "holder")
      else witness_of funding (str "counterparty")

  -- The record of a new claim.
  unfoldable pub insert_claim :
      Bytes → Bytes → List Claim → Option Bytes → Option Bytes → Answer (Unit {0}) × List Claim
  insert_claim witness contract claims (some e) _ =
      (Answer.refused (str "Failed to insert claim: " ++ e), claims)
  insert_claim witness contract claims none (some e) = (
    Answer.refused (str "Failed to mark claim completed: " ++ e),
    record { contract_id = contract; witness_id = witness; completed = false } ∷ claims,
  )
  insert_claim witness contract claims none none = (
    Answer.done tt,
    record { contract_id = contract; witness_id = witness; completed = true } ∷ claims,
  )

  unfoldable pub register_claim : Bytes → Bytes → List Claim → Answer (Unit {0}) × List Claim
  unfolding is_witness_claimed insert_claim
  register_claim witness contract claims =
      if is_witness_claimed witness contract claims
      then (Answer.done tt, claims)
      else insert_claim witness contract claims lib.insert_error lib.complete_error

  unfoldable pub save_claims :
      Option Bytes → Answer (Unit {0}) × List Claim → Answer (Unit {0}) × List Claim
  save_claims none (Answer.done _, claims) = (Answer.done tt, claims)
  save_claims (some e) (Answer.done _, claims) =
      (Answer.refused (str "Failed to save state after claim: " ++ e), claims)
  save_claims _ (Answer.refused e, claims) = (Answer.refused e, claims)
  save_claims _ (Answer.panicked, claims) = (Answer.panicked, claims)

  -- From the parsing of the output on.
  unfoldable pub claim_parsed :
      Option Bytes → Bytes → Bytes → List Claim → Answer (Unit {0}) × List Claim
  unfolding register_claim save_claims
  claim_parsed (some e) witness contract claims = (Answer.refused e, claims)
  claim_parsed none witness contract claims =
      save_claims lib.save_error (register_claim witness contract claims)

  -- From the answer of the contract on.
  unfoldable pub claim_called :
      Option Bytes → Bytes → Bytes → Bytes → List Claim → Answer (Unit {0}) × List Claim
  unfolding outpoint_error claim_parsed
  claim_called (some e) witness utxo contract claims = (Answer.refused e, claims)
  claim_called none witness utxo contract claims =
      claim_parsed (outpoint_error utxo (split b':' utxo)) witness contract claims

  unfoldable pub claim : Bytes → Bytes → Bytes → List Claim → Answer (Unit {0}) × List Claim
  unfolding claim_called
  claim witness utxo contract claims =
      claim_called (lib.call_claim witness utxo contract) witness utxo contract claims

  -- After the claim: the output is released and the data of the channel are removed, each whether or not that works.
  unfoldable pub clean_up :
      Json
      → Bytes
      → ℕ
      → ClosingState
      → Answer (Unit {0}) × List Claim
      → Answer (Unit {0}) × ClosingState
  clean_up json txid vout s (Answer.done _, claims) = (
    Answer.done tt,
    record {
      locked = (release_locked_utxo json txid vout s.locked).1;
      claims = claims;
      info_file = s.info_file && not lib.removes_info;
      pending_info_file = s.pending_info_file && not lib.removes_pending_info;
    },
  )
  clean_up json txid vout s (Answer.refused e, claims) =
      (Answer.refused (str "Claim failed: " ++ e), record s { claims = claims })
  clean_up json txid vout s (Answer.panicked, claims) =
      (Answer.panicked, record s { claims = claims })

  -- From the output for the claim on.
  unfoldable pub close_with :
      Json → Bytes → ℕ → Bytes → ClosingState → Answer Bytes → Answer (Unit {0}) × ClosingState
  unfolding our_witness_id claim clean_up utxo_key
  close_with json txid vout contract s (Answer.done utxo) =
      clean_up json txid vout s
        (claim (our_witness_id txid (utxo_key txid vout)) utxo contract s.claims)
  close_with json txid vout contract s (Answer.refused e) =
      (Answer.refused (str "Failed to get claim UTXO: " ++ e), s)
  close_with json txid vout contract s Answer.panicked = (Answer.panicked, s)

  unfoldable pub handle_rgb_channel_close :
      Json
      → Utxos
      → Option ChannelInfo
      → Bytes
      → ℕ
      → ClosingState
      → Answer (Unit {0}) × ClosingState
  unfolding close_with
  handle_rgb_channel_close json utxos none txid vout s = (Answer.done tt, s)
  handle_rgb_channel_close json utxos (some info) txid vout s =
      if info.local_rgb_amount == 0
      then (Answer.done tt, s)
      else close_with json txid vout info.contract_id s (get_claim_utxo utxos)
