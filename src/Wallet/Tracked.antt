-- ===== src/Wallet/Tracked.antt =====
-- What the file of locked outputs adds up to, when an output is locked and released.
use f1r3fly_rgb_lightning_no.Common.{
  ℕ, ◌+◌, ◌%◌, ◌<◌, ◌≡◌, refl, ap, ◌∙◌, Option, none, some, [], ◌∷◌, Bytes, Map, insert, remove,
  lookup, bytes_eq, bytes_eq_refl, inl, inr, Bool-cases, Option-cases, if◌then◌else◌, arith,
}
use f1r3fly_rgb_lightning_no.Decimal.{u64_bound}
use f1r3fly_rgb_lightning_no.Wallet.{
  Answer, LockedUtxo, LockedData, Json, LockedStore, utxo_key, set_entry, remove_entry, amount_of,
  sum_entries, sum_data, or_empty, write_text, read_data, write_data, existing_data, after_read,
  track_locked_utxo, release_from, release_locked_utxo, locked_in, get_locked_amount,
}

-- The sum without a bound.
abbrev pub total : Bytes → Map LockedUtxo → ℕ
total contract [] = 0
total contract ((_, e) ∷ m) = amount_of contract e + total contract m

abbrev pub entry : Bytes → ℕ → LockedUtxo
entry contract amount = record { contract_id = some contract; amount = some amount }

wrapped : (t a r : ℕ) → ((t + a) % u64_bound + r) % u64_bound ≡ (t + (a + r)) % u64_bound
wrapped t a r = omega arith

sum_entries-total :
    (contract : Bytes) (m : Map LockedUtxo) (t : ℕ)
    → t < u64_bound
    → sum_entries contract m t ≡ (t + total contract m) % u64_bound
unfolding sum_entries
sum_entries-total contract [] t h = omega arith
sum_entries-total contract ((_, e) ∷ m) t h =
    sum_entries-total contract m ((t + amount_of contract e) % u64_bound) (omega arith)
    ∙ wrapped t (amount_of contract e) (total contract m)

pub total-insert :
    (contract k : Bytes) (e : LockedUtxo) (m : Map LockedUtxo)
    → lookup k m ≡ none
    → total contract (insert k e m) ≡ total contract m + amount_of contract e
unfolding insert lookup
total-insert contract k e [] h = omega arith
total-insert contract k e ((j, d) ∷ m) h = elim (Bool-cases (bytes_eq j k)) [
  | inl same ↦ cc (rw same at h)
  | inr differ ↦
      let rest : lookup k m ≡ none = rw differ at h in
      rw differ (let step = total-insert contract k e m rest in omega arith)
]

total-remove_fresh :
    (contract k : Bytes) (m : Map LockedUtxo)
    → lookup k m ≡ none
    → total contract (remove k m) ≡ total contract m
unfolding remove lookup
total-remove_fresh contract k [] h = refl
total-remove_fresh contract k ((j, d) ∷ m) h = elim (Bool-cases (bytes_eq j k)) [
  | inl same ↦ cc (rw same at h)
  | inr differ ↦
      let rest : lookup k m ≡ none = rw differ at h in
      rw differ (ap (λ n. amount_of contract d + n) (total-remove_fresh contract k m rest))
]

pub total-remove :
    (contract k : Bytes) (e : LockedUtxo) (m : Map LockedUtxo)
    → lookup k m ≡ none
    → total contract (remove k (insert k e m)) ≡ total contract m
unfolding insert remove lookup
total-remove contract k e [] h = rw (bytes_eq_refl k) refl
total-remove contract k e ((j, d) ∷ m) h = elim (Bool-cases (bytes_eq j k)) [
  | inl same ↦ cc (rw same at h)
  | inr differ ↦
      let rest : lookup k m ≡ none = rw differ at h in
      rw (differ, differ) (ap (λ n. amount_of contract d + n) (total-remove contract k e m rest))
]

-- The JSON library reads back what it prints, as far as it is told apart here.
pub record IsJson (json : Json) : Type 0 where
  pub reads_back : (d : LockedData) → json.from_str (json.to_string_pretty d) ≡ some d

module _ (json : Json) where
  -- A file that works and has the entries of a map, or does not exist yet.
  pub record Holds (m : Map LockedUtxo) (s : LockedStore) : Type 0 where
    pub data_read : existing_data json s.file s ≡ Answer.done (LockedData.object m)
    pub reads : s.read_error ≡ none
    pub writes : s.write_error ≡ none

  -- The sum of what was read.
  abbrev sum_read : Bytes → Answer LockedData → ℕ
  sum_read contract (Answer.done d) = sum_data contract d
  sum_read contract (Answer.refused _) = 0
  sum_read contract Answer.panicked = 0

  locked_in-held :
      (contract : Bytes) (m : Map LockedUtxo) (file : Option Bytes) (s : LockedStore)
      → existing_data json file s ≡ Answer.done (LockedData.object m)
      → locked_in json file contract s ≡ Answer.done (sum_entries contract m 0)
  unfolding existing_data locked_in sum_data
  locked_in-held contract m (some text) s e =
      let read : read_data json s.read_error text ≡ Answer.done (LockedData.object m) = e in
      rw (read, locked_in) refl
  locked_in-held contract m none s e = elim (Option-cases s.create_error) [
    | inl fine ↦
        let e' : Answer.done (LockedData.object []) ≡ Answer.done (LockedData.object m) =
          rw fine at e in
        ap (λ a. Answer.done (sum_read contract a)) e'
    | inr (x, bad) ↦ cc (rw bad at e)
  ]

  pub get_locked_amount-Holds :
      (contract : Bytes) (m : Map LockedUtxo) (s : LockedStore)
      → Holds m s
      → get_locked_amount json contract s ≡ Answer.done (total contract m % u64_bound)
  unfolding get_locked_amount
  get_locked_amount-Holds contract m s h =
      locked_in-held contract m s.file s h.data_read
      ∙ ap Answer.done (let summed = sum_entries-total contract m 0 (omega arith) in omega arith)

  -- The store after a write.
  abbrev pub with_data : LockedData → LockedStore → LockedStore
  with_data d s = record s { file = some (json.to_string_pretty d) }

  read-printed :
      (d : LockedData) (o : Option Bytes)
      → IsJson json
      → o ≡ none
      → read_data json o (json.to_string_pretty d) ≡ Answer.done d
  unfolding read_data or_empty
  read-printed d none law reads = ap (λ x. Answer.done (or_empty x)) (law.reads_back d)
  read-printed d (some e) law reads = cc

  pub written-Holds :
      (m : Map LockedUtxo) (s : LockedStore)
      → IsJson json
      → s.read_error ≡ none
      → s.write_error ≡ none
      → Holds m (with_data (LockedData.object m) s)
  unfolding existing_data
  written-Holds m s law reads writes = record {
    data_read = read-printed (LockedData.object m) s.read_error law reads;
    reads = reads;
    writes = writes;
  }

  write_data-works :
      (d : LockedData) (s : LockedStore)
      → s.write_error ≡ none
      → write_data json (Answer.done d) s ≡ (Answer.done tt, with_data d s)
  unfolding write_data write_text
  write_data-works d s writes = ap (λ o. write_text o (json.to_string_pretty d) s) writes

  pub track_held :
      (contract txid : Bytes) (vout amount : ℕ) (m : Map LockedUtxo) (s : LockedStore)
      → Holds m s
      → track_locked_utxo json contract txid vout amount s ≡ (
        Answer.done tt,
        with_data (LockedData.object (insert (utxo_key txid vout) (entry contract amount) m)) s,
      )
  unfolding track_locked_utxo after_read set_entry
  track_held contract txid vout amount m s h =
      ap
        (λ a.
          write_data json
            (after_read json a (set_entry (utxo_key txid vout) (entry contract amount))) s)
        h.data_read
      ∙ write_data-works (LockedData.object (insert (utxo_key txid vout) (entry contract amount) m))
          s h.writes

  pub release_held :
      (txid : Bytes) (vout : ℕ) (m : Map LockedUtxo) (s : LockedStore)
      → IsJson json
      → s.read_error ≡ none
      → s.write_error ≡ none
      → release_locked_utxo json txid vout (with_data (LockedData.object m) s)
        ≡ (Answer.done tt, with_data (LockedData.object (remove (utxo_key txid vout) m)) s)
  unfolding release_locked_utxo release_from after_read remove_entry
  release_held txid vout m s law reads writes =
      ap
        (λ a.
          write_data json
            (after_read json a (λ d. Answer.done (remove_entry (utxo_key txid vout) d)))
            (with_data (LockedData.object m) s))
        (read-printed (LockedData.object m) s.read_error law reads)
      ∙ write_data-works (LockedData.object (remove (utxo_key txid vout) m))
          (with_data (LockedData.object m) s) writes

  -- What the locking of an output does to the sums, and its release after it.
  pub record IsUndone (contract txid : Bytes) (vout amount : ℕ) (s : LockedStore) : Type 0 where
    pub tracked : (track_locked_utxo json contract txid vout amount s).0 ≡ Answer.done tt
    pub sums :
        (other : Bytes) (n : ℕ)
        → get_locked_amount json other s ≡ Answer.done n
        → get_locked_amount json other (track_locked_utxo json contract txid vout amount s).1
          ≡ Answer.done ((n + (if bytes_eq contract other then amount else 0)) % u64_bound)
    pub released :
        (release_locked_utxo json txid vout
          (track_locked_utxo json contract txid vout amount s).1).0
        ≡ Answer.done tt
    pub restored :
        (other : Bytes)
        → get_locked_amount json other
            (release_locked_utxo json txid vout
              (track_locked_utxo json contract txid vout amount s).1).1
          ≡ get_locked_amount json other s
