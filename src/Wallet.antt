-- ===== src/Wallet.antt =====
-- The assets that are locked in channels, the balances, and the output for a claim, of the wallet's adapter
-- (src/f1r3fly_rgb_adapter.rs).
pub mod Tracked
pub mod Undone
pub mod Balances
pub mod Released
pub mod Closing
pub mod Closed
pub mod Claims
pub mod Smallest
use f1r3fly_rgb_lightning_no.Common.{
  ℕ, ◌+◌, ◌-◌, ◌%◌, Bool, true, false, ◌&&◌, not, Option, none, some, List, [], ◌∷◌, ◌++◌, Bytes,
  Map, insert, remove, str, bytes_eq, option_bytes_eq, is_empty, length, leb, ltb, if◌then◌else◌,
}
use f1r3fly_rgb_lightning_no.Decimal.{show_nat, u64_bound}

-- A result with a text for its error.
pub data Answer (A : Type 0) : Type 0 where
  done : A → Answer A
  refused : Bytes → Answer A
  panicked : Answer A

-- An entry of the file of locked outputs, as far as it is read: the fields that have the right type.
pub record LockedUtxo : Type 0 where
  pub contract_id : Option Bytes
  pub amount : Option ℕ

-- A JSON value, as far as it is told apart.
pub data LockedData : Type 0 where
  object : Map LockedUtxo → LockedData
  null : LockedData
  other : LockedData

-- The JSON library.
pub record Json : Type 0 where
  pub from_str : Bytes → Option LockedData
  pub to_string_pretty : LockedData → Bytes

-- The file, if it exists, and the errors of its reading, of the creation of its directory, and of its writing.
pub record LockedStore : Type 0 where
  pub file : Option Bytes
  pub read_error : Option Bytes
  pub create_error : Option Bytes
  pub write_error : Option Bytes

unfoldable pub utxo_key : Bytes → ℕ → Bytes
utxo_key txid vout = txid ++ (b':' ∷ show_nat vout)

-- `locked_data[utxo_key] = …`
unfoldable pub set_entry : Bytes → LockedUtxo → LockedData → Answer LockedData
set_entry key entry (LockedData.object m) = Answer.done (LockedData.object (insert key entry m))
set_entry key entry LockedData.null = Answer.done (LockedData.object ((key, entry) ∷ []))
set_entry key entry LockedData.other = Answer.panicked

-- The removal from an object.
unfoldable pub remove_entry : Bytes → LockedData → LockedData
remove_entry key (LockedData.object m) = LockedData.object (remove key m)
remove_entry key LockedData.null = LockedData.null
remove_entry key LockedData.other = LockedData.other

-- The amount of an entry, if it is of the contract.
unfoldable pub amount_of : Bytes → LockedUtxo → ℕ
amount_of contract e =
    if option_bytes_eq e.contract_id (some contract)
    then elim e.amount [ none ↦ 0 | some amount ↦ amount ]
    else 0

-- The loop over the entries, with the total as it wraps around in a release build.
unfoldable pub sum_entries : Bytes → Map LockedUtxo → ℕ → ℕ
unfolding amount_of
sum_entries contract [] total = total
sum_entries contract ((_, e) ∷ m) total =
    sum_entries contract m ((total + amount_of contract e) % u64_bound)

unfoldable pub sum_data : Bytes → LockedData → ℕ
unfolding sum_entries
sum_data contract (LockedData.object m) = sum_entries contract m 0
sum_data contract LockedData.null = 0
sum_data contract LockedData.other = 0

-- `unwrap_or_else` on the parsed text.
unfoldable pub or_empty : Option LockedData → LockedData
or_empty none = LockedData.object []
or_empty (some d) = d

unfoldable pub write_text : Option Bytes → Bytes → LockedStore → Answer (Unit {0}) × LockedStore
write_text none text s = (Answer.done tt, record s { file = some text })
write_text (some e) text s = (Answer.refused (str "Failed to write locked UTXOs file: " ++ e), s)

module _ (json : Json) where
  -- The content of a file that exists.
  unfoldable pub read_data : Option Bytes → Bytes → Answer LockedData
  unfolding or_empty
  read_data none text = Answer.done (or_empty (json.from_str text))
  read_data (some e) text = Answer.refused (str "Failed to read locked UTXOs file: " ++ e)

  unfoldable pub write_data : Answer LockedData → LockedStore → Answer (Unit {0}) × LockedStore
  unfolding write_text
  write_data (Answer.done d) s = write_text s.write_error (json.to_string_pretty d) s
  write_data (Answer.refused e) s = (Answer.refused e, s)
  write_data Answer.panicked s = (Answer.panicked, s)

  -- The data to which an output is added.
  unfoldable pub existing_data : Option Bytes → LockedStore → Answer LockedData
  unfolding read_data
  existing_data (some text) s = read_data s.read_error text
  existing_data none s = elim s.create_error [
    | none ↦ Answer.done (LockedData.object [])
    | some e ↦ Answer.refused (str "Failed to create directory: " ++ e)
  ]

  unfoldable pub after_read :
      Answer LockedData → (LockedData → Answer LockedData) → Answer LockedData
  after_read (Answer.done d) k = k d
  after_read (Answer.refused e) k = Answer.refused e
  after_read Answer.panicked k = Answer.panicked

  unfoldable pub track_locked_utxo :
      Bytes → Bytes → ℕ → ℕ → LockedStore → Answer (Unit {0}) × LockedStore
  unfolding existing_data after_read set_entry write_data utxo_key
  track_locked_utxo contract txid vout amount s =
      write_data
        (after_read (existing_data s.file s) (
          set_entry (utxo_key txid vout)
            (record { contract_id = some contract; amount = some amount })))
        s

  unfoldable pub release_from : Option Bytes → Bytes → LockedStore → Answer (Unit {0}) × LockedStore
  unfolding read_data after_read remove_entry write_data
  release_from none key s = (Answer.done tt, s)
  release_from (some text) key s =
      write_data (after_read (read_data s.read_error text) (λ d. Answer.done (remove_entry key d)))
        s

  unfoldable pub release_locked_utxo : Bytes → ℕ → LockedStore → Answer (Unit {0}) × LockedStore
  unfolding release_from utxo_key
  release_locked_utxo txid vout s = release_from s.file (utxo_key txid vout) s

  unfoldable pub locked_in : Option Bytes → Bytes → LockedStore → Answer ℕ
  unfolding read_data sum_data
  locked_in none contract s = Answer.done 0
  locked_in (some text) contract s = elim (read_data s.read_error text) [
    | Answer.done d ↦ Answer.done (sum_data contract d)
    | Answer.refused e ↦ Answer.refused e
    | Answer.panicked ↦ Answer.panicked
  ]

  unfoldable pub get_locked_amount : Bytes → LockedStore → Answer ℕ
  unfolding locked_in
  get_locked_amount contract s = locked_in s.file contract s
