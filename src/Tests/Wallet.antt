-- ===== src/Tests/Wallet.antt =====
-- Locked outputs, claims and balances of a concrete wallet, with a printer of JSON data that parts the fields by zeros.
use mathlib.Core.List.{Memᴰ}
use f1r3fly_rgb_lightning_no.Common.{
  ℕ, true, zero, suc, ◌+◌, ◌-◌, ◌≡◌, refl, ap, Option, none, some, List, [], ◌∷◌, ◌++◌, Bytes, Map,
  IsFree, split, split-append, lookup, bytes_eq, arith,
}
use f1r3fly_rgb_lightning_no.Wallet.{
  Answer, LockedUtxo, LockedData, Json, LockedStore, utxo_key, existing_data, read_data, or_empty,
}
use f1r3fly_rgb_lightning_no.Wallet.Tracked.{IsJson, Holds, IsUndone}
use f1r3fly_rgb_lightning_no.Wallet.Undone.{track_locked_utxo-IsUndone}
use f1r3fly_rgb_lightning_no.Wallet.Claims.{Unspent, Utxos, get_claim_utxo}
use f1r3fly_rgb_lightning_no.Wallet.Smallest.{IsClaimOutput, get_claim_utxo-IsClaimOutput}
use f1r3fly_rgb_lightning_no.Wallet.Closing.{
  ClaimLibrary, ChannelInfo, ClosingState, handle_rgb_channel_close,
}
use f1r3fly_rgb_lightning_no.Wallet.Closed.{ClosesOrKeeps, handle_rgb_channel_close-ClosesOrKeeps}
use f1r3fly_rgb_lightning_no.Tests.Data.{hash, asset}

abbrev raised : Bytes → Bytes
raised [] = []
raised (b ∷ bs) = (b + 1) ∷ raised bs

abbrev lowered : Bytes → Bytes
lowered [] = []
lowered (b ∷ bs) = (b - 1) ∷ lowered bs

lowered-raised : (k : Bytes) → lowered (raised k) ≡ k
lowered-raised [] = refl
lowered-raised (b ∷ bs) = ground (arith, lowered-raised bs)

raised-IsFree : (k : Bytes) → IsFree 0 (raised k)
raised-IsFree [] = tt
raised-IsFree (b ∷ bs) = (omega arith, raised-IsFree bs)

-- An optional text, and an optional number.
abbrev field : Option Bytes → Bytes
field none = []
field (some c) = 1 ∷ raised c

abbrev number : Option ℕ → Bytes
number none = []
number (some n) = (n + 1) ∷ []

abbrev read_field : Bytes → Option Bytes
read_field [] = none
read_field (_ ∷ c) = some (lowered c)

abbrev read_number : Bytes → Option ℕ
read_number [] = none
read_number (n ∷ _) = some (n - 1)

read_field-field : (o : Option Bytes) → read_field (field o) ≡ o
read_field-field none = refl
read_field-field (some c) = ap some (lowered-raised c)

read_number-number : (o : Option ℕ) → read_number (number o) ≡ o
read_number-number none = refl
read_number-number (some n) = ground arith

field-IsFree : (o : Option Bytes) → IsFree 0 (field o)
field-IsFree none = tt
field-IsFree (some c) = (omega arith, raised-IsFree c)

number-IsFree : (o : Option ℕ) → IsFree 0 (number o)
number-IsFree none = tt
number-IsFree (some n) = (omega arith, tt)

abbrev print_entries : Map LockedUtxo → Bytes
print_entries [] = []
print_entries ((k, e) ∷ m) =
    raised k ++ (0 ∷ (field e.contract_id ++ (0 ∷ (number e.amount ++ (0 ∷ print_entries m)))))

abbrev read_fields : List Bytes → Map LockedUtxo
read_fields (k ∷ c ∷ a ∷ rest) =
    (lowered k, record { contract_id = read_field c; amount = read_number a }) ∷ read_fields rest
read_fields _ = []

abbrev print : LockedData → Bytes
print (LockedData.object m) = 0 ∷ print_entries m
print LockedData.null = 1 ∷ []
print LockedData.other = 2 ∷ []

abbrev read : Bytes → Option LockedData
read [] = none
read (zero ∷ t) = some (LockedData.object (read_fields (split 0 t)))
read (suc zero ∷ _) = some LockedData.null
read (suc (suc _) ∷ _) = some LockedData.other

abbrev json : Json
json = record { from_str = read; to_string_pretty = print }

read_fields-print : (m : Map LockedUtxo) → read_fields (split 0 (print_entries m)) ≡ m
unfolding split
read_fields-print [] = refl
read_fields-print ((k, e) ∷ m) =
    rw
      (
        split-append 0 (raised k)
            (field e.contract_id ++ (0 ∷ (number e.amount ++ (0 ∷ print_entries m))))
            (raised-IsFree k),
        split-append 0 (field e.contract_id) (number e.amount ++ (0 ∷ print_entries m))
            (field-IsFree e.contract_id),
        split-append 0 (number e.amount) (print_entries m) (number-IsFree e.amount),
        lowered-raised k,
        read_field-field e.contract_id,
        read_number-number e.amount,
        read_fields-print m,
      )
      refl

read-print : (d : LockedData) → read (print d) ≡ some d
read-print (LockedData.object m) = ap (λ x. some (LockedData.object x)) (read_fields-print m)
read-print LockedData.null = refl
read-print LockedData.other = refl

json-IsJson : IsJson json
json-IsJson = record { reads_back = read-print }

abbrev locked_store : LockedStore
locked_store = record {
  file = some (
      print
        (LockedData.object ((7 ∷ [], record { contract_id = some asset; amount = some 5 }) ∷ [])));
  read_error = none;
  create_error = none;
  write_error = none;
}

abbrev entries : Map LockedUtxo
entries = (7 ∷ [], record { contract_id = some asset; amount = some 5 }) ∷ []

store-Holds : Holds json entries locked_store
unfolding existing_data read_data or_empty split
store-Holds = record { data_read = refl; reads = refl; writes = refl }

not_locked : lookup (utxo_key hash 1) entries ≡ none
unfolding utxo_key lookup bytes_eq
not_locked = refl

track_locked_utxo-IsUndone_example : IsUndone json asset hash 1 60 locked_store
track_locked_utxo-IsUndone_example =
    track_locked_utxo-IsUndone json json-IsJson asset hash 1 60 entries locked_store store-Holds
      not_locked

abbrev large : Unspent
large = record { txid = hash; vout = 0; btc_amount = 50000; rgb_allocations = [] }

abbrev colored : Unspent
colored = record { txid = hash; vout = 1; btc_amount = 900; rgb_allocations = asset ∷ [] }

abbrev small : Unspent
small = record { txid = hash; vout = 2; btc_amount = 1000; rgb_allocations = [] }

abbrev unspents : List Unspent
unspents = large ∷ colored ∷ small ∷ []

abbrev utxos : Utxos
utxos = record {
  list_unspents = Answer.done unspents;
  create_utxos = λ n. Answer.done tt;
  list_created = Answer.done unspents;
}

get_claim_utxo-IsClaimOutput_example : IsClaimOutput unspents (get_claim_utxo utxos)
get_claim_utxo-IsClaimOutput_example =
    get_claim_utxo-IsClaimOutput utxos unspents small refl (Memᴰ.tail (Memᴰ.tail (Memᴰ.head refl)))
      refl (omega arith)

abbrev claims : ClaimLibrary
claims = record {
  sha256_hex = λ text. hash ++ hash;
  has_transaction = λ txid. true;
  call_claim = λ witness utxo contract. none;
  parse_error = λ text. [];
  insert_error = none;
  complete_error = none;
  save_error = none;
  removes_info = true;
  removes_pending_info = true;
}

abbrev closing : ClosingState
closing = record { locked = locked_store; claims = []; info_file = true; pending_info_file = true }

abbrev channel_info : ChannelInfo
channel_info = record { contract_id = asset; local_rgb_amount = 60 }

handle_rgb_channel_close-ClosesOrKeeps_example :
    ClosesOrKeeps claims json utxos asset hash 1 closing
      (handle_rgb_channel_close claims json utxos (some channel_info) hash 1 closing)
handle_rgb_channel_close-ClosesOrKeeps_example =
    handle_rgb_channel_close-ClosesOrKeeps claims json hash 1 closing utxos channel_info
      (omega arith)
