-- ===== src/Wallet/Released.antt =====
-- What the release of a locked output does to the file of locked outputs.
use f1r3fly_rgb_lightning_no.Common.{
  ◌≡◌, refl, Option, none, some, Bytes, inl, inr, lookup, lookup-remove, bytes_eq_refl,
  Option-cases,
}
use f1r3fly_rgb_lightning_no.Wallet.{
  Answer, LockedData, Json, LockedStore, or_empty, read_data, after_read, write_text, write_data,
  remove_entry, release_from,
}

-- No entry of the data is of the output.
abbrev pub IsFreeOf : Bytes → LockedData → Type 0
IsFreeOf key (LockedData.object m) = lookup key m ≡ none
IsFreeOf key LockedData.null = Unit
IsFreeOf key LockedData.other = Unit

remove_entry-IsFreeOf : (key : Bytes) (d : LockedData) → IsFreeOf key (remove_entry key d)
unfolding remove_entry
remove_entry-IsFreeOf key (LockedData.object m) =
    rw (lookup-remove key key m, bytes_eq_refl key) refl
remove_entry-IsFreeOf key LockedData.null = tt
remove_entry-IsFreeOf key LockedData.other = tt

-- What a release of an output did: nothing without a file, the file was written again without the output's entry, or it was
-- refused and the output is as locked as before.
pub data IsReleased (json : Json) (key : Bytes) (before : LockedStore)
    (r : Answer (Unit {0}) × LockedStore) : Type 0 where
  no_file : before.file ≡ none → r.1 ≡ before → IsReleased json key before r
  removed :
      (text : Bytes)
      → before.file ≡ some text
      → r.0 ≡ Answer.done tt
      → r.1.file ≡ some (json.to_string_pretty (remove_entry key (or_empty (json.from_str text))))
      → IsFreeOf key (remove_entry key (or_empty (json.from_str text)))
      → IsReleased json key before r
  failed : (e : Bytes) → r.0 ≡ Answer.refused e → r.1 ≡ before → IsReleased json key before r

module _ (json : Json) (key : Bytes) (s : LockedStore) where
  pub release_from-IsReleased :
      (o : Option Bytes) → s.file ≡ o → IsReleased json key s (release_from json o key s)
  unfolding release_from read_data after_read write_data write_text
  release_from-IsReleased none q = IsReleased.no_file q refl
  release_from-IsReleased (some text) q = elim (Option-cases s.read_error) [
    | inr (e, bad) ↦ rw bad (IsReleased.failed _ refl refl)
    | inl reads ↦ elim (Option-cases s.write_error) [
      | inl writes ↦
          rw (reads, writes)
            (IsReleased.removed text q refl refl
              (remove_entry-IsFreeOf key (or_empty (json.from_str text))))
      | inr (e, bad) ↦ rw (reads, bad) (IsReleased.failed _ refl refl)
    ]
  ]
