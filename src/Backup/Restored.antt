-- ===== src/Backup/Restored.antt =====
-- A backup is restored as the files that went into it.
use f1r3fly_rgb_lightning_no.Common.{
  ◌≡◌, true, false, Option, none, some, List, [], ◌∷◌, ◌++◌, Bytes, Map, insert, str, if◌then◌else◌,
}
use f1r3fly_rgb_lightning_no.Decimal.{show_nat}
use f1r3fly_rgb_lightning_no.Backup.{Entry, BackupLibrary}
use f1r3fly_rgb_lightning_no.Backup.Archive.{is_log, ends_with, unzip}

-- What the code relies on of the zip format: an archive is read as its entries, and the files of a backup
-- stay in their directory.
pub record IsZip (lib : BackupLibrary) : Type 0 where
  pub reads : (es : List Entry) → lib.unzip (lib.zip es) ≡ some es
  pub encloses : (part : Bytes) → lib.is_enclosed (str "backup." ++ part) ≡ true

-- An entry of a walk has a path that stays in the directory and does not end with a slash.
pub record IsPlain (lib : BackupLibrary) (e : Entry) : Type 0 where
  pub enclosed : lib.is_enclosed e.name ≡ true
  pub unslashed : ends_with (str "/") e.name ≡ false

-- The target with every file of a walk that is not called `log`.
abbrev pub restored_entry : Option Bytes → Bytes → Map Bytes → Map Bytes
restored_entry none name target = target
restored_entry (some content) name target =
    if is_log name then target else insert name content target

abbrev pub restored : List Entry → Map Bytes → Map Bytes
restored [] target = target
restored (e ∷ es) target = restored es (restored_entry e.content e.name target)

module _ (lib : BackupLibrary) where
  -- The files of an unpacked backup.
  abbrev backup_files : Bytes → Bytes → Bytes → Map Bytes
  backup_files c nonce salt =
      (str "backup.enc", c)
      ∷ (str "backup.nonce", nonce)
      ∷ (str "backup.salt", salt)
      ∷ (str "backup.version", show_nat 1)
      ∷ []
