-- ===== src/Backup/Archive.antt =====
-- The archive of a directory (`_zip_dir`, `_unzip`), and the backup and its restoration (`do_backup`,
-- `restore_backup` of src/backup.rs). A directory is the entries of a walk through it, or, where files are
-- written, the map of its files.
use f1r3fly_rgb_lightning_no.Common.{
  ℕ, Bool, true, false, ◌||◌, not, Option, none, some, List, [], ◌∷◌, ◌++◌, Bytes, Map, lookup,
  insert, str, split, bytes_eq, is_empty, ltb, ◌==◌, unwrap_or, if◌then◌else◌,
}
use f1r3fly_rgb_lightning_no.Decimal.{show_nat, parse_u64}
use f1r3fly_rgb_lightning_no.Error.{ApiError}
use f1r3fly_rgb_lightning_no.Outcome.{Outcome, ok, err, panicked, ◌>>=◌, ◌>>◌, err_if, or_err}
use f1r3fly_rgb_lightning_no.Backup.{
  Entry, BackupLibrary, backup_version, get_cypher_secrets, encrypt_file, decrypt_file,
}

-- `path.ends_with("log")`: the last component.
unfoldable pub last_part : List Bytes → Bytes
last_part [] = []
last_part (part ∷ []) = part
last_part (part ∷ next ∷ rest) = last_part (next ∷ rest)

unfoldable pub is_log : Bytes → Bool
unfolding last_part
is_log name = bytes_eq (last_part (split b'/' name)) (str "log")

-- `str::ends_with`, the suffix first.
unfoldable pub ends_with : Bytes → Bytes → Bool
ends_with suffix [] = is_empty suffix
ends_with suffix (c ∷ cs) = bytes_eq suffix (c ∷ cs) || ends_with suffix cs

-- What `_zip_dir` makes of an entry of the walk. `add_directory` ends the name with a slash.
unfoldable pub archive_entry : Option Bytes → Bytes → List Entry → List Entry
unfolding is_log ends_with
archive_entry (some content) name rest =
    if is_log name then rest else record { name = name; content = some content } ∷ rest
archive_entry none name rest =
    if is_empty name || ends_with (str "logs") name
    then rest
    else record { name = name ++ str "/"; content = none } ∷ rest

-- The loop of `_zip_dir`.
unfoldable pub archived : List Entry → List Entry
unfolding archive_entry
archived [] = []
archived (e ∷ es) = archive_entry e.content e.name (archived es)

module _ (lib : BackupLibrary) where
  unfoldable pub zip_dir : List Entry → Bytes
  unfolding archived
  zip_dir entries = lib.zip (archived entries)

  -- The loop of `_unzip`: the files that are written.
  unfoldable pub extract : List Entry → Map Bytes → Map Bytes
  unfolding ends_with
  extract [] target = target
  extract (e ∷ es) target = extract es (
      if not (lib.is_enclosed e.name) || ends_with (str "/") e.name
      then target
      else insert e.name (unwrap_or e.content []) target)

  unfoldable pub unzip : Bytes → Map Bytes → Outcome (Map Bytes)
  unfolding extract
  unzip archive target = elim (lib.unzip archive) [
    | none ↦ err (ApiError.unexpected (str "Failed to read zip archive: " ++ lib.zip_error archive))
    | some entries ↦ ok (extract entries target)
  ]

  -- The walk through the temporary directory, whose cleartext archive has been removed.
  unfoldable pub packed : Bytes → Bytes → Bytes → List Entry
  packed encrypted nonce salt =
      record { name = []; content = none }
      ∷ record { name = str "backup.enc"; content = some encrypted }
      ∷ record { name = str "backup.nonce"; content = some nonce }
      ∷ record { name = str "backup.salt"; content = some salt }
      ∷ record { name = str "backup.version"; content = some (show_nat backup_version) }
      ∷ []

  -- A result is gone on with, if there is one.
  abbrev pub continue : {A B : Type 0} → Option (Outcome A) → (A → Outcome B) → Option (Outcome B)
  continue none f = none
  continue (some (ok a)) f = some (f a)
  continue (some (err e)) f = some (err e)
  continue (some panicked) f = some panicked

  -- `do_backup`, with whether the backup file exists and has a parent, the walk through the wallet's directory, and the random
  -- salt and nonce: the content of the backup file.
  unfoldable pub do_backup :
      Bool → Bool → List Entry → Bytes → Bytes → Bytes → Option (Outcome Bytes)
  unfolding zip_dir packed
  do_backup exists has_parent wallet password salt nonce =
      if exists
      then some (err ApiError.invalid_backup_path)
      else if has_parent
      then continue (encrypt_file lib password salt nonce (zip_dir wallet))
          (λ encrypted. ok (zip_dir (packed encrypted nonce salt)))
      else some (err (ApiError.unexpected (str "Failed to get parent path")))

  -- `parse::<u8>()`
  unfoldable pub parse_u8 : Bytes → Option ℕ
  parse_u8 text = elim (parse_u64 text) [
    | none ↦ none
    | some n ↦ if ltb n 256 then some n else none
  ]

  -- `read_to_string(…)?`
  abbrev pub read_file : Bytes → Map Bytes → Outcome Bytes
  read_file name files = or_err (lookup name files) (ApiError.io lib.missing_file)

  -- The nonce and the salt of a backup of this version.
  unfoldable pub read_backup : Map Bytes → Outcome (Bytes × Bytes)
  unfolding parse_u8
  read_backup files = do
    nonce ← read_file (str "backup.nonce") files
    salt ← read_file (str "backup.salt") files
    text ← read_file (str "backup.version") files
    version ←
        or_err (parse_u8 text)
          (ApiError.unexpected (str "Failed to get backup version: " ++ lib.version_error text))
    err_if (not (version == backup_version))
        (ApiError.unsupported_backup_version (show_nat version))
    ok (nonce, salt)

  -- `_decrypt_file` of the encrypted archive, which may be missing.
  unfoldable pub decrypt_archive : Bytes → Bytes → Bytes → Map Bytes → Option (Outcome Bytes)
  decrypt_archive password salt nonce files = elim (lookup (str "backup.enc") files) [
    | none ↦
        some (do _ ← get_cypher_secrets lib password salt nonce; err (ApiError.io lib.missing_file))
    | some encrypted ↦ decrypt_file lib password salt nonce encrypted
  ]

  abbrev pub restore_from :
      Bytes → Map Bytes → Map Bytes → Outcome (Bytes × Bytes) → Option (Outcome (Map Bytes))
  restore_from password files target (ok (nonce, salt)) =
      continue (decrypt_archive password salt nonce files) (λ archive. unzip archive target)
  restore_from password files target (err e) = some (err e)
  restore_from password files target panicked = some panicked

  -- `restore_backup`, with whether the backup file has a parent, and the files of the target directory.
  unfoldable pub restore_backup : Bool → Bytes → Bytes → Map Bytes → Option (Outcome (Map Bytes))
  unfolding unzip read_backup decrypt_archive
  restore_backup true backup password target = elim (unzip backup []) [
    | ok files ↦ restore_from password files target (read_backup files)
    | err e ↦ some (err e)
    | panicked ↦ some panicked
  ]
  restore_backup false backup password target =
      some (err (ApiError.unexpected (str "Failed to get parent path")))
