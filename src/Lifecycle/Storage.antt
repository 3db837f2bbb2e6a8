-- ===== src/Lifecycle/Storage.antt =====
-- The node's mnemonic and its password (src/utils.rs), and the handlers of a locked node that use
-- them: `init`, `change_password`, `backup` and `restore` (src/routes.rs).
use f1r3fly_rgb_lightning_no.Common.{ℕ, Option, none, some, is_some, Bytes, str, ◌++◌, length, ltb}
use f1r3fly_rgb_lightning_no.Decimal.{show_nat}
use f1r3fly_rgb_lightning_no.Error.{ApiError}
use f1r3fly_rgb_lightning_no.Outcome.{Outcome, ◌>>=◌, ◌>>◌, err_if, or_err}
use f1r3fly_rgb_lightning_no.Lifecycle.{AppState, check_locked}

-- The storage directory, as far as these handlers use it: the encrypted mnemonic, and the path and the
-- text of the error by which a write fails, if it does.
pub record StorageDir : Type 0 where
  pub mnemonic_file : Option Bytes
  pub write_error : Option (Bytes × Bytes)

-- The encryption under a password, the word list, and the backup of the directory.
pub record Crypt : Type 0 where
  pub encrypt : Bytes → Bytes → Bytes
  pub decrypt : Bytes → Bytes → Option Bytes
  pub mnemonic_from_str : Bytes → Option Bytes
  pub generate_mnemonic : Bytes
  pub do_backup : Bytes → Bytes → StorageDir → Option ApiError
  pub restore_backup : Bytes → Bytes → StorageDir → Outcome StorageDir

abbrev pub password_min_length : ℕ
password_min_length = 8

unfoldable pub check_password_strength : Bytes → Outcome (Unit {0})
check_password_strength password = err_if (ltb (length password) password_min_length) (
    ApiError.invalid_password
      (str "must have at least " ++ (show_nat password_min_length ++ str " chars")))

unfoldable pub check_already_initialized : StorageDir → Outcome (Unit {0})
check_already_initialized d = err_if (is_some d.mnemonic_file) ApiError.already_initialized

-- `.expect("valid mnemonic")`
abbrev pub or_panic : Option Bytes → Outcome Bytes
or_panic none = Outcome.panicked
or_panic (some m) = Outcome.ok m

-- The outcome of a write of the mnemonic.
unfoldable pub save_mnemonic :
    Bytes → Option (Bytes × Bytes) → StorageDir → Outcome (Unit {0}) × StorageDir
save_mnemonic encrypted none d = (Outcome.ok tt, record d { mnemonic_file = some encrypted })
save_mnemonic encrypted (some (path, e)) d = (Outcome.err (ApiError.failed_keys_creation path e), d)

-- A result with the directory that the call leaves.
abbrev pub after :
    {A B : Type 0} → Outcome A → StorageDir → (A → Outcome B × StorageDir) → Outcome B × StorageDir
after (Outcome.ok a) d f = f a
after (Outcome.err e) d f = (Outcome.err e, d)
after Outcome.panicked d f = (Outcome.panicked, d)

module _ (lib : Crypt) where
  unfoldable pub check_password_validity : Bytes → StorageDir → Outcome Bytes
  check_password_validity password d = do
    encrypted ← or_err d.mnemonic_file ApiError.not_initialized
    mnemonic_str ← or_err (lib.decrypt password encrypted) ApiError.wrong_password
    or_panic (lib.mnemonic_from_str mnemonic_str)

  unfoldable pub encrypt_and_save_mnemonic :
      Bytes → Bytes → StorageDir → Outcome (Unit {0}) × StorageDir
  unfolding save_mnemonic
  encrypt_and_save_mnemonic password mnemonic d =
      save_mnemonic (lib.encrypt password mnemonic) d.write_error d

  unfoldable pub init : Bytes → AppState → StorageDir → Outcome Bytes × StorageDir
  unfolding check_password_strength check_already_initialized encrypt_and_save_mnemonic
  init password s d =
      after (do check_locked s; check_password_strength password; check_already_initialized d) d
        (λ _.
          let (r, d') = encrypt_and_save_mnemonic password lib.generate_mnemonic d in
          after r d' (λ _. (Outcome.ok lib.generate_mnemonic, d')))

  unfoldable pub change_password :
      Bytes → Bytes → AppState → StorageDir → Outcome (Unit {0}) × StorageDir
  unfolding check_password_strength check_password_validity encrypt_and_save_mnemonic
  change_password old_password new_password s d =
      after
        (do
          check_locked s
          check_password_strength new_password
          check_password_validity old_password d)
        d (λ mnemonic. encrypt_and_save_mnemonic new_password mnemonic d)

  abbrev pub no_error : Option ApiError → Outcome (Unit {0})
  no_error none = Outcome.ok tt
  no_error (some e) = Outcome.err e

  unfoldable pub backup : Bytes → Bytes → AppState → StorageDir → Outcome (Unit {0})
  unfolding check_password_validity
  backup password backup_path s d = do
    check_locked s
    _ ← check_password_validity password d
    no_error (lib.do_backup backup_path password d)

  unfoldable pub restore : Bytes → Bytes → AppState → StorageDir → Outcome (Unit {0}) × StorageDir
  unfolding check_already_initialized check_password_validity
  restore password backup_path s d =
      after
        (do check_locked s; check_already_initialized d; lib.restore_backup backup_path password d)
        d (λ d'. after (check_password_validity password d') d' (λ _. (Outcome.ok tt, d')))
