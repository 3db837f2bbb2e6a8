-- ===== src/Tests/Service.antt =====
-- The life of the node, its passwords, and its tokens.
use f1r3fly_rgb_lightning_no.Common.{
  ◌+◌, ◌≡◌, ◌≢◌, ◌↔◌, refl, true, false, ◌||◌, Option, none, some, List, [], ◌∷◌, Bytes, str,
  contains, arith,
}
use f1r3fly_rgb_lightning_no.Error.{ApiError}
use f1r3fly_rgb_lightning_no.Outcome.{Outcome, ok}
use f1r3fly_rgb_lightning_no.Lifecycle.{
  LdkBackgroundServices, AppState, check_locked, begin_unlock, enter_unlock,
}
use f1r3fly_rgb_lightning_no.Lifecycle.Races.{
  Unlocks, BothUnlock, AdmitsUnlock, unlocks_overlap, late_lock-AdmitsUnlock,
}
use f1r3fly_rgb_lightning_no.Lifecycle.Storage.{
  StorageDir, Crypt, check_password_strength, check_password_validity, init, change_password,
}
use f1r3fly_rgb_lightning_no.Lifecycle.Passwords.{IsLawful, change_password_keeps, init_valid}
use f1r3fly_rgb_lightning_no.Auth.{AppResult, Biscuit, Decision, unauthorized, decide_token}
use f1r3fly_rgb_lightning_no.Auth.Decisions.{MayCall, decide_token_iff}
use f1r3fly_rgb_lightning_no.Auth.Tokens.{TokenState, revoke_token, load_revoked_tokens}
use f1r3fly_rgb_lightning_no.Auth.Files.{IsTokenId}
use f1r3fly_rgb_lightning_no.Auth.Revocations.{revoke_token_persists, revoke_token_refuses}
use f1r3fly_rgb_lightning_no.Tests.Data.{asset, empty_state}

-- A node that has just started, and one whose state is changing.
abbrev started : AppState
started = record {
  changing_state = false;
  unlocked_app_state = none;
  ldk_background_services = none;
  cancelled = false;
}

abbrev unlocking : AppState
unlocking = record started { changing_state = true }

abbrev services : LdkBackgroundServices
services = record { stop_processing = false; bp_exit_closed = false; background_processor = true }

abbrev other_services : LdkBackgroundServices
other_services = record services { background_processor = false }

started_locked : check_locked started ≡ ok tt
unfolding check_locked
started_locked = refl

unlocks_overlap_example : BothUnlock started empty_state empty_state services other_services
unlocks_overlap_example =
    unlocks_overlap started empty_state empty_state services other_services started_locked

unlocks : Unlocks started unlocking
unfolding begin_unlock enter_unlock
unlocks = record { begins = refl; enters = refl }

late_lock-AdmitsUnlock_example : AdmitsUnlock unlocking
late_lock-AdmitsUnlock_example = late_lock-AdmitsUnlock started unlocking unlocks

-- A password is put before the text that it protects.
abbrev protect : Bytes → Bytes → Bytes
protect [] m = 0 ∷ m
protect (c ∷ cs) m = (c + 1) ∷ protect cs m

abbrev reveal : Bytes → Bytes → Option Bytes
reveal [] [] = none
reveal [] (b ∷ bs) = some bs
reveal (c ∷ cs) [] = none
reveal (c ∷ cs) (b ∷ bs) = reveal cs bs

reveal-protect : (p m : Bytes) → reveal p (protect p m) ≡ some m
reveal-protect [] m = refl
reveal-protect (c ∷ cs) m = reveal-protect cs m

abbrev crypt : Crypt
crypt = record {
  encrypt = protect;
  decrypt = reveal;
  mnemonic_from_str = λ t. some t;
  generate_mnemonic = asset;
  do_backup = λ p w d. none;
  restore_backup = λ p w d. Outcome.ok d;
}

crypt-IsLawful : IsLawful crypt
crypt-IsLawful = record {
  decrypt-encrypt = reveal-protect;
  from_str-from_str = λ t m e. refl;
  from_str-generate = refl;
}

abbrev first_password : Bytes
first_password = 1 ∷ 2 ∷ 3 ∷ 4 ∷ 5 ∷ 6 ∷ 7 ∷ 8 ∷ []

abbrev second_password : Bytes
second_password = 8 ∷ 7 ∷ 6 ∷ 5 ∷ 4 ∷ 3 ∷ 2 ∷ 1 ∷ []

abbrev empty_dir : StorageDir
empty_dir = record { mnemonic_file = none; write_error = none }

abbrev first_dir : StorageDir
first_dir = record { mnemonic_file = some (protect first_password asset); write_error = none }

abbrev second_dir : StorageDir
second_dir = record { mnemonic_file = some (protect second_password asset); write_error = none }

initialized : init crypt first_password started empty_dir ≡ (Outcome.ok asset, first_dir)
unfolding init check_locked
initialized = refl

is_strong : check_password_strength second_password ≡ Outcome.ok tt
unfolding check_password_strength
is_strong = refl

init_valid_example :
    (check_password_validity crypt first_password first_dir ≡ Outcome.ok asset)
    × (init crypt second_password started first_dir
        ≡ (Outcome.err ApiError.already_initialized, first_dir))
init_valid_example =
    init_valid crypt crypt-IsLawful first_password asset second_password started started empty_dir
      first_dir initialized started_locked is_strong

changed :
    change_password crypt first_password second_password started first_dir
    ≡ (Outcome.ok tt, second_dir)
unfolding change_password check_locked
changed = refl

change_password_keeps_example :
    (m : Bytes) × (check_password_validity crypt first_password first_dir ≡ Outcome.ok m)
    × (check_password_validity crypt second_password second_dir ≡ Outcome.ok m)
change_password_keeps_example =
    change_password_keeps crypt crypt-IsLawful first_password second_password started first_dir
      second_dir changed

abbrev token : Biscuit
token = record {
  revocation_identifiers = asset ∷ [];
  allows_any = true;
  allows_role = λ _. true;
  allows_operation = λ _. true;
}

decide_token_iff_example :
    (decide_token [] (str "/init") token ≡ Decision.next) ↔ MayCall [] (str "/init") token
decide_token_iff_example = decide_token_iff [] (str "/init") token

abbrev token_state : TokenState
token_state = record { revoked_tokens = []; revoked_tokens_file = none; write_error = none }

asset-IsTokenId : IsTokenId asset
asset-IsTokenId = (ground arith, λ e. cc)

revoke_token_persists_example :
    (loaded : List Bytes) × (load_revoked_tokens
        (revoke_token token token_state).1.revoked_tokens_file
      ≡ AppResult.ok loaded)
    × ((a : Bytes) → contains loaded a ≡ (contains (asset ∷ []) a || contains [] a))
revoke_token_persists_example =
    revoke_token_persists token token_state (asset-IsTokenId, tt) tt refl

has_id : token.revocation_identifiers ≢ []
has_id e = cc

revoke_token_refuses_example :
    decide_token (revoke_token token token_state).1.revoked_tokens (str "/init") token
    ≡ unauthorized
revoke_token_refuses_example = revoke_token_refuses token token_state (str "/init") has_id
