-- ===== src/Lifecycle/Passwords.antt =====
-- The mnemonic is behind the password that `init` or `change_password` set.
use f1r3fly_rgb_lightning_no.Common.{◌≡◌, refl, ◌∙◌, sym, ap, Option, none, some, Bytes}
use f1r3fly_rgb_lightning_no.Error.{ApiError}
use f1r3fly_rgb_lightning_no.Outcome.{Outcome, ◌>>=◌, ◌>>◌, or_err}
use f1r3fly_rgb_lightning_no.Lifecycle.{AppState, check_locked}
use f1r3fly_rgb_lightning_no.Lifecycle.Storage.{
  StorageDir, Crypt, check_password_strength, check_already_initialized, or_panic, save_mnemonic,
  after, check_password_validity, encrypt_and_save_mnemonic, init, change_password,
}

-- What is encrypted is decrypted under the same password, a word list that was read is printed as it
-- reads, and a generated one is a word list.
pub record IsLawful (lib : Crypt) : Type 0 where
  pub decrypt-encrypt : (p m : Bytes) → lib.decrypt p (lib.encrypt p m) ≡ some m
  pub from_str-from_str :
      (t m : Bytes) → lib.mnemonic_from_str t ≡ some m → lib.mnemonic_from_str m ≡ some m
  pub from_str-generate : lib.mnemonic_from_str lib.generate_mnemonic ≡ some lib.generate_mnemonic

after-eq-ok :
    {A B : Type 0} (o : Outcome A) (d : StorageDir) (f : A → Outcome B × StorageDir) (b : B)
    (d' : StorageDir)
    → after o d f ≡ (Outcome.ok b, d')
    → (a : A) × (o ≡ Outcome.ok a) × (f a ≡ (Outcome.ok b, d'))
after-eq-ok (Outcome.ok a) d f b d' e = (a, refl, e)
after-eq-ok (Outcome.err x) d f b d' e = cc
after-eq-ok Outcome.panicked d f b d' e = cc

>>=-eq-ok :
    {A B : Type 0} (o : Outcome A) (f : A → Outcome B) (b : B)
    → (o >>= f) ≡ Outcome.ok b
    → (a : A) × (o ≡ Outcome.ok a) × (f a ≡ Outcome.ok b)
>>=-eq-ok (Outcome.ok a) f b e = (a, refl, e)
>>=-eq-ok (Outcome.err x) f b e = cc
>>=-eq-ok Outcome.panicked f b e = cc

saved :
    (t : Bytes) (w : Option (Bytes × Bytes)) (d d' : StorageDir) (u : Unit {0})
    → save_mnemonic t w d ≡ (Outcome.ok u, d')
    → d'.mnemonic_file ≡ some t
unfolding save_mnemonic
saved t none d d' u e = ap (λ (x : Outcome (Unit {0}) × StorageDir). x.1.mnemonic_file) (sym e)
saved t (some w) d d' u e = cc

ok-injective : (a b : Bytes) → Outcome.ok a ≡ Outcome.ok b → a ≡ b
ok-injective a b e = cc

or_panic-eq-ok : (o : Option Bytes) (m : Bytes) → or_panic o ≡ Outcome.ok m → o ≡ some m
or_panic-eq-ok none m e = cc
or_panic-eq-ok (some x) m e = cc

module _ (lib : Crypt) (lawful : IsLawful lib) where
  stored-valid :
      (p m : Bytes) (d : StorageDir)
      → d.mnemonic_file ≡ some (lib.encrypt p m)
      → lib.mnemonic_from_str m ≡ some m
      → check_password_validity lib p d ≡ Outcome.ok m
  unfolding check_password_validity
  stored-valid p m d file reads = simp (file, lawful.decrypt-encrypt p m, reads)

  valid-reads :
      (p m : Bytes) (d : StorageDir)
      → check_password_validity lib p d ≡ Outcome.ok m
      → lib.mnemonic_from_str m ≡ some m
  unfolding check_password_validity
  valid-reads p m d e =
      let (t, _, e1) = >>=-eq-ok (or_err d.mnemonic_file ApiError.not_initialized) _ m e in
      let (x, _, e2) = >>=-eq-ok (or_err (lib.decrypt p t) ApiError.wrong_password) _ m e1 in
      lawful.from_str-from_str x m (or_panic-eq-ok (lib.mnemonic_from_str x) m e2)

  -- A change of the password keeps the mnemonic: if `change_password` succeeds, the old password gave a
  -- mnemonic before it, and the new password gives the same one after it.
  pub change_password_keeps :
      (old new : Bytes) (s : AppState) (d d' : StorageDir)
      → change_password lib old new s d ≡ (Outcome.ok tt, d')
      → (m : Bytes) × (check_password_validity lib old d ≡ Outcome.ok m)
        × (check_password_validity lib new d' ≡ Outcome.ok m)
  unfolding change_password encrypt_and_save_mnemonic
  change_password_keeps old new s d d' e =
      let (m, checks, writes) = after-eq-ok _ d _ tt d' e in
      let (_, _, c1) = >>=-eq-ok (check_locked s) _ m checks in
      let (_, _, c2) = >>=-eq-ok (check_password_strength new) _ m c1 in
      let file = saved (lib.encrypt new m) d.write_error d d' tt writes in
      (m, c2, stored-valid new m d' file (valid-reads old m d c2))

  -- If `init` succeeds, the password gives the mnemonic that it returned; and every later `init` on the directory that it
  -- leaves, of a node that is locked and with a password that is strong enough, is refused as already initialized and
  -- leaves the directory as it is.
  pub init_valid :
      (p m q : Bytes) (s s' : AppState) (d d' : StorageDir)
      → init lib p s d ≡ (Outcome.ok m, d')
      → check_locked s' ≡ Outcome.ok tt
      → check_password_strength q ≡ Outcome.ok tt
      → (check_password_validity lib p d' ≡ Outcome.ok m)
        × (init lib q s' d' ≡ (Outcome.err ApiError.already_initialized, d'))
  unfolding init encrypt_and_save_mnemonic check_already_initialized
  init_valid p m q s s' d d' e locked strong =
      let w = encrypt_and_save_mnemonic lib p lib.generate_mnemonic d in
      let answer : Unit {0} → Outcome Bytes × StorageDir =
        λ _. (Outcome.ok lib.generate_mnemonic, w.1) in
      let (_, _, e1) =
        after-eq-ok (check_locked s >> (check_password_strength p >> check_already_initialized d)) d
          (λ _. after w.0 w.1 answer) m d' e in
      let (u, written, e2) = after-eq-ok w.0 w.1 answer m d' e1 in
      let same_dir : w.1 ≡ d' = ap (λ (x : Outcome Bytes × StorageDir). x.1) e2 in
      let same : lib.generate_mnemonic ≡ m =
        ok-injective lib.generate_mnemonic m (ap (λ (x : Outcome Bytes × StorageDir). x.0) e2) in
      let file : d'.mnemonic_file ≡ some (lib.encrypt p lib.generate_mnemonic) =
        saved (lib.encrypt p lib.generate_mnemonic) d.write_error d d' u
          (ap (λ r. (r, w.1)) written ∙ ap (λ x. (Outcome.ok u, x)) same_dir) in
      (
        stored-valid p lib.generate_mnemonic d' file lawful.from_str-generate ∙ ap Outcome.ok same,
        simp (file, locked, strong),
      )
