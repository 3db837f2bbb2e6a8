-- ===== src/Backup.antt =====
-- The backup of the data directory (src/backup.rs): its archive, and the encryption of the archive in
-- chunks. A read of a file fills the buffer as far as the file goes.
pub mod Chunks
pub mod Archive
pub mod Restored
pub mod Truncated
use f1r3fly_rgb_lightning_no.Common.{
  ℕ, zero, suc, ◌+◌, ◌-◌, Bool, true, false, ◌||◌, not, Option, none, some, is_some, List, [], ◌∷◌,
  ◌++◌, Bytes, Map, lookup, insert, str, split, length, take, drop, bytes_eq, is_empty, ◌==◌, ltb,
  if◌then◌else◌,
}
use f1r3fly_rgb_lightning_no.Decimal.{show_nat, parse_u64}
use f1r3fly_rgb_lightning_no.Error.{ApiError}
use f1r3fly_rgb_lightning_no.Outcome.{Outcome, ok, err, panicked, ◌>>=◌, ◌>>◌, err_if, or_err}

abbrev pub backup_buffer_len_encrypt : ℕ
backup_buffer_len_encrypt = 239

abbrev pub backup_buffer_len_decrypt : ℕ
backup_buffer_len_decrypt = backup_buffer_len_encrypt + 16

abbrev pub backup_key_length : ℕ
backup_key_length = 32

abbrev pub backup_nonce_length : ℕ
backup_nonce_length = 19

abbrev pub backup_version : ℕ
backup_version = 1

-- A file or a directory of an archive, or of a walk through a directory: its path, and the content of a
-- file.
pub record Entry : Type 0 where
  pub name : Bytes
  pub content : Option Bytes

-- What scrypt gives: an error with the salt or with the hash, or a hash, if there is one.
pub data PasswordHash : Type 0 where
  bad_salt : Bytes → PasswordHash
  failed : Bytes → PasswordHash
  hashed : Option Bytes → PasswordHash

-- The libraries: scrypt, the stream encryption with XChaCha20Poly1305, whose chunk is sealed for a key, a nonce,
-- its place and whether it is the last, and the zip format.
pub record BackupLibrary : Type 0 where
  pub hash_password : Bytes → Bytes → PasswordHash
  pub seal : Bytes → Bytes → ℕ → Bool → Bytes → Option Bytes
  pub unseal : Bytes → Bytes → ℕ → Bool → Bytes → Option Bytes
  pub zip : List Entry → Bytes
  pub unzip : Bytes → Option (List Entry)
  -- the errors of `ZipArchive::new`, of a missing file, and of the parsing of the version
  pub zip_error : Bytes → Bytes
  pub missing_file : Bytes
  pub version_error : Bytes → Bytes
  -- `enclosed_name`: the path stays in the directory
  pub is_enclosed : Bytes → Bool

pub record CypherSecrets : Type 0 where
  pub key : Bytes
  pub nonce : Bytes

-- `xs[..n]`, which panics if there is less.
unfoldable pub slice : ℕ → Bytes → Outcome Bytes
slice n xs = if ltb (length xs) n then panicked else ok (take n xs)

unfoldable pub hash_output : PasswordHash → Outcome Bytes
hash_output (PasswordHash.bad_salt e) =
    err (ApiError.unexpected (str "Failed to create salt: " ++ e))
hash_output (PasswordHash.failed e) =
    err (ApiError.unexpected (str "Failed to hash password: " ++ e))
hash_output (PasswordHash.hashed none) = err (ApiError.unexpected (str "Failed to hash password"))
hash_output (PasswordHash.hashed (some hash)) = ok hash

-- The chunk that is written before the rest of the file.
abbrev pub before : Outcome Bytes → Option (Outcome Bytes) → Option (Outcome Bytes)
before (ok c) none = none
before (ok c) (some (ok rest)) = some (ok (c ++ rest))
before (ok c) (some (err e)) = some (err e)
before (ok c) (some panicked) = some panicked
before (err e) rest = some (err e)
before panicked rest = some panicked

module _ (lib : BackupLibrary) where
  -- `_get_cypher_secrets`
  unfoldable pub get_cypher_secrets : Bytes → Bytes → Bytes → Outcome CypherSecrets
  unfolding hash_output slice
  get_cypher_secrets password salt_str nonce_str = do
    hash ← hash_output (lib.hash_password password salt_str)
    key ← slice backup_key_length hash
    nonce ← slice backup_nonce_length nonce_str
    ok (record { key = key; nonce = nonce })

  abbrev pub sealed : Option Bytes → Bytes → Outcome Bytes
  sealed none which =
      err (ApiError.unexpected (str "Failed to encrypt " ++ (which ++ str " chunk: aead::Error")))
  sealed (some c) which = ok c

  -- The loop of `_encrypt_file`, from the place of the next chunk and the rest of the file. The fuel bounds the chunks.
  unfoldable pub encrypt_loop : CypherSecrets → ℕ → ℕ → Bytes → Option (Outcome Bytes)
  encrypt_loop secrets zero i source = none
  encrypt_loop secrets (suc fuel) i source =
      let buffer = take backup_buffer_len_encrypt source in
      let more =
        before (sealed (lib.seal secrets.key secrets.nonce i false buffer) (str "next"))
          (encrypt_loop secrets fuel (i + 1) (drop backup_buffer_len_encrypt source)) in
      if length buffer == backup_buffer_len_encrypt
      then more
      else some (sealed (lib.seal secrets.key secrets.nonce i true buffer) (str "last"))

  -- `_encrypt_file`: one chunk more than the length of the source is enough.
  unfoldable pub encrypt_file : Bytes → Bytes → Bytes → Bytes → Option (Outcome Bytes)
  unfolding get_cypher_secrets encrypt_loop
  encrypt_file password salt_str nonce_str source =
      elim (get_cypher_secrets password salt_str nonce_str) [
        | ok secrets ↦ encrypt_loop secrets (length source + 1) 0 source
        | err e ↦ some (err e)
        | panicked ↦ some panicked
      ]

  abbrev pub unsealed : Option Bytes → Outcome Bytes
  unsealed none = err ApiError.wrong_password
  unsealed (some c) = ok c

  -- The loop of `_decrypt_file`.
  unfoldable pub decrypt_loop : CypherSecrets → ℕ → ℕ → Bytes → Option (Outcome Bytes)
  decrypt_loop secrets zero i source = none
  decrypt_loop secrets (suc fuel) i source =
      let buffer = take backup_buffer_len_decrypt source in
      let more =
        before (unsealed (lib.unseal secrets.key secrets.nonce i false buffer))
          (decrypt_loop secrets fuel (i + 1) (drop backup_buffer_len_decrypt source)) in
      if length buffer == backup_buffer_len_decrypt
      then more
      else if length buffer == 0
      then some (ok [])
      else some (unsealed (lib.unseal secrets.key secrets.nonce i true buffer))

  unfoldable pub decrypt_file : Bytes → Bytes → Bytes → Bytes → Option (Outcome Bytes)
  unfolding get_cypher_secrets decrypt_loop
  decrypt_file password salt_str nonce_str source =
      elim (get_cypher_secrets password salt_str nonce_str) [
        | ok secrets ↦ decrypt_loop secrets (length source + 1) 0 source
        | err e ↦ some (err e)
        | panicked ↦ some panicked
      ]
