-- ===== src/Tests/Backups.antt =====
-- A backup of a concrete directory, with a cipher that adds an empty tag and a simple archive format.
use f1r3fly_rgb_lightning_no.Common.{
  ℕ, zero, suc, ◌+◌, ◌-◌, ◌*◌, ◌≡◌, refl, sym, ap, true, Option, none, some, List, [], ◌∷◌, ◌++◌,
  Bytes, str, length, length-append, take, drop, take-append, insert, bytes_eq, split, arith,
}
use mathlib.Core.Option.{some-injective}
use f1r3fly_rgb_lightning_no.Outcome.{ok}
use f1r3fly_rgb_lightning_no.Backup.{
  Entry, PasswordHash, BackupLibrary, CypherSecrets, get_cypher_secrets, encrypt_file, decrypt_file,
}
use f1r3fly_rgb_lightning_no.Backup.Chunks.{IsAead}
use f1r3fly_rgb_lightning_no.Backup.Archive.{is_log}
use f1r3fly_rgb_lightning_no.Backup.Restored.{restored}
use f1r3fly_rgb_lightning_no.Backup.Truncated.{decrypt_file-cut}

-- A text with its end marked by 0.
marked : Bytes → Bytes
marked [] = 0 ∷ []
marked (x ∷ xs) = suc x ∷ marked xs

unmarked : Bytes → Bytes × Bytes
unmarked [] = ([], [])
unmarked (zero ∷ rest) = ([], rest)
unmarked (suc x ∷ rest) = let (xs, left) = unmarked rest in (x ∷ xs, left)

write_content : Option Bytes → Bytes → Bytes
unfolding marked
write_content none rest = 0 ∷ rest
write_content (some c) rest = 1 ∷ (marked c ++ rest)

write_entries : List Entry → Bytes
unfolding marked write_content
write_entries [] = []
write_entries (e ∷ es) = marked e.name ++ write_content e.content (write_entries es)

-- The content at the start of a text, and what follows it.
read_content : Bytes → Option Bytes × Bytes
unfolding unmarked
read_content [] = (none, [])
read_content (zero ∷ rest) = (none, rest)
read_content (suc _ ∷ rest) = let (c, left) = unmarked rest in (some c, left)

add_entry : Bytes → Option Bytes → Option (List Entry) → Option (List Entry)
add_entry name content none = none
add_entry name content (some es) = some (record { name = name; content = content } ∷ es)

read_filled : (Bytes → Option (List Entry)) → Bytes → Option Bytes × Bytes → Option (List Entry)
unfolding add_entry
read_filled k name (content, left) = add_entry name content (k left)

read_named : (Bytes → Option (List Entry)) → Bytes × Bytes → Option (List Entry)
unfolding read_filled read_content
read_named k (name, rest) = read_filled k name (read_content rest)

read_entries : ℕ → Bytes → Option (List Entry)
unfolding unmarked read_named
read_entries zero text = none
read_entries (suc fuel) [] = some []
read_entries (suc fuel) (b ∷ text) = read_named (read_entries fuel) (unmarked (b ∷ text))

abbrev tag : Bytes
tag = 0 ∷ 0 ∷ 0 ∷ 0 ∷ 0 ∷ 0 ∷ 0 ∷ 0 ∷ 0 ∷ 0 ∷ 0 ∷ 0 ∷ 0 ∷ 0 ∷ 0 ∷ 0 ∷ []

abbrev key : Bytes
key = tag ++ tag

abbrev tagging : BackupLibrary
tagging = record {
  hash_password = λ password salt. PasswordHash.hashed (some key);
  seal = λ k n i last m. some (m ++ tag);
  unseal = λ k n i last c. some (take (length c - 16) c);
  zip = write_entries;
  unzip = λ text. read_entries (length text + 1) text;
  zip_error = λ text. str "invalid Zip archive";
  missing_file = str "No such file or directory";
  version_error = λ text. str "invalid digit found in string";
  is_enclosed = λ name. true;
}

tagging-opens : (m : Bytes) → take (length (m ++ tag) - 16) (m ++ tag) ≡ m
tagging-opens m = take-append (length (m ++ tag) - 16) m tag (omega (arith, length-append m tag))

tagging-IsAead : IsAead tagging
tagging-IsAead = record {
  opens = λ k n i last m c e. rw (sym (some-injective (m ++ tag) c e)) (ap some (tagging-opens m));
  tagged = λ k n i last m c e. rw (sym (some-injective (m ++ tag) c e)) (length-append m tag);
  seals = λ k n i last m h. (m ++ tag, refl);
}

abbrev wallet : List Entry
wallet =
    record { name = []; content = none }
    ∷ record { name = str "data"; content = some (1 ∷ 2 ∷ 3 ∷ []) }
    ∷ record { name = str "ldk/log"; content = some (4 ∷ []) }
    ∷ record { name = str "ldk/logs"; content = none }
    ∷ record { name = str "ldk/logs/logs.txt"; content = some (5 ∷ []) }
    ∷ []

abbrev nonce : Bytes
nonce = take 19 key

abbrev secrets : CypherSecrets
secrets = record { key = key; nonce = nonce }

is_derived : get_cypher_secrets tagging (str "pw") (str "salt") nonce ≡ ok secrets
unfolding get_cypher_secrets take
is_derived = refl

-- The log directory is left out, and the log file in it is not.
restored_test :
    restored wallet [] ≡ (str "data", 1 ∷ 2 ∷ 3 ∷ []) ∷ (str "ldk/logs/logs.txt", 5 ∷ []) ∷ []
unfolding is_log str bytes_eq split insert
restored_test = refl

zeros : ℕ → Bytes
zeros zero = []
zeros (suc n) = 0 ∷ zeros n

-- An archive of one full chunk and a byte.
abbrev archive : Bytes
archive = zeros 240

abbrev sealed_archive : Bytes
sealed_archive = (zeros 239 ++ tag) ++ (zeros 1 ++ tag)

is_sealed : encrypt_file tagging (str "pw") (str "salt") nonce archive ≡ some (ok sealed_archive)
unfolding encrypt_file take drop zeros
is_sealed = refl

archive_size : length archive ≡ 240
unfolding zeros
archive_size = refl

decrypt_file-cut_example :
    decrypt_file tagging (str "pw") (str "salt") nonce (take (1 * (239 + 16)) sealed_archive)
    ≡ some (ok (take (1 * 239) archive))
decrypt_file-cut_example =
    decrypt_file-cut tagging (str "pw") (str "salt") nonce archive sealed_archive secrets 1
      tagging-IsAead is_derived is_sealed (omega (arith, archive_size))
