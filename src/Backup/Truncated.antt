-- ===== src/Backup/Truncated.antt =====
-- An encrypted archive that is cut between two chunks: the cut is not noticed.
use mathlib.Core.Option.{some-injective}
use f1r3fly_rgb_lightning_no.Common.{
  ℕ, zero, suc, ◌+◌, ◌*◌, ◌<◌, ◌≤◌, ◌≡◌, refl, sym, ap, ◌∙◌, inl, inr, true, some, [], ◌∷◌, ◌++◌,
  Bytes, length, length-append, take, drop, take-append-drop, length-drop, length-take, take_all,
  ◌==◌, ==_iff, Bool-cases, arith,
}
use f1r3fly_rgb_lightning_no.Outcome.{ok}
use f1r3fly_rgb_lightning_no.Backup.{
  BackupLibrary, CypherSecrets, backup_buffer_len_encrypt, backup_buffer_len_decrypt, encrypt_loop,
  decrypt_loop, get_cypher_secrets, encrypt_file, decrypt_file,
}
use f1r3fly_rgb_lightning_no.Backup.Chunks.{IsAead, before-ok, sealed-ok, decrypt_next, short_chunk}

take_zero : (xs : Bytes) → take 0 xs ≡ []
unfolding take
take_zero xs = refl

-- As many as asked for are taken, if there are as many.
le-length-take : (n k : ℕ) (xs : Bytes) → n ≤ length xs → n ≤ k → n ≤ length (take k xs)
unfolding take
le-length-take n zero xs h q = omega arith
le-length-take n (suc k) [] h q = omega arith
le-length-take zero (suc k) (x ∷ xs) h q = omega arith
le-length-take (suc n) (suc k) (x ∷ xs) h q =
    omega (arith, le-length-take n k xs (omega arith) (omega arith))

take-append_more :
    (n m : ℕ) (xs ys : Bytes) → length xs ≡ n → take (n + m) (xs ++ ys) ≡ xs ++ take m ys
unfolding take
take-append_more zero m [] ys h = let e : 0 + m ≡ m = omega arith in rw e refl
take-append_more zero m (x ∷ xs) ys h = absurd (omega arith)
take-append_more (suc n) m [] ys h = absurd (omega arith)
take-append_more (suc n) m (x ∷ xs) ys h =
    let e : suc n + m ≡ suc (n + m) = omega arith in
    rw e (ap (λ (r : Bytes). x ∷ r) (take-append_more n m xs ys (omega arith)))

take_more :
    (n m : ℕ) (xs : Bytes) → n ≤ length xs → take (n + m) xs ≡ take n xs ++ take m (drop n xs)
take_more n m xs h =
    ap (take (n + m)) (sym (take-append-drop n xs))
    ∙ take-append_more n m (take n xs) (drop n xs) (length-take n xs h)

module _ (lib : BackupLibrary) (aead : IsAead lib) (secrets : CypherSecrets) where
  decrypt_nothing : (fuel i : ℕ) → decrypt_loop lib secrets (suc fuel) i [] ≡ some (ok [])
  unfolding decrypt_loop take
  decrypt_nothing fuel i = refl

  pub decrypt_loop-cut :
      (n fuel fuel' i : ℕ) (source c : Bytes)
      → encrypt_loop lib secrets fuel i source ≡ some (ok c)
      → n * backup_buffer_len_encrypt ≤ length source
      → n < fuel'
      → decrypt_loop lib secrets fuel' i (take (n * backup_buffer_len_decrypt) c)
        ≡ some (ok (take (n * backup_buffer_len_encrypt) source))
  unfolding encrypt_loop
  decrypt_loop-cut n fuel zero i source c e h f = absurd (omega arith)
  decrypt_loop-cut n zero (suc fuel') i source c e h f = cc
  decrypt_loop-cut zero (suc fuel) (suc fuel') i source c e h f =
      rw (take_zero c, take_zero source) (decrypt_nothing fuel' i)
  decrypt_loop-cut (suc n) (suc fuel) (suc fuel') i source c e h f =
      let size : length (take backup_buffer_len_encrypt source) ≡ backup_buffer_len_encrypt =
        length-take backup_buffer_len_encrypt source (omega arith) in
      let full : (length (take backup_buffer_len_encrypt source) == backup_buffer_len_encrypt)
          ≡ true =
        ground arith in
      let (head, rest, s, r, joined) = before-ok lib aead secrets _ _ c (rw full at e) in
      let sealed_head = sealed-ok lib aead secrets _ _ head s in
      let tag : length head ≡ 239 + 16 = omega (arith, aead.tagged _ _ _ _ _ _ sealed_head) in
      let ih =
        decrypt_loop-cut n fuel fuel' (i + 1) (drop backup_buffer_len_encrypt source) rest r
          (omega (arith, length-drop backup_buffer_len_encrypt source)) (omega arith) in
      let longer : suc n * (239 + 16) ≡ (239 + 16) + n * (239 + 16) = omega arith in
      let more : suc n * 239 ≡ 239 + n * 239 = omega arith in
      rw
        (
          longer,
          more,
          sym joined,
          take-append_more (239 + 16) (n * (239 + 16)) head rest tag,
          take_more 239 (n * 239) source (omega arith),
        )
        (decrypt_next lib aead secrets fuel' i (take backup_buffer_len_encrypt source) head
          (take (n * (239 + 16)) rest) _ size sealed_head ih)

  encrypt_loop-length :
      (fuel i : ℕ) (source c : Bytes)
      → encrypt_loop lib secrets fuel i source ≡ some (ok c)
      → length source ≤ length c
  unfolding encrypt_loop
  encrypt_loop-length zero i source c e = cc
  encrypt_loop-length (suc fuel) i source c e =
      elim (Bool-cases
        (length (take backup_buffer_len_encrypt source) == backup_buffer_len_encrypt)) [
          | inl full ↦
              let (head, rest, s, r, joined) = before-ok lib aead secrets _ _ c (rw full at e) in
              let sealed_head = sealed-ok lib aead secrets _ _ head s in
              omega (
                arith,
                ap length joined,
                length-append head rest,
                aead.tagged _ _ _ _ _ _ sealed_head,
                (==_iff (length (take backup_buffer_len_encrypt source))
                      backup_buffer_len_encrypt).0
                    full,
                length-drop backup_buffer_len_encrypt source,
                encrypt_loop-length fuel (i + 1) (drop backup_buffer_len_encrypt source) rest r,
              )
          | inr short ↦
              let sealed_all =
                sealed-ok lib aead secrets _ _ c (some-injective _ _ (rw short at e)) in
              let fits = short_chunk backup_buffer_len_encrypt source short in
              omega (
                arith,
                aead.tagged _ _ _ _ _ _ sealed_all,
                ap length (take_all backup_buffer_len_encrypt source (omega arith)),
              )
        ]

module _ (lib : BackupLibrary) where
  -- With a cipher that opens what it has sealed, an encrypted archive that is cut after any number of full chunks is decrypted without an error, as the archive cut at the
  -- same chunk: the loop takes the end of the file for the end of the archive.
  pub decrypt_file-cut :
      (password salt nonce source c : Bytes) (secrets : CypherSecrets) (n : ℕ)
      → IsAead lib
      → get_cypher_secrets lib password salt nonce ≡ ok secrets
      → encrypt_file lib password salt nonce source ≡ some (ok c)
      → n * backup_buffer_len_encrypt ≤ length source
      → decrypt_file lib password salt nonce (take (n * backup_buffer_len_decrypt) c)
        ≡ some (ok (take (n * backup_buffer_len_encrypt) source))
  unfolding decrypt_file encrypt_file
  decrypt_file-cut password salt nonce source c secrets n aead derived e h =
      let run = rw (encrypt_file, derived) at e in
      let long = encrypt_loop-length lib aead secrets _ 0 source c run in
      let enough = le-length-take n (n * backup_buffer_len_decrypt) c (omega arith) (omega arith) in
      rw (derived, decrypt_file)
        (decrypt_loop-cut lib aead secrets n _ _ 0 source c run h (omega arith))
