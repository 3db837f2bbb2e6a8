-- ===== src/Backup/Chunks.antt =====
-- The two loops over chunks: what is encrypted is decrypted, and the loops end.
use mathlib.Core.Option.{some-injective}
use f1r3fly_rgb_lightning_no.Common.{
  ℕ, zero, suc, ◌+◌, ◌-◌, ◌*◌, ◌^◌, ◌<◌, ◌≤◌, ◌≡◌, refl, sym, ap, ◌∙◌, inl, inr, Bool, true, false,
  Option, none, some, [], ◌∷◌, ◌++◌, Bytes, length, length-append, take, drop, take-append-drop,
  length-drop, length-take, take_all, take-append, drop-append, ◌==◌, ==_iff, Bool-cases, arith,
}
use f1r3fly_rgb_lightning_no.Outcome.{Outcome, ok, err, panicked}
use f1r3fly_rgb_lightning_no.Backup.{
  BackupLibrary, CypherSecrets, backup_buffer_len_encrypt, before, sealed, encrypt_loop,
  decrypt_loop,
}

-- The number of chunks that the 32-bit counter of the stream can tell apart.
abbrev pub chunk_bound : ℕ
chunk_bound = 2 ^ 32 - 1

-- What the code relies on of the encryption: a chunk has a tag of 16 bytes and is opened as what was sealed,
-- and every chunk whose place the counter can tell is sealed.
pub record IsAead (lib : BackupLibrary) : Type 0 where
  pub opens :
      (k n : Bytes) (i : ℕ) (last : Bool) (m c : Bytes)
      → lib.seal k n i last m ≡ some c
      → lib.unseal k n i last c ≡ some m
  pub tagged :
      (k n : Bytes) (i : ℕ) (last : Bool) (m c : Bytes)
      → lib.seal k n i last m ≡ some c
      → length c ≡ length m + 16
  pub seals :
      (k n : Bytes) (i : ℕ) (last : Bool) (m : Bytes)
      → i < chunk_bound
      → (c : Bytes) × (lib.seal k n i last m ≡ some c)

pub length-take-le : (n : ℕ) (xs : Bytes) → length (take n xs) ≤ length xs
unfolding take
length-take-le zero xs = omega arith
length-take-le (suc n) [] = omega arith
length-take-le (suc n) (x ∷ xs) = omega (arith, length-take-le n xs)

full_chunk : (n : ℕ) (xs : Bytes) → (length (take n xs) == n) ≡ true → n ≤ length xs
full_chunk n xs h = omega (arith, (==_iff (length (take n xs)) n).0 h, length-take-le n xs)

pub short_chunk : (n : ℕ) (xs : Bytes) → (length (take n xs) == n) ≡ false → length xs < n
short_chunk n xs h = ground (arith, length-take n xs)

module _ (lib : BackupLibrary) (aead : IsAead lib) (secrets : CypherSecrets) where
  -- Enough fuel: the source is sealed whole, and what is sealed is opened as the source.
  pub encrypt_loop-ok :
      (fuel i : ℕ) (source : Bytes)
      → length source < fuel
      → i * backup_buffer_len_encrypt + length source < chunk_bound * backup_buffer_len_encrypt
      → (c : Bytes) × (encrypt_loop lib secrets fuel i source ≡ some (ok c))
  unfolding encrypt_loop
  encrypt_loop-ok zero i source h b = absurd (omega arith)
  encrypt_loop-ok (suc fuel) i source h b =
      elim (Bool-cases
        (length (take backup_buffer_len_encrypt source) == backup_buffer_len_encrypt)) [
          | inl full ↦
              let long = full_chunk backup_buffer_len_encrypt source full in
              let (c, e) =
                aead.seals secrets.key secrets.nonce i false (take backup_buffer_len_encrypt source)
                  (omega arith) in
              let (rest, q) =
                encrypt_loop-ok fuel (i + 1) (drop backup_buffer_len_encrypt source)
                  (omega (arith, length-drop backup_buffer_len_encrypt source))
                  (omega (arith, length-drop backup_buffer_len_encrypt source)) in
              (c ++ rest, rw (full, e, q) refl)
          | inr short ↦
              let (c, e) =
                aead.seals secrets.key secrets.nonce i true (take backup_buffer_len_encrypt source)
                  (omega arith) in
              (c, rw (short, e) refl)
        ]

  pub before-ok :
      (s : Outcome Bytes) (r : Option (Outcome Bytes)) (c : Bytes)
      → before s r ≡ some (ok c)
      → (head rest : Bytes) × (s ≡ ok head) × (r ≡ some (ok rest)) × (head ++ rest ≡ c)
  before-ok (ok a) none c h = cc
  before-ok (ok a) (some (ok b)) c h = (a, b, refl, refl, cc)
  before-ok (ok a) (some (err e)) c h = cc
  before-ok (ok a) (some panicked) c h = cc
  before-ok (err e) r c h = cc
  before-ok panicked r c h = cc

  pub sealed-ok : (o : Option Bytes) (which c : Bytes) → sealed lib o which ≡ ok c → o ≡ some c
  sealed-ok none which c h = cc
  sealed-ok (some d) which c h = cc

  -- One chunk that is not the last.
  pub decrypt_next :
      (fuel i : ℕ) (buffer head rest source : Bytes)
      → length buffer ≡ backup_buffer_len_encrypt
      → lib.seal secrets.key secrets.nonce i false buffer ≡ some head
      → decrypt_loop lib secrets fuel (i + 1) rest ≡ some (ok source)
      → decrypt_loop lib secrets (suc fuel) i (head ++ rest) ≡ some (ok (buffer ++ source))
  unfolding decrypt_loop
  decrypt_next fuel i buffer head rest source len e q =
      let size : length head ≡ 239 + 16 = omega (arith, aead.tagged _ _ _ _ _ _ e) in
      let full : (length head == 239 + 16) ≡ true = ground arith in
      rw
        (
          take-append (239 + 16) head rest size,
          drop-append (239 + 16) head rest size,
          full,
          aead.opens _ _ _ _ _ _ e,
          q,
        )
        refl

  decrypt_last :
      (fuel i : ℕ) (buffer c : Bytes)
      → length buffer < backup_buffer_len_encrypt
      → lib.seal secrets.key secrets.nonce i true buffer ≡ some c
      → decrypt_loop lib secrets (suc fuel) i c ≡ some (ok buffer)
  unfolding decrypt_loop
  decrypt_last fuel i buffer c len e =
      let size : length c ≡ length buffer + 16 = aead.tagged _ _ _ _ _ _ e in
      let whole : take (239 + 16) c ≡ c = take_all (239 + 16) c (omega arith) in
      let short : (length c == 239 + 16) ≡ false = ground arith in
      let some_left : (length c == 0) ≡ false = ground arith in
      rw (whole, short, some_left, aead.opens _ _ _ _ _ _ e) refl

  pub decrypt_loop-encrypt_loop :
      (fuel fuel' i : ℕ) (source c : Bytes)
      → encrypt_loop lib secrets fuel i source ≡ some (ok c)
      → length c < fuel'
      → decrypt_loop lib secrets fuel' i c ≡ some (ok source)
  unfolding encrypt_loop
  decrypt_loop-encrypt_loop zero fuel' i source c e h = cc
  decrypt_loop-encrypt_loop (suc fuel) zero i source c e h = absurd (omega arith)
  decrypt_loop-encrypt_loop (suc fuel) (suc fuel') i source c e h =
      elim (Bool-cases
        (length (take backup_buffer_len_encrypt source) == backup_buffer_len_encrypt)) [
          | inl full ↦
              let (head, rest, s, r, joined) = before-ok _ _ c (rw full at e) in
              let sealed_head = sealed-ok _ _ head s in
              let size : length (take backup_buffer_len_encrypt source)
                  ≡ backup_buffer_len_encrypt =
                (==_iff _ _).0 full in
              let shorter : length rest < fuel' = omega (
                arith,
                ap length joined,
                length-append head rest,
                aead.tagged _ _ _ _ _ _ sealed_head,
              ) in
              rw (sym joined) (
                decrypt_next fuel' i (take backup_buffer_len_encrypt source) head rest
                  (drop backup_buffer_len_encrypt source) size sealed_head
                  (decrypt_loop-encrypt_loop fuel fuel' (i + 1)
                    (drop backup_buffer_len_encrypt source) rest r shorter)
                ∙ ap (λ x. some (ok x)) (take-append-drop backup_buffer_len_encrypt source))
          | inr short ↦
              let fits = short_chunk backup_buffer_len_encrypt source short in
              let whole : take backup_buffer_len_encrypt source ≡ source =
                take_all backup_buffer_len_encrypt source (omega arith) in
              decrypt_last fuel' i source c fits
                (rw whole at (sealed-ok _ _ c (some-injective _ _ (rw short at e))))
        ]
