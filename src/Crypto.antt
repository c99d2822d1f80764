-- ===== src/Crypto.antt =====
-- core/src/crypto.rs: the envelope `nonce ++ sealed` of `Encryptor`, over the foreign cipher.
-- The random nonce is an argument.
use ghostsnap.Prelude.{
  ℕ, ◌<◌, ◌≡◌, ◌++◌, arith, length, take, drop, ltb, false, if◌then◌else◌, nat_beq, take-append,
  drop-append, length-append, le→ltb_false, lt→ltb,
}
use ghostsnap.Errors.{Error, Result, ok, err, ok_or, ok_or-eq-ok, ◌>>=◌, >>=-eq-ok}
use ghostsnap.Foreign.{Bytes, Cipher}

abbrev pub nonce_size : ℕ
nonce_size = 12

pub record Encryptor : Type 0 where
  pub key : Bytes

-- `Encryptor::new`
unfoldable pub new_encryptor : Bytes → Result Encryptor
new_encryptor key =
    if nat_beq (length key) 32
    then ok (record { key = key })
    else err (Error.encryption "Key must be 32 bytes")

module _ (cipher : Cipher) where
  unfoldable pub encrypt : Encryptor → Bytes → Bytes → Result Bytes
  encrypt e nonce plaintext = do
    ciphertext ← ok_or (cipher.seal e.key nonce plaintext) (Error.encryption "aead::Error")
    ok (nonce ++ ciphertext)

  unfoldable pub decrypt : Encryptor → Bytes → Result Bytes
  decrypt e ciphertext =
      if ltb (length ciphertext) 12
      then err (Error.encryption "Ciphertext too short")
      else ok_or (cipher.unseal e.key (take 12 ciphertext) (drop 12 ciphertext))
          (Error.encryption "aead::Error")

  -- A nonce and a sealed text side by side are taken apart again.
  decrypt-append :
      (e : Encryptor) (nonce sealed : Bytes)
      → length nonce ≡ 12
      → decrypt e (nonce ++ sealed)
        ≡ ok_or (cipher.unseal e.key nonce sealed) (Error.encryption "aead::Error")
  unfolding decrypt
  decrypt-append e nonce sealed n =
      let long : ltb (length (nonce ++ sealed)) 12 ≡ false =
        le→ltb_false _ _ (omega (arith, length-append nonce sealed)) in
      let front : take 12 (nonce ++ sealed) ≡ nonce = rw (← n) (take-append nonce sealed) in
      let back : drop 12 (nonce ++ sealed) ≡ sealed = rw (← n) (drop-append nonce sealed) in
      rw (long, front, back)

  -- Decrypting what `encrypt` produced under a 12-byte nonce gives the plaintext back.
  pub decrypt-encrypt :
      (e : Encryptor) (nonce plaintext ciphertext : Bytes)
      → length nonce ≡ 12
      → encrypt e nonce plaintext ≡ ok ciphertext
      → decrypt e ciphertext ≡ ok plaintext
  unfolding encrypt
  decrypt-encrypt e nonce plaintext ciphertext n h =
      let (sealed, p, q) = >>=-eq-ok _ _ h in
      let unsealed = cipher.unseal-seal e.key nonce plaintext sealed (ok_or-eq-ok _ _ p) in
      cc (q, decrypt-append e nonce sealed n, unsealed)

  -- An input shorter than a nonce is refused before the cipher is asked.
  pub decrypt_short :
      (e : Encryptor) (ciphertext : Bytes)
      → length ciphertext < 12
      → decrypt e ciphertext ≡ err (Error.encryption "Ciphertext too short")
  unfolding decrypt
  decrypt_short e ciphertext h = rw (lt→ltb _ _ h)
