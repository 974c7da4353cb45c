-- ===== src/Credentials/RoundTrip.antt =====
-- Sealing and opening a provider key, hashing and verifying a password.
use lean_fm.Common.{String, ◌≡◌, refl, some, length}
use lean_fm.Credentials.Operations.{
  Bytes, Library, iterations, Envelope, Hash, associated, encrypt, decrypt, hash_password,
  verify_password, hash, verify, encrypt_secret, decrypt_record, hashed, verdict, sealed, opened,
  run,
}

module _ (lib : Library) (decode-encode : (b : Bytes) → lib.decode (lib.encode b) ≡ some b) where
  -- What the mode "encrypt" prints, the mode "decrypt" opens to the same secret, for the same
  -- password and user, where base64 gives back what it encoded and AES-GCM opens what it sealed
  -- under the same key, nonce and associated data.
  pub decrypt-encrypt :
      (salt nonce salt' nonce' password secret : Bytes) (password_b64 secret_b64 username : String)
      → ((key n text data_bytes : Bytes)
          → lib.unseal key n (lib.seal key n text data_bytes) data_bytes ≡ some text)
      → length salt ≡ 16
      → length nonce ≡ 12
      → lib.decode password_b64 ≡ some password
      → lib.decode secret_b64 ≡ some secret
      → (e : Envelope) × (run lib salt nonce password_b64 (encrypt_secret secret_b64 username)
          ≡ some (sealed e))
        × (run lib salt' nonce' password_b64 (decrypt_record e username)
            ≡ some (opened (lib.encode secret)))
  unfolding run encrypt decrypt
  decrypt-encrypt salt nonce salt' nonce' password secret password_b64 secret_b64 username
        unseal-seal salt_size nonce_size given hidden =
      let key = lib.pbkdf2 password salt iterations in
      let cipher = lib.seal key nonce secret (associated lib username) in
      let e : Envelope = record {
        version = 1;
        algorithm = "aes-256-gcm";
        kdf = "pbkdf2-hmac-sha256";
        iterations = iterations;
        salt_b64 = lib.encode salt;
        nonce_b64 = lib.encode nonce;
        ciphertext_b64 = lib.encode cipher;
      } in
      (
        e,
        rw (given, hidden, salt_size) refl,
        rw
            (
              given,
              decode-encode salt,
              salt_size,
              decode-encode nonce,
              nonce_size,
              decode-encode cipher,
              unseal-seal key nonce secret (associated lib username),
            )
            refl,
      )

  -- A password can be hashed, and any password, the same or another, is accepted against that hash
  -- exactly if the digest that it derives under the hash's salt compares as equal, where base64
  -- gives back what it encoded.
  pub verify-hash :
      (salt salt' nonce nonce' password other : Bytes) (password_b64 other_b64 : String)
      → length salt ≡ 16
      → lib.decode password_b64 ≡ some password
      → lib.decode other_b64 ≡ some other
      → (h : Hash) × (run lib salt nonce password_b64 hash ≡ some (hashed h))
        × (run lib salt' nonce' other_b64 (verify h)
            ≡ some (
                verdict (
                  lib.same_digest
                    (lib.pbkdf2 other salt iterations)
                    (lib.pbkdf2 password salt iterations))))
  unfolding run hash_password verify_password
  verify-hash salt salt' nonce nonce' password other password_b64 other_b64 salt_size given tried =
      let digest = lib.pbkdf2 password salt iterations in
      let h : Hash = record {
        algorithm = "pbkdf2-hmac-sha256";
        iterations = iterations;
        salt_b64 = lib.encode salt;
        digest_b64 = lib.encode digest;
      } in
      (
        h,
        rw (given, salt_size) refl,
        rw (tried, decode-encode salt, salt_size, decode-encode digest) refl,
      )
