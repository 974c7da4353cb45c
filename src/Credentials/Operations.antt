-- ===== src/Credentials/Operations.antt =====
-- `derive`, `encrypt`, `decrypt` and `main`.
use lean_fm.Common.{
  ℕ, String, Bool, not, ◌&&◌, ◌||◌, Option, none, some, List, ◌∷◌, ◌++◌, eqb, if◌then◌else◌, ◌==◌,
  length,
}

abbrev pub Bytes : Type 0
Bytes = List ℕ

-- `hashlib.pbkdf2_hmac` with SHA-256 and 32 bytes, `AESGCM.encrypt` and `AESGCM.decrypt`, which
-- raises, base64 in both directions, of which `b64decode` raises, the bytes of a text, and
-- `hmac.compare_digest`.
pub record Library : Type 0 where
  pub pbkdf2 : Bytes → Bytes → ℕ → Bytes
  pub seal : Bytes → Bytes → Bytes → Bytes → Bytes
  pub unseal : Bytes → Bytes → Bytes → Bytes → Option Bytes
  pub encode : Bytes → String
  pub decode : String → Option Bytes
  pub utf8 : String → Bytes
  pub same_digest : Bytes → Bytes → Bool

abbrev pub iterations : ℕ
iterations = 310_000

abbrev pub aad_prefix : String
aad_prefix = "leanfm.chatui.credentials.v1"

-- What `encrypt` returns.
pub record Envelope : Type 0 where
  pub version : ℕ
  pub algorithm : String
  pub kdf : String
  pub iterations : ℕ
  pub salt_b64 : String
  pub nonce_b64 : String
  pub ciphertext_b64 : String

-- What the mode "hash" prints.
pub record Hash : Type 0 where
  pub algorithm : String
  pub iterations : ℕ
  pub salt_b64 : String
  pub digest_b64 : String

infixl 5 ◌>>=?◌
abbrev pub ◌>>=?◌ : {A B : Type 0} → Option A → (A → Option B) → Option B
none >>=? f = none
some a >>=? f = f a

unfoldable pub derive : Library → Bytes → Bytes → ℕ → Option Bytes
derive lib password salt count =
    if not (eqb count iterations) || not (eqb (length salt) 16)
    then none
    else some (lib.pbkdf2 password salt count)

-- The prefix ends in a zero byte.
abbrev pub associated : Library → String → Bytes
associated lib username = lib.utf8 aad_prefix ++ 0 ∷ lib.utf8 username

-- `salt` and `nonce` are the values of `os.urandom`.
unfoldable pub encrypt : Library → Bytes → Bytes → Bytes → Bytes → String → Option Envelope
unfolding derive
encrypt lib salt nonce password secret username = derive lib password salt iterations >>=? λ key.
    some (record {
      version = 1;
      algorithm = "aes-256-gcm";
      kdf = "pbkdf2-hmac-sha256";
      iterations = iterations;
      salt_b64 = lib.encode salt;
      nonce_b64 = lib.encode nonce;
      ciphertext_b64 = lib.encode (lib.seal key nonce secret (associated lib username));
    })

abbrev pub is_supported : Envelope → Bool
is_supported e = eqb e.version 1 && e.algorithm == "aes-256-gcm" && e.kdf == "pbkdf2-hmac-sha256"

unfoldable pub decrypt : Library → Bytes → Envelope → String → Option Bytes
unfolding derive
decrypt lib password e username =
    if not (is_supported e)
    then none
    else (lib.decode e.salt_b64 >>=? λ salt. derive lib password salt e.iterations >>=? λ key.
        lib.decode e.nonce_b64 >>=? λ nonce.
        if not (eqb (length nonce) 12)
        then none
        else (lib.decode e.ciphertext_b64 >>=? λ sealed.
            lib.unseal key nonce sealed (associated lib username)))

-- The four modes of `main`, with the entries of the request that each reads.
pub data Mode : Type 0 where
  hash : Mode
  verify : Hash → Mode
  encrypt_secret : (secret_b64 username : String) → Mode
  decrypt_record : Envelope → (username : String) → Mode

pub data Output : Type 0 where
  hashed : Hash → Output
  verdict : Bool → Output
  sealed : Envelope → Output
  opened : String → Output

unfoldable pub hash_password : Library → Bytes → Bytes → Option Hash
unfolding derive
hash_password lib salt password = derive lib password salt iterations >>=? λ digest. some (record {
  algorithm = "pbkdf2-hmac-sha256";
  iterations = iterations;
  salt_b64 = lib.encode salt;
  digest_b64 = lib.encode digest;
})

unfoldable pub verify_password : Library → Bytes → Hash → Option Bool
unfolding derive
verify_password lib password h = lib.decode h.salt_b64 >>=? λ salt.
    derive lib password salt h.iterations >>=? λ actual.
    lib.decode h.digest_b64 >>=? λ digest. some (lib.same_digest actual digest)

abbrev pub with_password : Library → Bytes → Bytes → Bytes → Mode → Option Output
with_password lib salt nonce password hash =
    hash_password lib salt password >>=? λ h. some (hashed h)
with_password lib salt nonce password (verify h) =
    verify_password lib password h >>=? λ b. some (verdict b)
with_password lib salt nonce password (encrypt_secret secret_b64 username) =
    lib.decode secret_b64 >>=? λ secret.
    encrypt lib salt nonce password secret username >>=? λ e. some (sealed e)
with_password lib salt nonce password (decrypt_record e username) =
    decrypt lib password e username >>=? λ secret. some (opened (lib.encode secret))

-- `main` on a request's password: what it prints, or none where it prints the one error.
unfoldable pub run : Library → Bytes → Bytes → String → Mode → Option Output
run lib salt nonce password_b64 mode =
    lib.decode password_b64 >>=? λ password. with_password lib salt nonce password mode
