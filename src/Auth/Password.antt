-- ===== src/Auth/Password.antt =====
-- server/src/auth.c: passwords and session tokens, with OpenSSL as a parameter.
use ott_server.Base.{Bool, Option, false, if◌then◌else◌, ltb, none, some, ℕ, ◌>>=◌, ◌∷◌}
use ott_server.Cstr.{Bytes, str_eq}
use ott_server.Utils.Base64.{base64url_encode}

abbrev pub hash_length : ℕ
hash_length = 32

abbrev pub salt_length : ℕ
salt_length = 16

-- PKCS5_PBKDF2_HMAC with SHA-256 and 200000 iterations: password, salt, length of the hash. None
-- stands for a result other than 1.
abbrev pub Pbkdf2 : Type 0
Pbkdf2 = Bytes → Bytes → ℕ → Option Bytes

-- `auth_hash_password`, with what RAND_bytes gives for the salt: the salt and the hash.
abbrev pub hash_with : Pbkdf2 → Bytes → ℕ → Option Bytes → Option (Bytes × Bytes)
hash_with pbkdf2 password hash_len none = none
hash_with pbkdf2 password hash_len (some salt) = do
  hash ← pbkdf2 password salt hash_len
  some (salt, hash)

unfoldable pub auth_hash_password :
    Pbkdf2 → (ℕ → Option Bytes) → Bytes → ℕ → ℕ → Option (Bytes × Bytes)
auth_hash_password pbkdf2 random password salt_len hash_len =
    hash_with pbkdf2 password hash_len (random salt_len)

-- CRYPTO_memcmp of the computed hash.
abbrev pub same_hash : Bytes → Option Bytes → Bool
same_hash expected none = false
same_hash expected (some computed) = str_eq computed expected

-- `auth_verify_password`, whether it returns 0: the hash of `hash_len` bytes is computed and compared.
-- The expected hash is taken to have this length.
unfoldable pub auth_verify_password : Pbkdf2 → Bytes → Bytes → Bytes → ℕ → Bool
unfolding str_eq
auth_verify_password pbkdf2 password salt expected hash_len =
    if ltb hash_length hash_len then false else same_hash expected (pbkdf2 password salt hash_len)

-- A token of at least one character.
abbrev pub not_empty : Option Bytes → Option Bytes
not_empty (some (c ∷ s)) = some (c ∷ s)
not_empty _ = none

abbrev pub token_of : ℕ → Option Bytes → Option Bytes
token_of len none = none
token_of len (some random_bytes) = not_empty (base64url_encode random_bytes len)

-- `auth_generate_session_token`, with what RAND_bytes gives for 32 bytes.
unfoldable pub auth_generate_session_token : (ℕ → Option Bytes) → ℕ → Option Bytes
auth_generate_session_token random len = if ltb len 48 then none else token_of len (random 32)
