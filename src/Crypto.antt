-- ===== src/Crypto.antt =====
-- cryptography/sha256.hpp and sha256.cpp. OpenSSL is a parameter.
use endless_peak_server.Shared.{
  ℕ, ◌≡◌, Bool, true, false, if◌then◌else◌, leb, ◌==◌, ◌&&◌, List, [], ◌∷◌, Option, none, some,
  ◌>>=◌, length, take,
}
pub mod Passwords

-- What `RAND_bytes` returns: 1, 0 or -1.
pub data RandResult : Type 0 where
  success failure unsupported : RandResult

-- `PKCS5_PBKDF2_HMAC` with SHA-256, over a password, a salt, the iterations and the length: `none` is
-- the result 0. `RAND_bytes` leaves the buffer with the given bytes.
pub record OpenSsl : Type 0 where
  pub pbkdf2 : List ℕ → List ℕ → ℕ → ℕ → Option (List ℕ)
  pub rand_bytes : ℕ → RandResult × List ℕ

-- OpenSSL fills the whole buffer.
pub record IsDocumented (ssl : OpenSsl) : Type 0 where
  pub filled :
      (password salt : List ℕ) (iterations n : ℕ) (bytes : List ℕ)
      → ssl.pbkdf2 password salt iterations n ≡ some bytes
      → length bytes ≡ n

abbrev pub num_iterations : ℕ
num_iterations = 10_000

abbrev pub hash_length : ℕ
hash_length = 32

abbrev pub salt_length : ℕ
salt_length = 16

-- `CRYPTO_memcmp` of equally long sequences: whether they are equal.
unfoldable pub same_bytes : List ℕ → List ℕ → Bool
same_bytes [] [] = true
same_bytes (a ∷ xs) (b ∷ ys) = a == b && same_bytes xs ys
same_bytes _ _ = false

module _ (ssl : OpenSsl) where
  unfoldable pub hash : List ℕ → List ℕ → Option (List ℕ)
  hash password salt = ssl.pbkdf2 password salt num_iterations hash_length

  -- `none`: the comparison reads behind the end of the expected hash.
  unfoldable pub verify_hash : List ℕ → List ℕ → List ℕ → Option Bool
  verify_hash password expected salt = elim (hash password salt) [
    | none ↦ some false
    | some bytes ↦
        if leb (length bytes) (length expected)
        then some (same_bytes bytes (take (length bytes) expected))
        else none
  ]

  unfoldable pub salt_of : RandResult × List ℕ → Option (List ℕ)
  salt_of (success, bytes) = some bytes
  salt_of (failure, bytes) = some bytes
  salt_of (unsupported, bytes) = none

  unfoldable pub generate_salt : ℕ → Option (List ℕ)
  generate_salt n = salt_of (ssl.rand_bytes n)
