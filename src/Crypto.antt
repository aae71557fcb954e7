-- ===== src/Crypto.antt =====
-- The digests of `hashlib` and the ciphers of `tgcrypto`, which the program calls, as a parameter.
use opentele.Prelude.{ℕ, ◌%◌, ◌≡◌, List, length}

pub record Crypto : Type 0 where
  pub sha1 : List ℕ → List ℕ
  pub md5 : List ℕ → List ℕ
  pub sha512 : List ℕ → List ℕ
  -- `pbkdf2_hmac("sha512", password, salt, iterations, 256)`
  pub pbkdf2_sha512 : List ℕ → List ℕ → ℕ → List ℕ
  -- `ige256_encrypt(data, key, iv)` and `ige256_decrypt(data, key, iv)`
  pub ige256_encrypt : List ℕ → List ℕ → List ℕ → List ℕ
  pub ige256_decrypt : List ℕ → List ℕ → List ℕ → List ℕ

-- The sizes of the digests, and a cipher over blocks of 16 bytes that decryption undoes.
pub record IsCrypto (c : Crypto) : Type 0 where
  pub length-sha1 : (bs : List ℕ) → length (c.sha1 bs) ≡ 20
  pub length-md5 : (bs : List ℕ) → length (c.md5 bs) ≡ 16
  pub length-encrypt :
      (bs key iv : List ℕ) → length bs % 16 ≡ 0 → length (c.ige256_encrypt bs key iv) ≡ length bs
  pub decrypt-encrypt :
      (bs key iv : List ℕ)
      → length bs % 16 ≡ 0
      → c.ige256_decrypt (c.ige256_encrypt bs key iv) key iv ≡ bs
