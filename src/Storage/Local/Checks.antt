-- ===== src/Storage/Local/Checks.antt =====
-- What `DecryptLocal` has checked when it returns.
use opentele.Prelude.{
  ℕ, ◌+◌, ◌-◌, ◌%◌, ◌≤◌, ◌<◌, ◌≡◌, refl, Bool, true, false, not, ◌||◌, arith, leb, ◌==◌,
  if◌then◌else◌, take, beq_list→eq,
}
use opentele.Exception.{Exception, Result, ok, err}
use opentele.Bytes.{from_little_endian}
use opentele.Crypto.{Crypto}
use opentele.Auth.{AuthKey}
use opentele.Qt.ByteArray
use opentele.Qt.ByteArray.{QByteArray, resize, size}
use opentele.Storage.Local.{
  EncryptedDescriptor, aes_decrypt_local, open_decrypted, check_decrypted, decrypt_local,
}

-- The text behind the message key, decrypted.
abbrev pub decrypted_text : Crypto → QByteArray → AuthKey → QByteArray
decrypted_text c e a = aes_decrypt_local c (ByteArray.get_tail e 16) a (take 16 e.bytes)

-- The size that the decrypted text begins with.
abbrev pub text_size : Crypto → QByteArray → AuthKey → ℕ
text_size c e a = from_little_endian (take 4 (decrypted_text c e a).bytes)

open_decrypted-eq-ok :
    (c : Crypto) (full_len : ℕ) (q : QByteArray) (d : EncryptedDescriptor)
    → open_decrypted c full_len q ≡ ok d
    → (d.held ≡ resize (from_little_endian (take 4 q.bytes)) q)
      × (4 ≤ from_little_endian (take 4 q.bytes))
      × (from_little_endian (take 4 q.bytes) ≤ size q)
      × (full_len < from_little_endian (take 4 q.bytes) + 16)
unfolding open_decrypted
open_decrypted-eq-ok c full_len q d h = ground arith

if_else_err :
    {A : Type 0} (b : Bool) (x : Exception) {r : Result A} {d : A}
    → (if b then r else err x) ≡ ok d
    → (b ≡ true) × (r ≡ ok d)
if_else_err true x h = (refl, h)
if_else_err false x h = cc

if_then_err :
    {A : Type 0} (b : Bool) (x : Exception) {r : Result A} {d : A}
    → (if b then err x else r) ≡ ok d
    → (b ≡ false) × (r ≡ ok d)
if_then_err true x h = cc
if_then_err false x h = (refl, h)

guard_passed : (n : ℕ) → (leb n 16 || not (n % 16 == 0)) ≡ false → (16 < n) × (n % 16 ≡ 0)
guard_passed n h = ground arith

-- When `decrypt_local` returns a descriptor, the encrypted array has more than 16 bytes in whole
-- blocks, its first 16 bytes begin the digest of the decrypted text, and the descriptor holds the
-- text resized to the size that the text begins with, which is at least 4, at most the size of the
-- text, and more than the number of encrypted bytes less 16.
pub decrypt_local-eq-ok :
    (c : Crypto) (e : QByteArray) (a : AuthKey) (d : EncryptedDescriptor)
    → decrypt_local c e a ≡ ok d
    → (16 < size e)
      × (size e % 16 ≡ 0)
      × (take 16 (c.sha1 (decrypted_text c e a).bytes) ≡ take 16 e.bytes)
      × (d.held ≡ resize (text_size c e a) (decrypted_text c e a))
      × (4 ≤ text_size c e a)
      × (text_size c e a ≤ size (decrypted_text c e a))
      × (size e - 16 < text_size c e a + 16)
unfolding decrypt_local check_decrypted
decrypt_local-eq-ok c e a d h =
    let (passes, checks) = if_then_err _ _ h in
    let (same, opens) = if_else_err _ _ checks in
    let (long, blocks) = guard_passed (size e) passes in
    let (held, lo, hi, near) =
      open_decrypted-eq-ok c (size e - 16) (decrypted_text c e a) d opens in
    (long, blocks, beq_list→eq _ _ same, held, lo, hi, near)
