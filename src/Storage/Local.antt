-- ===== src/Storage/Local.antt =====
-- `EncryptedDescriptor`, `PrepareEncrypted` and `DecryptLocal` of src/td/storage.py.
pub mod RoundTrip
pub mod Opened
pub mod Checks
use opentele.Prelude.{
  ℕ, zero, suc, ◌+◌, ◌-◌, ◌%◌, ◌^◌, ◌≡◌, Bool, true, false, not, ◌||◌, Option, none, some, List, [],
  ◌∷◌, ◌++◌, ltb, leb, ◌==◌, if◌then◌else◌, length, take, drop, beq_list,
}
use opentele.Prelude.Int.{pos}
use opentele.Exception.{
  Result, ok, err, overflow_error, t_data_bad_encrypted_data_size, t_data_bad_decrypt_key,
  t_data_bad_decrypted_data_size, ◌>>=◌, ◌>>◌,
}
use opentele.Bytes.{little_endian, from_little_endian}
use opentele.Crypto.{Crypto}
use opentele.Auth.{AuthKey, prepare_aes_oldmtp}
use opentele.Qt.ByteArray
use opentele.Qt.ByteArray.{QByteArray, of_bytes, resize, size}
use opentele.Qt.Buffer
use opentele.Qt.Buffer.{QBuffer, read_only, write_only}
use opentele.Qt.DataStream
use opentele.Qt.DataStream.{QDataStream}

-- A descriptor is its stream, whose buffer has the data, and the data once the buffer is detached.
pub record EncryptedDescriptor : Type 0 where
  pub held : QByteArray
  pub stream : QDataStream

-- A buffer over `data`, opened and set to a position, as the device of a new stream.
unfoldable pub attach : QByteArray → Buffer.OpenModeFlag → ℕ → QDataStream
unfolding Buffer.open_with Buffer.seek DataStream.set_device
attach q m p = DataStream.set_version DataStream.qt_5_1 (
    DataStream.set_device
      (some (Buffer.seek (pos p) (Buffer.open_with m (Buffer.new (some q))).1).1) DataStream.empty)

-- `n + 0x10 - (n & 0x0F)` where `n & 0x0F` is not 0
unfoldable pub pad16 : ℕ → ℕ
pad16 n = if n % 16 == 0 then n else n + (0x10 - n % 16)

-- `EncryptedDescriptor(size)`: with a size of 0 there is no buffer.
unfoldable pub new_descriptor : ℕ → EncryptedDescriptor
new_descriptor n =
    if n == 0 then record { held = ByteArray.empty; stream = DataStream.empty } else record {
      held = ByteArray.empty;
      stream = attach (resize 4 (ByteArray.reserve (pad16 (4 + n)) ByteArray.empty)) write_only 4;
    }

-- `data.data` after `data.finish()`
unfoldable pub finish : EncryptedDescriptor → QByteArray
finish d = elim d.stream.device [
  | none ↦ d.held
  | some b ↦ elim b.qba [ none ↦ d.held | some q ↦ q ]
]

-- `n.to_bytes(4, "little")`
unfoldable pub to_bytes4 : ℕ → Result (List ℕ)
to_bytes4 n = if ltb n (2 ^ 32) then ok (little_endian 4 n) else err overflow_error

-- With no data, four bytes for the size alone.
unfoldable pub whole : QByteArray → QByteArray
whole q = if size q == 0 then of_bytes (0 ∷ 0 ∷ 0 ∷ 0 ∷ []) else q

-- The array that is encrypted, filled up to whole blocks.
unfoldable pub padded : QByteArray → QByteArray
padded q = if size (whole q) % 16 == 0 then whole q else resize (pad16 (size (whole q))) (whole q)

module _ (c : Crypto) where
  -- `aesEncryptLocal` and `aesDecryptLocal`
  unfoldable pub aes_encrypt_local : QByteArray → AuthKey → List ℕ → QByteArray
  aes_encrypt_local src a key128 =
      let (aes_key, aes_iv) = prepare_aes_oldmtp c a key128 false in
      of_bytes (c.ige256_encrypt src.bytes aes_key aes_iv)

  unfoldable pub aes_decrypt_local : QByteArray → AuthKey → List ℕ → QByteArray
  aes_decrypt_local src a key128 =
      let (aes_key, aes_iv) = prepare_aes_oldmtp c a key128 false in
      of_bytes (c.ige256_decrypt src.bytes aes_key aes_iv)

  -- The digest, which is the message key and stands in front, and the encrypted text.
  unfoldable pub encrypt_plain : AuthKey → List ℕ → QByteArray
  encrypt_plain a to_encrypt =
      let encrypted = resize (0x10 + length to_encrypt) (of_bytes (c.sha1 to_encrypt)) in
      ByteArray.add (ByteArray.get_slice encrypted 0 0x10)
        (aes_encrypt_local (of_bytes to_encrypt) a encrypted.bytes)

  -- `PrepareEncrypted`
  unfoldable pub prepare_encrypted : QByteArray → AuthKey → Result QByteArray
  prepare_encrypted q a = do
    header ← to_bytes4 (size (whole q))
    ok (encrypt_plain a (header ++ drop 4 (padded q).bytes))

  -- The last part of `DecryptLocal`: the size that the text begins with.
  unfoldable pub open_decrypted : ℕ → QByteArray → Result EncryptedDescriptor
  open_decrypted full_len decrypted =
      let n = from_little_endian (take 4 decrypted.bytes) in
      if ltb (size decrypted) n || (leb (n + 16) full_len || ltb n 4)
      then err t_data_bad_decrypted_data_size
      else ok
          (record { held = resize n decrypted; stream = attach (resize n decrypted) read_only 4 })

  -- The middle part: the digest of the text is the message key.
  unfoldable pub check_decrypted : ℕ → List ℕ → QByteArray → Result EncryptedDescriptor
  check_decrypted full_len encrypted_key decrypted =
      if beq_list (take 16 (c.sha1 decrypted.bytes)) encrypted_key
      then open_decrypted full_len decrypted
      else err t_data_bad_decrypt_key

  -- `DecryptLocal`
  unfoldable pub decrypt_local : QByteArray → AuthKey → Result EncryptedDescriptor
  decrypt_local encrypted a =
      if leb (size encrypted) 16 || not (size encrypted % 16 == 0)
      then err t_data_bad_encrypted_data_size
      else check_decrypted (size encrypted - 16) (take 16 encrypted.bytes)
          (aes_decrypt_local (ByteArray.get_tail encrypted 16) a (take 16 encrypted.bytes))
