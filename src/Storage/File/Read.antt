-- ===== src/Storage/File/Read.antt =====
-- `ReadFile` and `ReadEncryptedFile` of src/td/storage.py.
use opentele.Prelude.{
  ℕ, ◌-◌, Option, none, some, List, [], ◌∷◌, ◌++◌, ltb, if◌then◌else◌, length, take, drop, beq_list,
}
use opentele.Exception.{
  Exception, Result, ok, err, t_file_not_found, t_data_invalid_magic, t_data_invalid_check_sum,
  overflow_error, ◌>>=◌,
}
use opentele.Bytes.{little_endian, from_little_endian}
use opentele.Crypto.{Crypto}
use opentele.Auth.{AuthKey}
use opentele.Qt.ByteArray.{QByteArray, of_bytes, resize}
use opentele.Qt.Buffer.{read_only}
use opentele.Qt.DataStream.{QDataStream}
use opentele.Qt.Blob.{read_qbytearray}
use opentele.Storage.Local.{EncryptedDescriptor, attach, to_bytes4, decrypt_local}
use opentele.Storage.File.{Folder, with_suffix, suffixes, tdf_magic}

pub record FileReadDescriptor : Type 0 where
  pub version : ℕ
  pub payload : QByteArray
  pub stream : QDataStream

-- A candidate file was read, or it was not and `tries_exception` is set.
pub data Attempt : Type 0 where
  found : FileReadDescriptor → Attempt
  failed : Exception → Attempt

module _ (c : Crypto) where
  -- The bytes of a file behind its version, where there are `n` before the digest.
  unfoldable pub check_file : ℕ → ℕ → List ℕ → Attempt
  check_file version n bytesdata =
      if beq_list
        (c.md5 (take n bytesdata ++ (little_endian 4 n ++ (little_endian 4 version ++ tdf_magic))))
        (drop n bytesdata)
      then found (record {
        version = version;
        payload = resize n (of_bytes bytesdata);
        stream = attach (resize n (of_bytes bytesdata)) read_only 0;
      })
      else failed t_data_invalid_check_sum

  -- `int(dataSize).to_bytes(4, "little")` raises for a negative size and for one that is too long.
  unfoldable pub read_body : ℕ → List ℕ → Result Attempt
  read_body version bytesdata =
      if ltb (length bytesdata) 16
      then err overflow_error
      else (to_bytes4 (length bytesdata - 16) >>= λ size.
          ok (check_file version (length bytesdata - 16) bytesdata))

  -- One round of the loop in `ReadFile`, for the contents of the file with that suffix.
  unfoldable pub try_file : Option (List ℕ) → Result Attempt
  unfolding read_body
  try_file none = ok (failed t_file_not_found)
  try_file (some content) =
      if beq_list (take 4 content) tdf_magic
      then read_body (from_little_endian (take 4 (drop 4 content))) (drop 4 (drop 4 content))
      else ok (failed t_data_invalid_magic)

  -- The loop over the suffixes that are left, where `last` is `tries_exception`.
  unfoldable pub read_tries : Folder → List ℕ → List ℕ → Exception → Result FileReadDescriptor
  read_tries folder name [] last = err last
  read_tries folder name (chr ∷ chrs) last =
      try_file (folder.files (with_suffix name chr)) >>= λ attempt. elim attempt [
        | found d ↦ ok d
        | failed e ↦ read_tries folder name chrs e
      ]

  -- `ReadFile`. With no `tries_exception` it raises `TFileNotFound` too.
  unfoldable pub read_file : List ℕ → Folder → Result FileReadDescriptor
  unfolding read_tries
  read_file name folder = read_tries folder name suffixes t_file_not_found

  -- The descriptor of a file whose encrypted data was opened, at the position where that stands.
  abbrev pub reopen : FileReadDescriptor → EncryptedDescriptor → FileReadDescriptor
  reopen result d = record result { payload = d.held; stream = d.stream }

  -- `ReadEncryptedFile`. An exception of `DecryptLocal` leaves only the exception.
  unfoldable pub read_encrypted_file : List ℕ → Folder → AuthKey → Result FileReadDescriptor
  read_encrypted_file name folder a = read_file name folder >>= λ result.
      (read_qbytearray result.stream).0 >>= λ encrypted.
      decrypt_local c encrypted a >>= λ d. ok (reopen result d)
