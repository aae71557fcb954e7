-- ===== src/Storage/File/Write.antt =====
-- `FileWriteDescriptor` of src/td/storage.py.
use opentele.Prelude.{ℕ, ◌+◌, ◌*◌, ◌/◌, ◌%◌, ◌^◌, Bool, none, some, List, [], ◌++◌, if◌then◌else◌}
use opentele.Exception.{Result, ok, err, open_tele_exception, ◌>>=◌}
use opentele.Exec.{Exec}
use opentele.Bytes.{little_endian}
use opentele.Crypto.{Crypto}
use opentele.Auth.{AuthKey}
use opentele.Qt.ByteArray
use opentele.Qt.ByteArray.{QByteArray, is_null, size}
use opentele.Qt.Buffer
use opentele.Qt.Buffer.{QBuffer, write_only}
use opentele.Qt.DataStream
use opentele.Qt.DataStream.{QDataStream}
use opentele.Qt.Blob.{write_qbytearray, null_marker}
use opentele.Storage.Local
use opentele.Storage.Local.{EncryptedDescriptor, prepare_encrypted, to_bytes4}
use opentele.Storage.File.{Folder, write_file, app_version, tdf_magic}

pub record FileWriteDescriptor : Type 0 where
  pub file_name : List ℕ
  pub stream : QDataStream
  pub md5 : List ℕ
  pub full_size : ℕ

-- `FileWriteDescriptor.init`
unfoldable pub init : List ℕ → FileWriteDescriptor
unfolding Buffer.open_with DataStream.set_device
init name = record {
  file_name = name;
  stream =
      DataStream.set_device
        (some (Buffer.open_with write_only (Buffer.new (some ByteArray.empty))).1) DataStream.empty;
  md5 = [];
  full_size = 0;
}

-- `qbswap` of a number below 2 ^ 32: its four bytes the other way round.
unfoldable pub qbswap : ℕ → ℕ
qbswap n = n % 256 * 2 ^ 24 + n / 2 ^ 8 % 256 * 2 ^ 16 + n / 2 ^ 16 % 256 * 2 ^ 8 + n / 2 ^ 24 % 256

-- The size that the digest covers, in four bytes, on a host that is or is not big-endian.
unfoldable pub digested_size : Bool → QByteArray → List ℕ
digested_size is_big_endian q =
    let n = if is_null q then null_marker else size q in
    little_endian 4 (if is_big_endian then n else qbswap n)

-- The digested bytes and the size after `data` was written.
abbrev pub count : Bool → QByteArray → FileWriteDescriptor → FileWriteDescriptor
count is_big_endian q w = record w {
  md5 = w.md5 ++ (digested_size is_big_endian q ++ q.bytes);
  full_size = w.full_size + (4 + size q);
}

-- The result of a write to the stream, in the descriptor.
abbrev pub after_write :
    Bool
    → QByteArray
    → FileWriteDescriptor
    → Result (Unit {0}) × QDataStream
    → Result (Unit {0}) × FileWriteDescriptor
after_write is_big_endian q w (ok u, s) = (ok tt, count is_big_endian q (record w { stream = s }))
after_write is_big_endian q w (err e, s) = (err e, record w { stream = s })

-- `writeData`
unfoldable pub write_data : Bool → QByteArray → Exec FileWriteDescriptor Unit
write_data is_big_endian q w = elim w.stream.device [
  | none ↦ (err open_tele_exception, w)
  | some b ↦ after_write is_big_endian q w (write_qbytearray q w.stream)
]

module _ (c : Crypto) where
  -- `writeEncrypted`
  unfoldable pub write_encrypted :
      Bool → EncryptedDescriptor → AuthKey → Exec FileWriteDescriptor Unit
  write_encrypted is_big_endian d a w = elim (prepare_encrypted c (Local.finish d) a) [
    | ok q ↦ write_data is_big_endian q w
    | err e ↦ (err e, w)
  ]

  -- The digest that ends a file of the data `md5`, of `n` bytes.
  unfoldable pub digest : List ℕ → ℕ → Result (List ℕ)
  digest md5 n = do
    header ← to_bytes4 n
    ok (c.md5 (md5 ++ (header ++ (little_endian 4 app_version ++ tdf_magic))))

  -- `self.safeData`
  unfoldable pub safe_data : QBuffer → List ℕ
  safe_data b = elim b.qba [ none ↦ [] | some q ↦ q.bytes ]

  -- `FileWriteDescriptor.finish`, for a descriptor that is not used after it. A second call does
  -- nothing.
  unfoldable pub finish : FileWriteDescriptor → Folder → Result Folder
  finish w folder = elim w.stream.device [
    | none ↦ ok folder
    | some b ↦
        digest w.md5 w.full_size >>= λ end. write_file w.file_name (safe_data b ++ end) folder
  ]
