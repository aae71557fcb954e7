-- ===== src/TDesktop/Streams.antt =====
-- What `TDesktop` of src/td/tdesktop.py writes to the streams of the key file.
use opentele.Prelude.{false, List, length}
use opentele.Prelude.Int.{ℤ, pos}
use opentele.Exec.{Exec, for_each, ◌>>◌}
use opentele.Crypto.{Crypto}
use opentele.Auth.{AuthKey, write}
use opentele.Qt.ByteArray.{QByteArray}
use opentele.Qt.DataStream.{QDataStream}
use opentele.Qt.Primitive.{write_int32}
use opentele.Storage.Local.{EncryptedDescriptor}
use opentele.Storage.File.Write.{FileWriteDescriptor, write_data, write_encrypted}

-- The information about the accounts: their count, their indices, and the active one.
unfoldable pub write_info : List ℤ → ℤ → Exec QDataStream Unit
write_info indices active_index = do
  write_int32 (pos (length indices))
  for_each indices write_int32
  write_int32 active_index

abbrev pub write_local_key : AuthKey → Exec QDataStream Unit
write_local_key key = write key

-- The salt, the encrypted local key, and the information, encrypted.
unfoldable pub write_key_blocks :
    Crypto → QByteArray → QByteArray → EncryptedDescriptor → AuthKey → Exec FileWriteDescriptor Unit
write_key_blocks c salt encrypted info key = do
  write_data false salt
  write_data false encrypted
  write_encrypted c false info key
