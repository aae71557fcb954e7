-- ===== src/StorageAccount/Read.antt =====
-- `StorageAccount.start` of src/td/account.py, and the reads it makes. A read that raises leaves in the
-- account what it has set before.
use opentele.Prelude.{ℕ, Bool, Option, none, some, List, if◌then◌else◌}
use opentele.Prelude.Int.{ℤ, pos, ◌==ℤ◌}
use opentele.Prelude.Codes.{codes}
use opentele.Exception.{
  Result, ok, err, is_open_tele, account_auth_key_not_found, t_data_invalid_magic,
}
use opentele.Exec.{Exec, pure, raise, ◌>>=◌, ◌>>◌}
use opentele.Crypto.{Crypto}
use opentele.Auth.{AuthKey}
use opentele.Account.{Account, set_mtp_authorization}
use opentele.Qt.ByteArray
use opentele.Qt.ByteArray.{QByteArray}
use opentele.Qt.DataStream.{QDataStream}
use opentele.Qt.Primitive.{read_int32}
use opentele.Qt.Blob.{read_qbytearray}
use opentele.MapData.{MapData}
use opentele.MapData.File.{read as read_map_file}
use opentele.MapData.Read.{expect_stream_status}
use opentele.Mtp.{production}
use opentele.Mtp.Config.{Config, new_config}
use opentele.Mtp.Config.Read.{from_serialized}
use opentele.Storage.Names.{to_file_part}
use opentele.Storage.File.Read.{FileReadDescriptor, read_encrypted_file}
use opentele.StorageAccount.{Disk, Client}

-- `dbi.MtpAuthorization`
abbrev pub mtp_authorization_id : ℤ
mtp_authorization_id = pos 75

-- The stream of `readMtpData`
unfoldable pub read_authorization : Exec QDataStream QByteArray
read_authorization = do
  block_id ← read_int32
  if block_id ==ℤ mtp_authorization_id then pure tt else raise t_data_invalid_magic
  read_qbytearray

-- The stream of `readMtpConfig`
unfoldable pub read_config_block : Exec QDataStream QByteArray
read_config_block = do serialized ← read_qbytearray; expect_stream_status; pure serialized

-- `owner._setMtpAuthorization`, in the client
abbrev pub with_account : Client → Result (Unit {0}) × Account → Result (Unit {0}) × Client
with_account client (r, a) = (r, record client { account = a })

abbrev pub authorize : Result QByteArray → Exec Client Unit
authorize (ok serialized) client =
    with_account client (set_mtp_authorization serialized client.account)
authorize (err e) client = (err e, client)

-- What the file of an account is read as
abbrev pub from_file : {A : Type 0} → Exec QDataStream A → Result FileReadDescriptor → Result A
from_file m (ok file) = (m file.stream).0
from_file m (err e) = err e

-- `except OpenTeleException: pass`, and the configuration that is returned then. The one that was
-- read is kept as the client's own.
unfoldable pub configured : Result Config → Exec Client Config
configured (ok config) client =
    (ok config, record client { storage = record client.storage { config = config } })
configured (err e) client =
    if is_open_tele e then (ok (new_config production), client) else (err e, client)

abbrev pub config_of : Result QByteArray → Result Config
config_of (ok serialized) = from_serialized serialized
config_of (err e) = err e

module _ (c : Crypto) (disk : Disk) where
  -- The folder of the account, and its name
  abbrev pub part : Client → List ℕ
  part client = to_file_part client.storage.data_name_key

  -- `readMtpData`, with the local key
  unfoldable pub read_mtp_data : AuthKey → Exec Client Unit
  unfolding read_authorization
  read_mtp_data key client =
      authorize (from_file read_authorization (read_encrypted_file c (part client) disk.base key))
        client

  -- `readMtpConfig`, with the local key
  abbrev pub config_with : Option AuthKey → Exec Client Config
  config_with none client = (err account_auth_key_not_found, client)
  config_with (some key) client =
      configured
        (config_of (
          from_file read_config_block
            (read_encrypted_file c (codes "config") (disk.folder (part client)) key)))
        client

  -- `readMtpConfig`
  unfoldable pub read_mtp_config : Exec Client Config
  unfolding read_config_block configured
  read_mtp_config client = config_with client.storage.local_key client

  -- What follows the map in `readMapWith`: a map that cannot be read ends it, without an exception.
  -- (`none` is the map's fuel at its end, which does not happen.)
  abbrev pub after_map : AuthKey → Result (Option MapData) → Exec Client Unit
  after_map key (ok (some m)) client =
      read_mtp_data key (record client { storage = record client.storage { map_data = m } })
  after_map key (ok none) client = (ok tt, client)
  after_map key (err e) client = if is_open_tele e then (ok tt, client) else (err e, client)

  -- `readMapWith`
  unfoldable pub read_map_with : Bool → AuthKey → Exec Client Unit
  unfolding read_mtp_data
  read_map_with lenient key client =
      after_map key (read_map_file c lenient (some key) ByteArray.empty (disk.folder (part client)))
        client

  -- `start`, and `Account.prepareToStart`
  unfoldable pub start : Bool → AuthKey → Exec Client Config
  unfolding read_map_with read_mtp_config
  start lenient key client =
      (read_map_with lenient key >> read_mtp_config)
        (record client { storage = record client.storage { local_key = some key } })
