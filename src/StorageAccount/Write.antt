-- ===== src/StorageAccount/Write.antt =====
-- `StorageAccount._writeData` of src/td/account.py, and the writes it makes. A write that raises leaves
-- on the disk what was written before.
use opentele.Prelude.{ℕ, ◌+◌, false, Option, none, some, List, beq_list, if◌then◌else◌}
use opentele.Prelude.Codes.{codes}
use opentele.Exception.{Result, ok, err, open_tele_exception}
use opentele.Exec.{Exec, ◌>>◌}
use opentele.Crypto.{Crypto}
use opentele.Auth.{AuthKey}
use opentele.Account.{serialize_mtp_authorization}
use opentele.Qt.ByteArray.{QByteArray}
use opentele.Qt.DataStream.{QDataStream}
use opentele.Qt.Primitive.{write_int32}
use opentele.Qt.Blob.{write_qbytearray}
use opentele.MapData.Write.{bytearray_size}
use opentele.MapData.File.{write_map_file}
use opentele.Mtp.Config.Write.{serialize}
use opentele.Storage.Names.{compute_data_name_key, to_file_part}
use opentele.Storage.File.{Folder}
use opentele.Storage.Sealed.{write_sealed}
use opentele.StorageAccount.{Disk, put_folder, StorageAccount, Client}
use opentele.StorageAccount.Read.{mtp_authorization_id}

-- A file that was written, or not, in a folder of the disk or beside the folders.
unfoldable pub into_folder : List ℕ → Result Folder → Exec Disk Unit
into_folder name (ok f) disk = (ok tt, put_folder name f disk)
into_folder name (err e) disk = (err e, disk)

unfoldable pub into_base : Result Folder → Exec Disk Unit
into_base (ok f) disk = (ok tt, record disk { base = f })
into_base (err e) disk = (err e, disk)

-- The block of an authorization
unfoldable pub write_authorization_block : QByteArray → Exec QDataStream Unit
write_authorization_block serialized = do
  write_int32 mtp_authorization_id
  write_qbytearray serialized

module _ (c : Crypto) where
  -- The file of serialized bytes that were made, or not
  abbrev pub sealed_block :
      List ℕ
      → Result QByteArray
      → ℕ
      → (QByteArray → Exec QDataStream Unit)
      → AuthKey
      → Folder
      → Result Folder
  sealed_block name (ok serialized) more m key folder =
      write_sealed c name (more + bytearray_size serialized) (m serialized) key folder
  sealed_block name (err e) more m key folder = err e

  -- `writeMtpConfig` into the folder `f`
  unfoldable pub write_mtp_config : Client → Folder → Result Folder
  write_mtp_config client f = elim client.storage.local_key [
    | none ↦ err open_tele_exception
    | some key ↦
        sealed_block (codes "config") (serialize client.storage.config) 0 write_qbytearray key f
  ]

  -- `writeMtpData` into the folder `f`
  unfoldable pub write_mtp_data : Client → ℕ → Folder → Result Folder
  write_mtp_data client data_name_key f = elim client.storage.local_key [
    | none ↦ err open_tele_exception
    | some key ↦
        sealed_block (to_file_part data_name_key) (serialize_mtp_authorization client.account) 4
          write_authorization_block key f
  ]

  -- The three files of an account, on a little-endian host.
  unfoldable pub write_files : Client → ℕ → Exec Disk Unit
  unfolding into_folder into_base write_mtp_config write_mtp_data
  write_files client data_name_key =
      let name = to_file_part data_name_key in
      (λ disk.
        into_folder name
          (write_map_file c false client.storage.local_key client.storage.map_data
            (disk.folder name))
          disk)
      >> ((λ disk. into_folder name (write_mtp_config client (disk.folder name)) disk)
          >> (λ disk. into_base (write_mtp_data client data_name_key disk.base) disk))

  -- Whether another key file is asked for
  abbrev pub other_key_file : Option (List ℕ) → StorageAccount → Option (List ℕ)
  other_key_file none s = none
  other_key_file (some key_file) s = if beq_list s.key_file key_file then none else some key_file

  -- The key of the data name in `_writeData`; the account remembers the key file, and not the key.
  abbrev pub name_key : Option (List ℕ) → StorageAccount → Result ℕ
  name_key none s = ok s.data_name_key
  name_key (some key_file) s = compute_data_name_key c key_file

  abbrev pub renamed : Option (List ℕ) → StorageAccount → StorageAccount
  renamed none s = s
  renamed (some key_file) s = record s { key_file = key_file }

  abbrev pub write_under : Client → Result ℕ → Exec Disk Unit
  write_under client (ok data_name_key) disk = write_files client data_name_key disk
  write_under client (err e) disk = (err e, disk)

  -- `_writeData`: what it does to the disk and to the account
  unfoldable pub write_data : Option (List ℕ) → Client → Disk → Result (Unit {0}) × (Disk × Client)
  unfolding write_files
  write_data key_file client disk =
      let other = other_key_file key_file client.storage in
      let (r, after) = write_under client (name_key other client.storage) disk in
      (r, (after, record client { storage = renamed other client.storage }))
