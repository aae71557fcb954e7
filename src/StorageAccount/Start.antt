-- ===== src/StorageAccount/Start.antt =====
-- What `start` finds in the files of an account.
use opentele.Prelude.{
  ℕ, ◌+◌, ◌-◌, ◌^◌, ◌<◌, ◌≡◌, refl, ap, ◌∙◌, Bool, true, false, none, some, List, [], ◌++◌, length,
  arith, append-nil,
}
use opentele.Prelude.Codes.{codes}
use opentele.Exception.{ok}
use opentele.Exec.{Exec, continue, ◌>>=◌}
use opentele.Crypto.{Crypto, IsCrypto}
use opentele.Auth.{AuthKey}
use opentele.Account.{Account, main_key}
use opentele.Account.Layout.{int32_bytes, authorization_bytes}
use opentele.Account.RoundTrip.{IsStorableAccount, set-bytes}
use opentele.Qt.ByteArray
use opentele.Qt.ByteArray.{QByteArray, of_bytes}
use opentele.Qt.Buffer.{read_only}
use opentele.Qt.Blob.{null_marker}
use opentele.Qt.DataStream.{QDataStream}
use opentele.Qt.Session.{Parses, Writes, frame}
use opentele.Qt.Session.Rules.{
  pure-Parses, bind-Parses, bind-Parses_last, bind-Writes, Begins-Writes,
}
use opentele.Qt.Session.Values.{read_int32-Parses, write_int32-Begins}
use opentele.Qt.Session.Blobs.{qbytearray_bytes, read_qbytearray-Parses, write_qbytearray-Begins}
use opentele.MapData.{MapData}
use opentele.MapData.File.{read as read_map_file}
use opentele.MapData.Sections.{expect_stream_status-Parses}
use opentele.Mtp.Config.Read.{from_serialized}
use opentele.Storage.Names.{to_file_part}
use opentele.Storage.File.{Folder}
use opentele.Storage.File.Read.{read_encrypted_file}
use opentele.Bytes.{little_endian, length-big_endian}
use opentele.Prelude.{length-append}
use opentele.Prelude.Int.{mask}
use opentele.Storage.File.RoundTrip.{length-block}
use opentele.StorageAccount.Read.{with_account}
use opentele.Qt.ByteArray.{size}
use opentele.Storage.Local.{whole}
use opentele.Storage.Sealed.{roomed, Holds, read_encrypted_file-Holds, found_file-stream}
use opentele.StorageAccount.{Disk, Client}
use opentele.StorageAccount.Read.{
  mtp_authorization_id, read_authorization, read_config_block, from_file, configured, read_mtp_data,
  read_mtp_config, read_map_with, start,
}
use opentele.StorageAccount.Write.{write_authorization_block}

-- The payloads of the files
abbrev pub authorization_block : List ℕ → List ℕ
authorization_block bs = int32_bytes mtp_authorization_id ++ qbytearray_bytes (of_bytes bs)

pub write_authorization_block-Writes :
    (bs : List ℕ)
    → length bs < 2 ^ 32
    → Writes (write_authorization_block (of_bytes bs)) (authorization_block bs)
unfolding write_authorization_block
write_authorization_block-Writes bs h =
    bind-Writes _ _ _ _ (Begins-Writes _ _ (write_int32-Begins mtp_authorization_id))
      (Begins-Writes _ _ (write_qbytearray-Begins (of_bytes bs) h))

read_authorization-Parses :
    (bs : List ℕ)
    → length bs < null_marker
    → Parses read_authorization (authorization_block bs) (of_bytes bs)
unfolding read_authorization
read_authorization-Parses bs h =
    bind-Parses _ _ _ _ _ _ (read_int32-Parses mtp_authorization_id (omega arith, omega arith))
      (bind-Parses _ _ [] _ _ _ (pure-Parses tt) (read_qbytearray-Parses (of_bytes bs) h))

read_config_block-Parses :
    (bs : List ℕ)
    → length bs < null_marker
    → Parses read_config_block (qbytearray_bytes (of_bytes bs)) (of_bytes bs)
unfolding read_config_block
read_config_block-Parses bs h =
    bind-Parses_last _ _ _ _ _ (read_qbytearray-Parses (of_bytes bs) h)
      (bind-Parses_last _ _ [] _ _ expect_stream_status-Parses (pure-Parses (of_bytes bs)))

-- What a read takes from a file of that payload.
from_file-Holds :
    {A : Type 0} (c : Crypto) (key : AuthKey) (name bs : List ℕ) (folder : Folder)
    (m : Exec QDataStream A) (a : A)
    → IsCrypto c
    → length bs < 2 ^ 31 - 4
    → Holds c key name bs folder
    → Parses m bs a
    → from_file m (read_encrypted_file c name folder key) ≡ ok a
from_file-Holds c key name bs folder m a laws fits holds h =
    rw (read_encrypted_file-Holds c key name bs laws fits folder holds) (
      ap (λ s. (m s).0) (found_file-stream c key name bs laws fits)
      ∙ ap (λ r. r.0)
          (rw (append-nil bs) at
            (h.at (frame read_only false) (little_endian 4 (size (whole (roomed bs)))) [])))

-- The client with what the files held.
abbrev pub restored : Account → AuthKey → MapData → AuthKey → Client → Client
restored a k m key client = record client {
  account = record a { auth_key = some k; is_loaded = true };
  storage = record client.storage { local_key = some key; map_data = m };
}

-- The files of an account are in order.
pub record HasAccount (c : Crypto) (lenient : Bool) (key : AuthKey) (name : List ℕ) (a : Account)
    (m : MapData) (config : List ℕ) (disk : Disk) : Type 0 where
  pub map_back : read_map_file c lenient (some key) ByteArray.empty (disk.folder name) ≡ ok (some m)
  pub account_there : Holds c key name (authorization_block (authorization_bytes a)) disk.base
  pub config_there :
      Holds c key (codes "config") (qbytearray_bytes (of_bytes config)) (disk.folder name)
  pub account_short : length (authorization_bytes a) < 2 ^ 31 - 100
  pub config_short : length config < 2 ^ 31 - 100

pub length-qbytearray_bytes :
    (bs : List ℕ) → length (qbytearray_bytes (of_bytes bs)) ≡ 4 + length bs
length-qbytearray_bytes bs = length-block (of_bytes bs)

pub length-authorization_block : (bs : List ℕ) → length (authorization_block bs) ≡ 8 + length bs
length-authorization_block bs = omega (
  arith,
  length-append (int32_bytes mtp_authorization_id) (qbytearray_bytes (of_bytes bs)),
  length-big_endian 4 (mask mtp_authorization_id (256 ^ 4)),
  length-qbytearray_bytes bs,
)

module _ (c : Crypto) (lenient : Bool) (key k : AuthKey) (a : Account) (user : ℕ) (m : MapData)
    (config : List ℕ) (disk : Disk) (laws : IsCrypto c) (h : IsStorableAccount a user)
    (found : main_key a.main_dc_id a.mtp_keys none ≡ some k) where
  authorized :
      (client : Client)
      → HasAccount c lenient key (to_file_part client.storage.data_name_key) a m config disk
      → read_mtp_data c disk key client
        ≡ (ok tt, record client { account = record a { auth_key = some k; is_loaded = true } })
  unfolding read_mtp_data
  authorized client there =
      let bs = authorization_bytes a in
      rw
        (from_file-Holds c key (to_file_part client.storage.data_name_key) (authorization_block bs)
          disk.base read_authorization (of_bytes bs) laws
          (omega (arith, length-authorization_block bs, there.account_short)) there.account_there
          (read_authorization-Parses bs (omega (arith, there.account_short))))
        (ap (with_account client) (set-bytes a client.account user h k found))

  config_back :
      (client : Client)
      → client.storage.local_key ≡ some key
      → HasAccount c lenient key (to_file_part client.storage.data_name_key) a m config disk
      → read_mtp_config c disk client ≡ configured (from_serialized (of_bytes config)) client
  unfolding read_mtp_config
  config_back client set there =
      rw
        (
          set,
          from_file-Holds c key (codes "config") (qbytearray_bytes (of_bytes config))
              (disk.folder (to_file_part client.storage.data_name_key)) read_config_block
              (of_bytes config) laws
              (omega (arith, length-qbytearray_bytes config, there.config_short)) there.config_there
              (read_config_block-Parses config (omega (arith, there.config_short))),
        )
        refl

  pub start-HasAccount :
      (client : Client)
      → HasAccount c lenient key (to_file_part client.storage.data_name_key) a m config disk
      → start c disk lenient key client
        ≡ configured (from_serialized (of_bytes config)) (restored a k m key client)
  unfolding start read_map_with ◌>>=◌
  start-HasAccount client there =
      let begun = record client { storage = record client.storage { local_key = some key } } in
      let mapped = record begun { storage = record begun.storage { map_data = m } } in
      rw there.map_back (
        ap (continue (λ u. read_mtp_config c disk)) (authorized mapped there)
        ∙ config_back (restored a k m key client) refl there)
