-- ===== src/StorageAccount/Index.antt =====
-- `start` of an account keeps its index.
use opentele.Prelude.{◌≡◌, refl, ◌∙◌, Bool, Option, none, some, Bool-cases, inl, inr}
use opentele.Exception.{Result, ok, err, is_open_tele}
use opentele.Exec.{continue, ◌>>=◌}
use opentele.Crypto.{Crypto}
use opentele.Auth.{AuthKey}
use opentele.Qt.ByteArray.{QByteArray}
use opentele.MapData.{MapData}
use opentele.MapData.File.{read as read_map_file}
use opentele.Qt.ByteArray
use opentele.Storage.Names.{to_file_part}
use opentele.Mtp.Config.{Config}
use opentele.StorageAccount.{Disk, Client}
use opentele.StorageAccount.Read.{
  authorize, configured, read_mtp_data, read_mtp_config, config_with, after_map, read_map_with,
  start,
}

authorize-index :
    (r : Result QByteArray) (client : Client) → (authorize r client).1.index ≡ client.index
authorize-index (ok serialized) client = refl
authorize-index (err e) client = refl

configured-index :
    (r : Result Config) (client : Client) → (configured r client).1.index ≡ client.index
unfolding configured
configured-index (ok config) client = refl
configured-index (err e) client = elim (Bool-cases (is_open_tele e)) [
  | inl caught ↦ rw caught refl
  | inr raised ↦ rw raised refl
]

module _ (c : Crypto) (disk : Disk) where
  config_with-index :
      (key : Option AuthKey) (client : Client)
      → (config_with c disk key client).1.index ≡ client.index
  config_with-index none client = refl
  config_with-index (some key) client = configured-index _ client

  after_map-index :
      (key : AuthKey) (r : Result (Option MapData)) (client : Client)
      → (after_map c disk key r client).1.index ≡ client.index
  unfolding read_mtp_data
  after_map-index key (ok (some m)) client = authorize-index _ _
  after_map-index key (ok none) client = refl
  after_map-index key (err e) client = elim (Bool-cases (is_open_tele e)) [
    | inl caught ↦ rw caught refl
    | inr raised ↦ rw raised refl
  ]

  continue-index :
      (r : Result (Unit {0}) × Client)
      → (continue (λ u. read_mtp_config c disk) r).1.index ≡ r.1.index
  unfolding read_mtp_config
  continue-index (ok u, client) = config_with-index client.storage.local_key client
  continue-index (err e, client) = refl

  pub start-index :
      (lenient : Bool) (key : AuthKey) (client : Client)
      → (start c disk lenient key client).1.index ≡ client.index
  unfolding start read_map_with ◌>>=◌
  start-index lenient key client =
      let begun : Client = record client {
        storage = record client.storage { local_key = some key };
      } in
      let read =
        read_map_file c lenient (some key) ByteArray.empty
          (disk.folder (to_file_part client.storage.data_name_key)) in
      continue-index (after_map c disk key read begun) ∙ after_map-index key read begun
