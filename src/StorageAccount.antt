-- ===== src/StorageAccount.antt =====
-- `StorageAccount` of src/td/account.py with the `Account` that owns it: the map, the configuration and
-- the authorization in the folder of tdata, read and written.
pub mod Read
pub mod Write
pub mod Start
pub mod Index
pub mod Reload
use opentele.Prelude.{ℕ, Option, none, some, List, [], ◌∷◌, beq_list, if◌then◌else◌}
use opentele.Exception.{Result, ok, err, ◌>>=◌}
use opentele.Crypto.{Crypto}
use opentele.Auth.{AuthKey}
use opentele.Account
use opentele.Account.{Account}
use opentele.MapData
use opentele.MapData.{MapData}
use opentele.Mtp.{production}
use opentele.Mtp.Config.{Config, new_config}
use opentele.Storage.File.{Folder}
use opentele.Storage.Names.{compute_data_name_key, compose_data_string}

-- The folder of tdata: its own files, and the folders of the accounts by their names.
pub record Disk : Type 0 where
  pub base : Folder
  pub folder : List ℕ → Folder

-- The disk with another content of a folder
unfoldable pub put_folder : List ℕ → Folder → Disk → Disk
put_folder name f d = record d {
  folder = λ other. if beq_list other name then f else d.folder other;
}

pub record StorageAccount : Type 0 where
  pub key_file : List ℕ
  pub data_name_key : ℕ
  pub local_key : Option AuthKey
  pub map_data : MapData
  pub config : Config

-- An account, with its storage and its index.
pub record Client : Type 0 where
  pub account : Account
  pub storage : StorageAccount
  pub index : ℕ

module _ (c : Crypto) where
  -- `StorageAccount(owner, basePath, keyFile)`
  unfoldable pub new_storage : List ℕ → Result StorageAccount
  new_storage key_file = do
    key ← compute_data_name_key c key_file
    ok (record {
      key_file = key_file;
      data_name_key = key;
      local_key = none;
      map_data = MapData.initial;
      config = new_config production;
    })

  -- `Account(owner, basePath, api, keyFile, index)`
  unfoldable pub new_client : List ℕ → ℕ → Result Client
  unfolding new_storage
  new_client key_file index = do
    storage ← new_storage (compose_data_string key_file index)
    ok (record { account = Account.initial; storage = storage; index = index })

-- `Account.localKey = key`
unfoldable pub set_local_key : Option AuthKey → Client → Client
set_local_key key client = record client { storage = record client.storage { local_key = key } }
