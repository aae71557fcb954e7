-- ===== src/Examples/Load.antt =====
-- The theorems about the load of a client at a concrete disk.
use opentele.Prelude.{
  ℕ, ◌+◌, ◌^◌, ◌<◌, ◌≡◌, ◌≢◌, refl, sym, ap, ◌∙◌, true, false, some, none, List, [], ◌∷◌, length,
  arith, replicate, beq_list,
}
use opentele.Prelude.Int.{pos}
use opentele.Prelude.Codes.{codes}
use opentele.Exception.{err, t_file_not_found, ok, ◌>>=◌}
use opentele.Bytes.{from_little_endian, big_endian}
use opentele.Auth.{AuthKey}
use opentele.Account
use opentele.MapData
use opentele.MapData.File.{read as read_map_file, read_ends, write_map_file-saved}
use opentele.MapData.RoundTrip.{kept}
use opentele.Qt.ByteArray
use opentele.Qt.ByteArray.{of_bytes}
use opentele.Mtp.{production}
use opentele.Mtp.Config.{new_config}
use opentele.Mtp.Config.Read.{from_serialized}
use opentele.Mtp.Config.Reload.{from_serialized-serialize-emptied}
use opentele.Mtp.Layout.{listed}
use opentele.Storage.Names.{
  to_file_part, file_part, hex_digit, compute_data_name_key, compose_data_string, encode_utf8,
  utf8_char,
}
use opentele.Storage.File.Reload.{saved, saved-HasFile}
use opentele.StorageAccount.{Disk, Client, new_storage, new_client}
use opentele.StorageAccount.Read.{configured}
use opentele.StorageAccount.Start.{HasAccount, restored, start-HasAccount}
use opentele.StorageAccount.Reload.{
  IsStorableClient, after_files, after_files-HasAccount, saved-HasAccount,
}
use opentele.TDesktop.{TDesktop}
use opentele.TDesktop.Load.{key_name, load_from_tdata}
use opentele.TDesktop.Invariant.{IsInOrder, load_from_tdata-IsInOrder}
use opentele.TDesktop.Missing.{load_from_tdata-IsMissing}
use opentele.TDesktop.Accounts.{Loads, with_entries}
use opentele.Prelude.{length-append, length-replicate, ◌++◌}
use opentele.Qt.Session.Blobs.{qbytearray_bytes}
use opentele.Storage.Names.{create_local_key}
use opentele.Storage.Sealed.{length-sealed}
use opentele.StorageAccount.Start.{length-qbytearray_bytes}
use opentele.TDesktop.Reload.{
  info_bytes, generated_key, key_file_bytes, encrypted_key, encrypted_info, with_keys, with_active,
  HasClient, load_from_tdata-HasClient,
}
use opentele.Examples.{
  sample_crypto, sample_laws, sample_map, sample_map-IsStorable, sample_size, sample_file_key,
  sample_account, sample_account-IsStorableAccount, sample_folder,
}
use opentele.Examples.Mtp.{sample_emptied, domain_bytes, txt_bytes, sample_fields}
use opentele.Examples.Desktop.{
  sample_client, sample_config_bytes, sample_disk, sample_client-IsStorableClient,
}

read_ends_example : read_map_file sample_crypto true none ByteArray.empty sample_folder ≢ ok none
read_ends_example = read_ends sample_crypto true none ByteArray.empty sample_folder

abbrev key_bytes : List ℕ
key_bytes = replicate 256 7

abbrev local_key : AuthKey
local_key = generated_key key_bytes

-- The name key of the key file "data"
abbrev name_key : ℕ
name_key = from_little_endian (replicate 16 4)

abbrev saved_client : Client
saved_client = record sample_client {
  storage = record sample_client.storage { data_name_key = name_key; local_key = some local_key };
}

abbrev fresh_client : Client
fresh_client = record {
  account = Account.initial;
  storage = record {
    key_file = codes "data";
    data_name_key = name_key;
    local_key = none;
    map_data = MapData.initial;
    config = new_config production;
  };
  index = 0;
}

saved_client-IsStorableClient :
    IsStorableClient saved_client (2 ^ 33 + 1) local_key sample_file_key sample_config_bytes
saved_client-IsStorableClient =
    let h = sample_client-IsStorableClient in
    record {
      local_key = refl;
      account = h.account;
      main = h.main;
      account_short = h.account_short;
      map_data = h.map_data;
      map_short = h.map_short;
      serialized = h.serialized;
      config_short = h.config_short;
    }

fresh_made : new_client sample_crypto (codes "data") 0 ≡ ok fresh_client
unfolding new_client new_storage compute_data_name_key compose_data_string encode_utf8 utf8_char
fresh_made = refl

config_read : from_serialized (of_bytes sample_config_bytes) ≡ ok sample_emptied
unfolding listed
config_read =
    sym (ap (λ r. r >>= from_serialized) (saved_client-IsStorableClient.serialized))
    ∙ from_serialized-serialize-emptied sample_emptied domain_bytes txt_bytes sample_fields refl

-- The client that the files hold
abbrev loaded_client : Client
loaded_client =
    let r = restored sample_account sample_file_key (kept sample_map) local_key fresh_client in
    record r { storage = record r.storage { config = sample_emptied } }

abbrev map_file : List ℕ
map_file =
    (write_map_file-saved sample_crypto false local_key ByteArray.empty sample_map sample_folder
      sample_laws sample_map-IsStorable (omega (arith, sample_size)) refl).0

abbrev account_disk : Disk
account_disk =
    after_files sample_crypto saved_client (2 ^ 33 + 1) local_key sample_file_key
      sample_config_bytes sample_laws saved_client-IsStorableClient name_key map_file sample_disk

abbrev key_file : List ℕ
key_file = key_file_bytes sample_crypto [] (1 ∷ 2 ∷ []) key_bytes ((0, loaded_client) ∷ []) (pos 0)

abbrev client_disk : Disk
client_disk = record account_disk {
  base = saved sample_crypto (key_name (codes "data")) key_file account_disk.base;
}

account_there :
    HasAccount sample_crypto false local_key
      (to_file_part name_key)
      sample_account
      (kept sample_map)
      sample_config_bytes
      client_disk
unfolding to_file_part file_part hex_digit from_little_endian beq_list
account_there =
    saved-HasAccount sample_crypto false local_key (to_file_part name_key) (key_name (codes "data"))
      key_file sample_account (kept sample_map) sample_config_bytes account_disk refl
      (after_files-HasAccount sample_crypto saved_client (2 ^ 33 + 1) local_key sample_file_key
        sample_config_bytes sample_laws saved_client-IsStorableClient false name_key map_file
        sample_disk
        ((write_map_file-saved sample_crypto false local_key ByteArray.empty sample_map
          sample_folder sample_laws sample_map-IsStorable (omega (arith, sample_size)) refl).2))

account-Loads : Loads sample_crypto false client_disk local_key (codes "data") 0 loaded_client
unfolding configured
account-Loads = record {
  small = omega arith;
  fresh = fresh_client;
  made = fresh_made;
  read_config = sample_emptied;
  started =
      start-HasAccount sample_crypto false local_key sample_file_key sample_account (2 ^ 33 + 1)
        (kept sample_map) sample_config_bytes client_disk sample_laws
        sample_account-IsStorableAccount (saved_client-IsStorableClient.main) fresh_client
        account_there
      ∙ ap
          (λ r.
            configured r
              (restored sample_account sample_file_key (kept sample_map) local_key fresh_client))
          config_read;
  is_ready = refl;
}

abbrev sample_entries : List (ℕ × Client)
sample_entries = (0, loaded_client) ∷ []

abbrev passcode_key : AuthKey
passcode_key = create_local_key sample_crypto (of_bytes (1 ∷ 2 ∷ [])) (of_bytes [])

info_length : length (info_bytes sample_entries (pos 0)) ≡ 12
unfolding big_endian
info_length = refl

key_small : length (encrypted_key sample_crypto [] (1 ∷ 2 ∷ []) key_bytes) < length key_bytes + 64
key_small =
    length-sealed sample_crypto passcode_key [] key_bytes sample_laws
      (omega (arith, length-replicate {A = ℕ} 256 7))

info_small :
    length (encrypted_info sample_crypto key_bytes sample_entries (pos 0))
    < length (info_bytes sample_entries (pos 0)) + 64
info_small =
    length-sealed sample_crypto local_key [] (info_bytes sample_entries (pos 0)) sample_laws
      (omega (arith, info_length))

abbrev sample_desktop : TDesktop
sample_desktop = record {
  accounts = [];
  key_file = codes "data";
  passcode = [];
  passcode_bytes = [];
  main_account = none;
  active_index = pos 7;
  passcode_key = none;
  passcode_key_salt = ByteArray.empty;
  passcode_key_encrypted = ByteArray.empty;
  local_key = none;
  app_version = none;
  is_loaded = false;
}

abbrev encrypted_key_bytes : List ℕ
encrypted_key_bytes = encrypted_key sample_crypto [] (1 ∷ 2 ∷ []) key_bytes

abbrev encrypted_info_bytes : List ℕ
encrypted_info_bytes = encrypted_info sample_crypto key_bytes sample_entries (pos 0)

key_file_short : length key_file < 2 ^ 32
key_file_short =
    let salt : List ℕ = 1 ∷ 2 ∷ [] in
    let key_block = qbytearray_bytes (of_bytes encrypted_key_bytes) in
    let info_block = qbytearray_bytes (of_bytes encrypted_info_bytes) in
    omega (
      arith,
      length-append (qbytearray_bytes (of_bytes salt)) (key_block ++ info_block),
      length-append key_block info_block,
      length-qbytearray_bytes salt,
      length-qbytearray_bytes encrypted_key_bytes,
      length-qbytearray_bytes encrypted_info_bytes,
      key_small,
      info_small,
      info_length,
      length-replicate {A = ℕ} 256 7,
    )

client_there :
    HasClient sample_crypto false client_disk []
      (codes "data")
      (1 ∷ 2 ∷ [])
      key_bytes
      sample_entries
      (pos 0)
client_there = record {
  some_there = omega arith;
  at_most = omega arith;
  loads = (account-Loads, tt);
  active_fits = (omega arith, omega arith);
  key_size = length-replicate {A = ℕ} 256 7;
  salt_short = omega arith;
  key_short = omega (arith, key_small, length-replicate {A = ℕ} 256 7);
  info_short = omega (arith, info_small, info_length);
  file_short = key_file_short;
  file_there = saved-HasFile sample_crypto (key_name (codes "data")) key_file account_disk.base;
}

load_from_tdata-HasClient_example :
    load_from_tdata sample_crypto false client_disk sample_desktop ≡ (
      ok tt,
      with_active (pos 0) (
          with_entries sample_entries
            (with_keys sample_crypto (1 ∷ 2 ∷ []) key_bytes sample_desktop)),
    )
load_from_tdata-HasClient_example =
    load_from_tdata-HasClient sample_crypto false client_disk (1 ∷ 2 ∷ []) key_bytes sample_entries
      (pos 0) sample_desktop sample_laws client_there

load_from_tdata-IsInOrder_example :
    IsInOrder (load_from_tdata sample_crypto false client_disk sample_desktop).1
load_from_tdata-IsInOrder_example =
    load_from_tdata-IsInOrder sample_crypto false client_disk sample_desktop (
      ap (λ r. r.0)
        (load_from_tdata-HasClient sample_crypto false client_disk (1 ∷ 2 ∷ []) key_bytes
          sample_entries (pos 0) sample_desktop sample_laws client_there))

-- A client that has loaded, with its account
abbrev loaded_desktop : TDesktop
loaded_desktop = record sample_desktop { accounts = loaded_client ∷ []; is_loaded = true }

load_from_tdata-IsMissing_example :
    load_from_tdata sample_crypto false sample_disk loaded_desktop
    ≡ (err t_file_not_found, record loaded_desktop { accounts = [] })
load_from_tdata-IsMissing_example =
    load_from_tdata-IsMissing sample_crypto false sample_disk loaded_desktop
      (refl, (refl, (refl, tt)))
