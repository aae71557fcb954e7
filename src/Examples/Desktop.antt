-- ===== src/Examples/Desktop.antt =====
-- The theorems about names, settings, accounts and clients at concrete inputs.
use opentele.Prelude.{
  ℕ, ◌+◌, ◌^◌, ◌≡◌, ◌≢◌, ◌%◌, refl, true, false, some, none, List, [], ◌∷◌, ◌++◌, arith,
}
use opentele.Prelude.Int.{mask}
use opentele.Prelude.Codes.{codes}
use opentele.Exception.{ok}
use opentele.Bytes.{big_endian}
use opentele.Account
use opentele.Account.{main_key}
use opentele.MapData
use opentele.MapData.RoundTrip.{kept}
use opentele.Qt.ByteArray.{of_bytes}
use opentele.Qt.Session.Blobs.{qbytearray_bytes}
use opentele.Mtp.{production, is_test_mode}
use opentele.Mtp.Layout.{options_bytes, listed}
use opentele.Mtp.Config.{new_config}
use opentele.Mtp.Config.Layout.{config_bytes}
use opentele.Mtp.Config.Read.{from_serialized}
use opentele.Mtp.Config.Reload.{serialize-config_bytes}
use opentele.Storage.Names.{to_file_part, compose_data_string}
use opentele.Storage.Names.FilePart.{from_file_part, from_file_part-to_file_part}
use opentele.Storage.Names.Index.{compose_data_string-injective}
use opentele.Storage.Settings.{read_setting, new_context}
use opentele.Storage.Settings.Layout.{data_centres, setting_bytes, with_setting}
use opentele.Storage.Settings.Reads.{read_setting-setting_bytes}
use opentele.Qt.Buffer.{read_only}
use opentele.Qt.Session.{reader, frame}
use opentele.StorageAccount.{Disk, Client}
use opentele.StorageAccount.Read.{configured}
use opentele.StorageAccount.Start.{restored}
use opentele.StorageAccount.Reload.{IsStorableClient, write_and_start, start-write_data}
use opentele.Examples.{
  sample_crypto, sample_laws, sample_key, sample_folder, sample_map, sample_map-IsStorable,
  sample_size, sample_file_key, sample_account, sample_account-IsStorableAccount,
}
use opentele.Examples.Mtp.{
  stored_endpoints, stored_endpoints-IsStored, stored_endpoints-short, sample_emptied, domain_bytes,
  txt_bytes, sample_fields,
}

from_file_part-to_file_part_example :
    from_file_part (to_file_part (2 ^ 70 + 77)) ≡ (2 ^ 70 + 77) % 2 ^ 64
from_file_part-to_file_part_example = from_file_part-to_file_part (2 ^ 70 + 77)

compose_data_string-injective_example :
    compose_data_string (codes "data") 0 ≢ compose_data_string (codes "data") 2
compose_data_string-injective_example =
    compose_data_string-injective (codes "data") 0 2 (λ e. absurd (omega arith))

abbrev pub sample_disk : Disk
sample_disk = record { base = sample_folder; folder = λ name. sample_folder }

abbrev pub sample_client : Client
sample_client = record {
  account = sample_account;
  storage = record {
    key_file = codes "data";
    data_name_key = 123456789;
    local_key = some sample_key;
    map_data = sample_map;
    config = sample_emptied;
  };
  index = 0;
}

-- The same account, before it is read.
abbrev pub blank_client : Client
blank_client = record {
  account = Account.initial;
  storage = record {
    key_file = codes "data";
    data_name_key = 123456789;
    local_key = none;
    map_data = MapData.initial;
    config = new_config production;
  };
  index = 0;
}

abbrev pub sample_config_bytes : List ℕ
sample_config_bytes =
    config_bytes false (options_bytes []) domain_bytes txt_bytes sample_emptied.fields

pub sample_client-IsStorableClient :
    IsStorableClient sample_client (2 ^ 33 + 1) sample_key sample_file_key sample_config_bytes
unfolding main_key big_endian mask listed qbytearray_bytes is_test_mode
sample_client-IsStorableClient = record {
  local_key = refl;
  account = sample_account-IsStorableAccount;
  main = refl;
  account_short = omega arith;
  map_data = sample_map-IsStorable;
  map_short = omega (arith, sample_size);
  serialized =
      serialize-config_bytes sample_emptied domain_bytes txt_bytes sample_fields tt (omega arith);
  config_short = omega arith;
}

start-write_data_example :
    write_and_start sample_crypto false sample_key sample_client blank_client sample_disk ≡ (
      ok tt,
      configured
          (from_serialized (of_bytes sample_config_bytes))
          (restored sample_account sample_file_key (kept sample_map) sample_key blank_client),
    )
start-write_data_example =
    start-write_data sample_crypto false sample_client blank_client (2 ^ 33 + 1) sample_key
      sample_file_key sample_config_bytes sample_disk sample_laws sample_client-IsStorableClient
      (record { map_file = refl; config_file = refl; account_file = refl }) refl

read_setting-setting_bytes_example :
    read_setting 0x4a
      (reader (frame read_only false) [] (setting_bytes (data_centres stored_endpoints) ++ 9 ∷ []))
      new_context
    ≡ (
      ok true,
      (
        reader (frame read_only false) (setting_bytes (data_centres stored_endpoints)) (9 ∷ []),
        with_setting (data_centres stored_endpoints) new_context,
      ),
    )
read_setting-setting_bytes_example =
    read_setting-setting_bytes (data_centres stored_endpoints) (frame read_only false) [] (9 ∷ [])
      new_context (stored_endpoints-IsStored, omega arith, stored_endpoints-short)
