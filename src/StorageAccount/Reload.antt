-- ===== src/StorageAccount/Reload.antt =====
-- An account that was written is found again by `start`.
use opentele.Prelude.{
  ℕ, ◌-◌, ◌^◌, ◌<◌, ◌≡◌, refl, ap, ◌∙◌, Bool, true, false, none, some, List, length, arith,
  beq_list, beq_list_refl,
}
use opentele.Prelude.Codes.{codes}
use opentele.Exception.{Result, ok}
use opentele.Exec.{◌>>=◌}
use opentele.Crypto.{Crypto, IsCrypto}
use opentele.Auth.{AuthKey}
use opentele.Account.{Account, main_key}
use opentele.Account.Layout.{authorization_bytes}
use opentele.Account.RoundTrip.{IsStorableAccount, serialize-bytes}
use opentele.Qt.ByteArray
use opentele.Qt.ByteArray.{of_bytes}
use opentele.Qt.Session.Rules.{Begins-Writes}
use opentele.Qt.Session.Blobs.{qbytearray_bytes, write_qbytearray-Begins}
use opentele.MapData.{MapData}
use opentele.MapData.Write.{map_size}
use opentele.MapData.File.{map_name, write_map_file, write_map_file-saved, read as read_map_file}
use opentele.MapData.RoundTrip.{IsStorable, kept}
use opentele.Mtp.Config.{Config}
use opentele.Mtp.Config.Write.{serialize}
use opentele.Mtp.Config.Read.{from_serialized}
use opentele.Storage.Names.{to_file_part}
use opentele.Storage.File.{Folder, put, with_suffix, suffix_s}
use opentele.Storage.File.Reload.{HasFile, saved, saved-HasFile}
use opentele.Storage.Sealed.{block_of, write_sealed-eq-saved, saved_other}
use opentele.StorageAccount.{Disk, put_folder, Client}
use opentele.StorageAccount.Read.{configured, start}
use opentele.StorageAccount.Write.{
  write_files, write_mtp_config, write_mtp_data, write_data, into_folder, into_base,
}
use opentele.StorageAccount.Start.{
  authorization_block, write_authorization_block-Writes, restored, HasAccount,
  length-qbytearray_bytes, length-authorization_block, start-HasAccount,
}

-- A client that its files can hold, with the bytes of its configuration.
pub record IsStorableClient (s : Client) (user : ℕ) (key k : AuthKey) (config : List ℕ)
    : Type 0 where
  pub local_key : s.storage.local_key ≡ some key
  pub account : IsStorableAccount s.account user
  pub main : main_key s.account.main_dc_id s.account.mtp_keys none ≡ some k
  pub account_short : length (authorization_bytes s.account) < 2 ^ 31 - 100
  pub map_data : IsStorable s.storage.map_data
  pub map_short : map_size s.storage.map_data < 2 ^ 31
  pub serialized : serialize s.storage.config ≡ ok (of_bytes config)
  pub config_short : length config < 2 ^ 31 - 100

-- The files of an account can be written.
pub record IsWritable (name : List ℕ) (disk : Disk) : Type 0 where
  pub map_file : (disk.folder name).is_writable (with_suffix map_name suffix_s) ≡ true
  pub config_file : (disk.folder name).is_writable (with_suffix (codes "config") suffix_s) ≡ true
  pub account_file : disk.base.is_writable (with_suffix name suffix_s) ≡ true

module _ (c : Crypto) (s : Client) (user : ℕ) (key k : AuthKey) (config : List ℕ)
    (laws : IsCrypto c) (h : IsStorableClient s user key k config) where
  config-saved :
      (f : Folder)
      → f.is_writable (with_suffix (codes "config") suffix_s) ≡ true
      → write_mtp_config c s f
        ≡ ok (saved c (codes "config") (block_of c key (qbytearray_bytes (of_bytes config))) f)
  unfolding write_mtp_config
  config-saved f writable =
      rw (h.local_key, h.serialized)
        (write_sealed-eq-saved c key (codes "config") (qbytearray_bytes (of_bytes config)) _ _ f
          laws (omega (arith, length-qbytearray_bytes config, h.config_short)) (omega arith)
          (Begins-Writes _ _
            (write_qbytearray-Begins (of_bytes config) (omega (arith, h.config_short))))
          writable)

  account-saved :
      (data_name_key : ℕ) (f : Folder)
      → f.is_writable (with_suffix (to_file_part data_name_key) suffix_s) ≡ true
      → write_mtp_data c s data_name_key f
        ≡ ok (
            saved c
              (to_file_part data_name_key)
              (block_of c key (authorization_block (authorization_bytes s.account)))
              f)
  unfolding write_mtp_data
  account-saved data_name_key f writable =
      let bs = authorization_bytes s.account in
      rw (h.local_key, serialize-bytes s.account h.account.loaded)
        (write_sealed-eq-saved c key (to_file_part data_name_key) (authorization_block bs) _ _ f
          laws (omega (arith, length-authorization_block bs, h.account_short)) (omega arith)
          (write_authorization_block-Writes bs (omega (arith, h.account_short))) writable)

  -- The disk with the three files.
  unfoldable pub after_files : (data_name_key : ℕ) (bytes : List ℕ) → Disk → Disk
  after_files data_name_key bytes disk =
      let name = to_file_part data_name_key in
      let f = saved c map_name bytes (disk.folder name) in
      let g = saved c (codes "config") (block_of c key (qbytearray_bytes (of_bytes config))) f in
      record (put_folder name g (put_folder name f disk)) {
        base =
            saved c name (block_of c key (authorization_block (authorization_bytes s.account)))
              disk.base;
      }

  at_folder : (name : List ℕ) (f : Folder) (disk : Disk) → (put_folder name f disk).folder name ≡ f
  unfolding put_folder
  at_folder name f disk = rw (beq_list_refl name) refl

  write_files-after :
      (data_name_key : ℕ) (bytes : List ℕ) (disk : Disk)
      → IsWritable (to_file_part data_name_key) disk
      → write_map_file c false s.storage.local_key s.storage.map_data
          (disk.folder (to_file_part data_name_key))
        ≡ ok (saved c map_name bytes (disk.folder (to_file_part data_name_key)))
      → write_files c s data_name_key disk ≡ (ok tt, after_files data_name_key bytes disk)
  unfolding write_files into_folder into_base after_files ◌>>=◌ put_folder put
  write_files-after data_name_key bytes disk writable wrote =
      let name = to_file_part data_name_key in
      let f = saved c map_name bytes (disk.folder name) in
      rw (wrote, at_folder name f disk)
        (rw (config-saved f (unfold put in writable.config_file))
          (rw (account-saved data_name_key disk.base writable.account_file) refl))

  -- The three files are there.
  pub after_files-HasAccount :
      (lenient : Bool) (data_name_key : ℕ) (bytes : List ℕ) (disk : Disk)
      → ((f : Folder)
          → HasFile c map_name bytes f
          → read_map_file c lenient (some key) ByteArray.empty f
            ≡ ok (some (kept s.storage.map_data)))
      → HasAccount c lenient key
          (to_file_part data_name_key)
          s.account
          (kept s.storage.map_data)
          config
          (after_files data_name_key bytes disk)
  unfolding after_files
  after_files-HasAccount lenient data_name_key bytes disk back =
      let name = to_file_part data_name_key in
      let f = saved c map_name bytes (disk.folder name) in
      let block = block_of c key (qbytearray_bytes (of_bytes config)) in
      let g = saved c (codes "config") block f in
      let there = at_folder name g (put_folder name f disk) in
      record {
        map_back = rw there (
            back g (
              saved_other c (codes "config") map_name block f (unfold beq_list in refl)
              ∙ saved-HasFile c map_name bytes (disk.folder name)));
        account_there = saved-HasFile c name _ disk.base;
        config_there = rw there (saved-HasFile c (codes "config") block f);
        account_short = h.account_short;
        config_short = h.config_short;
      }

-- Another file beside the account leaves it as it is.
pub saved-HasAccount :
    (c : Crypto) (lenient : Bool) (key : AuthKey) (name other done : List ℕ) (a : Account)
    (m : MapData) (config : List ℕ) (disk : Disk)
    → beq_list (with_suffix name suffix_s) (with_suffix other suffix_s) ≡ false
    → HasAccount c lenient key name a m config disk
    → HasAccount c lenient key name a m config (record disk { base = saved c other done disk.base })
saved-HasAccount c lenient key name other done a m config disk differ h = record {
  map_back = h.map_back;
  account_there = saved_other c other name done disk.base differ ∙ h.account_there;
  config_there = h.config_there;
  account_short = h.account_short;
  config_short = h.config_short;
}

-- An account is written, and another client of the same data name starts from what was written.
abbrev pub write_and_start :
    Crypto → Bool → AuthKey → Client → Client → Disk → Result (Unit {0}) × (Result Config × Client)
write_and_start c lenient key s client disk =
    let (r, after) = write_data c none s disk in (r, start c after.0 lenient key client)

-- On a little-endian host, a client with a local key, a storable map of fewer than 2 ^ 31 bytes, a
-- storable authorization with a key of the main data centre and a configuration that can be
-- serialized, the last two of fewer than 2 ^ 31 - 100 bytes, is written to files that can be
-- written; a client of the same data name that starts from them with that local key has the
-- authorization and the map as it is kept, and the configuration is what its serialized form is
-- read as, or the default one.
pub start-write_data :
    (c : Crypto) (lenient : Bool) (s client : Client) (user : ℕ) (key k : AuthKey) (config : List ℕ)
    (disk : Disk)
    → IsCrypto c
    → IsStorableClient s user key k config
    → IsWritable (to_file_part s.storage.data_name_key) disk
    → client.storage.data_name_key ≡ s.storage.data_name_key
    → write_and_start c lenient key s client disk ≡ (
      ok tt,
      configured
          (from_serialized (of_bytes config))
          (restored s.account k (kept s.storage.map_data) key client),
    )
unfolding write_data
start-write_data c lenient s client user key k config disk laws h writable same =
    let n = s.storage.data_name_key in
    let (bytes, wrote, back) =
      write_map_file-saved c lenient key ByteArray.empty s.storage.map_data
        (disk.folder (to_file_part n)) laws h.map_data h.map_short writable.map_file in
    let there = after_files-HasAccount c s user key k config laws h lenient n bytes disk back in
    rw (write_files-after c s user key k config laws h n bytes disk writable (rw h.local_key wrote))
      (ap (λ r. (ok tt, r))
        (start-HasAccount c lenient key k s.account user (kept s.storage.map_data) config
          (after_files c s user key k config laws h n bytes disk) laws h.account h.main client
          (rw same there)))
