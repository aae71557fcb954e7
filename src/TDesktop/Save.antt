-- ===== src/TDesktop/Save.antt =====
-- `TDesktop.SaveTData` of src/td/tdesktop.py, with `__writeAccounts` and `__generateLocalKey`, on a
-- little-endian host. What is on the disk before an exception stays there.
use opentele.Prelude.{
  ℕ, ◌+◌, ◌*◌, Bool, true, false, ◌&&◌, Option, none, some, List, [], ◌∷◌, ◌==◌, ltb, map,
  if◌then◌else◌, length,
}
use opentele.Prelude.Int.{pos}
use opentele.Exception.{
  Result, ok, err, is_open_tele, open_tele_exception, t_data_save_failed, ◌>>=◌,
}
use opentele.Crypto.{Crypto}
use opentele.Auth.{AuthKey, generated, k_size}
use opentele.Qt.ByteArray.{QByteArray, of_bytes}
use opentele.MapData.Descriptor.{with_stream}
use opentele.Storage.Local
use opentele.Storage.Local.{EncryptedDescriptor, new_descriptor, prepare_encrypted}
use opentele.Storage.Names.{create_local_key}
use opentele.Storage.File.{Folder}
use opentele.Storage.File.Write.{init, finish}
use opentele.StorageAccount.{Disk, Client, set_local_key}
use opentele.StorageAccount.Write.{write_data}
use opentele.TDesktop.{TDesktop, choose_key_file, set_passcode, is_new_passcode}
use opentele.TDesktop.Performance.{
  performance_local_key, performance_passcode_key_salt, performance_passcode_key,
  performance_passcode_key_encrypted,
}
use opentele.TDesktop.Load.{key_name}
use opentele.TDesktop.Streams.{write_info, write_local_key, write_key_blocks}

-- What `os.urandom` returns for a new local key: the two parts that the key is derived from, and the
-- salt of the passcode.
pub record Random : Type 0 where
  pub pass : List ℕ
  pub salt : List ℕ
  pub passcode_salt : List ℕ

abbrev generated_key : List ℕ → AuthKey
generated_key key = record { key = key; type = generated; dc_id = pos 0 }

-- The keys of the performance mode. The accounts keep theirs.
unfoldable pub use_performance_keys : TDesktop → TDesktop
use_performance_keys t = record t {
  local_key = some (generated_key performance_local_key);
  passcode_key_salt = of_bytes performance_passcode_key_salt;
  passcode_key = some (generated_key performance_passcode_key);
  passcode_key_encrypted = of_bytes performance_passcode_key_encrypted;
  is_loaded = true;
}

-- `account.localKey = self.localKey` for every account
abbrev pub with_key_everywhere : AuthKey → List Client → List Client
with_key_everywhere key clients = map (set_local_key (some key)) clients

module _ (c : Crypto) where
  -- The local key, encrypted with the key of the passcode
  unfoldable pub encrypt_local_key : AuthKey → AuthKey → Result QByteArray
  encrypt_local_key local_key passcode_key =
      with_stream (new_descriptor k_size) (write_local_key local_key (new_descriptor k_size).stream)
      >>= λ d. prepare_encrypted c (Local.finish d) passcode_key

  -- New keys from what was drawn at random. If the encryption raised, the first keys would stay.
  abbrev pub with_encrypted : TDesktop → AuthKey → Result QByteArray → Result (Unit {0}) × TDesktop
  with_encrypted t key (ok encrypted) = (
    ok tt,
    record t {
      passcode_key_encrypted = encrypted;
      accounts = with_key_everywhere key t.accounts;
      is_loaded = true;
    },
  )
  with_encrypted t key (err e) = (err e, t)

  unfoldable pub draw_keys : Random → TDesktop → Result (Unit {0}) × TDesktop
  unfolding encrypt_local_key
  draw_keys r t =
      let key = create_local_key c (of_bytes r.salt) (of_bytes r.pass) in
      let passcode_key =
        create_local_key c (of_bytes r.passcode_salt) (of_bytes t.passcode_bytes) in
      with_encrypted
        (record t {
          local_key = some key;
          passcode_key_salt = of_bytes r.passcode_salt;
          passcode_key = some passcode_key;
        })
        key (encrypt_local_key key passcode_key)

  -- `__generateLocalKey`, of a client that is not loaded
  unfoldable pub generate_local_key : Bool → Random → TDesktop → Result (Unit {0}) × TDesktop
  unfolding draw_keys use_performance_keys
  generate_local_key performance_mode r t =
      if t.is_loaded
      then (err open_tele_exception, t)
      else if performance_mode && length t.passcode_bytes == 0
      then (ok tt, use_performance_keys t)
      else draw_keys r t

  -- The key file
  abbrev pub with_info : TDesktop → AuthKey → Folder → Result EncryptedDescriptor → Result Folder
  with_info t key folder (ok info) =
      let (result, w) =
        write_key_blocks c t.passcode_key_salt t.passcode_key_encrypted info key
          (init (key_name t.key_file)) in
      result >>= λ u. finish c w folder
  with_info t key folder (err e) = err e

  unfoldable pub write_key_file : TDesktop → AuthKey → Folder → Result Folder
  write_key_file t key folder =
      let d = new_descriptor (4 + 4 * length t.accounts) in
      with_info t key folder
        (with_stream d (write_info (map (λ a. pos a.index) t.accounts) t.active_index d.stream))

  -- `for account in self.accounts: account._writeData(basePath, keyFile)`. An account that was
  -- written stands in the list as it is after that.
  abbrev pub write_next :
      (Disk → Result (Unit {0}) × (Disk × List Client))
      → List Client
      → Result (Unit {0}) × (Disk × Client)
      → Result (Unit {0}) × (Disk × List Client)
  write_next next clients (ok u, (disk, client)) =
      let (r, after) = next disk in (r, (after.0, client ∷ after.1))
  write_next next clients (err e, (disk, client)) = (err e, (disk, client ∷ clients))

  unfoldable pub write_each :
      Option (List ℕ) → List Client → Disk → Result (Unit {0}) × (Disk × List Client)
  write_each key_file [] disk = (ok tt, (disk, []))
  write_each key_file (client ∷ clients) disk =
      write_next (write_each key_file clients) clients (write_data c key_file client disk)

  abbrev pub with_key_file : TDesktop → Disk → Result Folder → Result (Unit {0}) × (Disk × TDesktop)
  with_key_file t disk (ok folder) = (ok tt, (record disk { base = folder }, t))
  with_key_file t disk (err e) = (err e, (disk, t))

  -- A client without a local key is not loaded, and does not come here.
  abbrev pub write_key :
      Option AuthKey
      → TDesktop
      → Result (Unit {0}) × (Disk × List Client)
      → Result (Unit {0}) × (Disk × TDesktop)
  write_key (some key) t (ok u, (disk, clients)) =
      with_key_file (record t { accounts = clients }) disk
        (write_key_file (record t { accounts = clients }) key disk.base)
  write_key none t (ok u, (disk, clients)) =
      (err open_tele_exception, (disk, record t { accounts = clients }))
  write_key _ t (err e, (disk, clients)) = (err e, (disk, record t { accounts = clients }))

  -- `__writeAccounts`
  unfoldable pub write_accounts :
      Option (List ℕ) → TDesktop → Disk → Result (Unit {0}) × (Disk × TDesktop)
  unfolding write_each write_key_file
  write_accounts key_file t disk =
      if ltb 0 (length t.accounts)
      then write_key t.local_key t (write_each key_file t.accounts disk)
      else (err open_tele_exception, (disk, t))

  -- `except OpenTeleException as e: raise TDataSaveFailed(...) from e`
  abbrev pub save_failed :
      Result (Unit {0}) × (Disk × TDesktop) → Result (Unit {0}) × (Disk × TDesktop)
  save_failed (ok u, w) = (ok tt, w)
  save_failed (err e, w) = (if is_open_tele e then err t_data_save_failed else err e, w)

  abbrev pub save_loaded :
      Option (List ℕ) → Disk → Result (Unit {0}) × TDesktop → Result (Unit {0}) × (Disk × TDesktop)
  save_loaded key_file disk (ok u, t) = save_failed (write_accounts key_file t disk)
  save_loaded key_file disk (err e, t) = (err e, (disk, t))

  -- A new local key, where the client is not loaded
  abbrev pub ready : Bool → Random → TDesktop → Result (Unit {0}) × TDesktop
  ready performance_mode r t =
      if t.is_loaded then (ok tt, t) else generate_local_key performance_mode r t

  -- A new passcode wants new keys.
  abbrev pub ready_with :
      Bool → Random → Bool → Result (Unit {0}) × TDesktop → Result (Unit {0}) × TDesktop
  ready_with performance_mode r new_passcode (ok u, t) =
      if new_passcode
      then ready performance_mode r (record t { is_loaded = false })
      else ready performance_mode r t
  ready_with performance_mode r new_passcode (err e, t) = (err e, t)

  -- `SaveTData`
  unfoldable pub save_tdata :
      Bool
      → Random
      → Option (List ℕ)
      → Option (List ℕ)
      → TDesktop
      → Disk
      → Result (Unit {0}) × (Disk × TDesktop)
  unfolding generate_local_key write_accounts choose_key_file set_passcode
  save_tdata performance_mode r passcode key_file t disk =
      let chosen = choose_key_file key_file t in
      save_loaded key_file disk
        (ready_with performance_mode r (is_new_passcode passcode t) (set_passcode passcode chosen))
