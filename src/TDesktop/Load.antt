-- ===== src/TDesktop/Load.antt =====
-- `TDesktop.LoadTData` of src/td/tdesktop.py, with `__loadFromTData`. What was set before an exception
-- stays set.
use opentele.Prelude.{
  ℕ, zero, suc, ◌/◌, Bool, true, false, not, ◌&&◌, Option, none, some, List, [], ◌∷◌, ◌++◌, ltb,
  if◌then◌else◌, length,
}
use Prim.Native.Nat.{min}
use opentele.Prelude.Int.{ℤ, pos, negsuc, pos_part, ◌==ℤ◌}
use opentele.Prelude.Codes.{codes}
use opentele.Exception.{Result, ok, err, is_open_tele, open_tele_exception}
use opentele.Exec.{Exec, pure, raise, lift, gets, modify, ◌>>=◌, ◌>>◌}
use opentele.Crypto.{Crypto}
use opentele.Auth.{AuthKey, generated, from_stream}
use opentele.Qt.ByteArray.{QByteArray, of_bytes}
use opentele.Qt.DataStream
use opentele.Qt.DataStream.{QDataStream}
use opentele.Qt.Primitive.{read_int32}
use opentele.MapData.Blocks.{read_three}
use opentele.Mtp.Config.{Config}
use opentele.Storage.Local.{decrypt_local}
use opentele.Storage.Names.{create_local_key}
use opentele.Storage.File.Read.{read_file}
use opentele.StorageAccount.{Disk, Client, new_client}
use opentele.StorageAccount.Read.{start}
use opentele.TDesktop.{TDesktop, choose_key_file, set_passcode}

-- `TDesktop.kMaxAccounts`
abbrev pub k_max_accounts : ℕ
k_max_accounts = 6

-- The name of the key file
abbrev pub key_name : List ℕ → List ℕ
key_name key_file = codes "key_" ++ key_file

-- The guards of the count of accounts
unfoldable pub check_count : ℤ → ℕ → Result (Unit {0})
check_count (negsuc n) available = err open_tele_exception
check_count (pos n) available =
    if ltb 0 n && not (ltb (min k_max_accounts (available / 4)) n)
    then ok tt
    else err open_tele_exception

-- `0 <= index < kMaxAccounts`
abbrev pub is_index : ℤ → Bool
is_index (pos n) = ltb n k_max_accounts
is_index (negsuc n) = false

-- An account that was started goes into the list if it is loaded; one that could not be started
-- does not.
abbrev pub keep_started : Result Config × Client → Exec TDesktop Unit
keep_started (ok config, client) t =
    if client.account.is_loaded
    then (ok tt, record t { accounts = t.accounts ++ client ∷ [] })
    else (ok tt, t)
keep_started (err e, client) t = if is_open_tele e then (ok tt, t) else (err e, t)

-- The first account with that index
unfoldable pub find_account : ℤ → List Client → Option Client
find_account index [] = none
find_account index (client ∷ clients) =
    if pos client.index ==ℤ index then some client else find_account index clients

abbrev pub or_first : Option Client → List Client → Option Client
or_first (some client) clients = some client
or_first none [] = none
or_first none (client ∷ clients) = some client

abbrev pub or_else : Option Client → Option Client → List Client → Option Client
or_else (some client) before clients = some client
or_else none before clients = or_first before clients

-- The main account: the one with the active index, or the one that was there, or the first.
unfoldable pub choose_main : Option Client → ℤ → List Client → Option Client
unfolding find_account
choose_main before index clients = or_else (find_account index clients) before clients

-- `if not info.stream.atEnd()`
unfoldable pub read_active : QDataStream → Result ℤ
read_active s = if DataStream.at_end s then ok (pos 0) else (read_int32 s).0

module _ (c : Crypto) (lenient : Bool) (disk : Disk) where
  abbrev pub start_client : AuthKey → Result Client → Exec TDesktop Unit
  start_client key (ok client) t = keep_started (start c disk lenient key client) t
  start_client key (err e) t = if is_open_tele e then (ok tt, t) else (err e, t)

  -- The account with that index, in a round of the loop
  unfoldable pub load_account : AuthKey → ℤ → Exec TDesktop Unit
  load_account key index t =
      if is_index index
      then start_client key (new_client c t.key_file (pos_part index)) t
      else (ok tt, t)

  abbrev pub next_account :
      (QDataStream → Exec TDesktop QDataStream)
      → AuthKey
      → Result ℤ × QDataStream
      → Exec TDesktop QDataStream
  next_account rest key (ok index, s) = load_account key index >> rest s
  next_account rest key (err e, s) = raise e

  -- The loop over the accounts, from the stream of their indices
  unfoldable pub load_accounts : ℕ → AuthKey → QDataStream → Exec TDesktop QDataStream
  unfolding load_account
  load_accounts zero key s = pure s
  load_accounts (suc n) key s = next_account (load_accounts n key) key (read_int32 s)

  -- The active index and the main account, behind the accounts
  abbrev pub finish_load : QDataStream → Exec TDesktop Unit
  finish_load s = do
    accounts ← gets (λ t. t.accounts)
    if ltb 0 (length accounts) then pure tt else raise open_tele_exception
    active ← lift (read_active s)
    modify (λ t. record t {
      active_index = active;
      main_account = choose_main t.main_account active t.accounts;
      is_loaded = true;
    })

  -- The accounts, from their count on
  abbrev pub load_counted : AuthKey → Result ℤ × QDataStream → Exec TDesktop Unit
  load_counted key (ok count, s) = do
    lift (check_count count (DataStream.bytes_available s))
    behind ← load_accounts (pos_part count) key s
    finish_load behind
  load_counted key (err e, s) = raise e

  -- From the local key on: the encrypted information about the accounts.
  unfoldable pub load_info : AuthKey → QByteArray → Exec TDesktop Unit
  unfolding load_accounts check_count read_active choose_main
  load_info key info_encrypted = do
    info ← lift (decrypt_local c info_encrypted key)
    load_counted key (read_int32 info.stream)

  -- From the three arrays of the key file on
  unfoldable pub load_key : ℕ → QByteArray × QByteArray × QByteArray → Exec TDesktop Unit
  unfolding load_info
  load_key version (salt, key_encrypted, info_encrypted) = do
    passcode_bytes ← gets (λ t. t.passcode_bytes)
    modify (λ t. record t {
      app_version = some version;
      passcode_key = some (create_local_key c salt (of_bytes passcode_bytes));
    })
    inner ← lift (decrypt_local c key_encrypted (create_local_key c salt (of_bytes passcode_bytes)))
    key ← lift (from_stream generated (pos 0) inner.stream).0
    modify (λ t. record t {
      local_key = some key;
      passcode_key_encrypted = key_encrypted;
      passcode_key_salt = salt;
    })
    load_info key info_encrypted

  -- `__loadFromTData`
  unfoldable pub load_from_tdata : Exec TDesktop Unit
  unfolding load_key
  load_from_tdata = do
    modify (λ t. record t { accounts = [] })
    key_file ← gets (λ t. t.key_file)
    key_data ← lift (read_file c (key_name key_file) disk.base)
    parts ← lift (read_three key_data.stream).0
    load_key key_data.version parts

  -- `LoadTData`. What it raises in place of a `TDataBadDecryptKey` is one again.
  unfoldable pub load_tdata : Option (List ℕ) → Option (List ℕ) → Exec TDesktop Unit
  unfolding load_from_tdata choose_key_file set_passcode
  load_tdata passcode key_file = do
    modify (choose_key_file key_file)
    set_passcode passcode
    load_from_tdata
    loaded ← gets (λ t. t.is_loaded)
    if loaded then pure tt else raise open_tele_exception
