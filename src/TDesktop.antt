-- ===== src/TDesktop.antt =====
-- `TDesktop` of src/td/tdesktop.py: the key file, the list of accounts, and the passcode.
pub mod Performance
pub mod Streams
pub mod Load
pub mod Save
pub mod Accounts
pub mod Reload
pub mod Leaves
pub mod Invariant
pub mod Missing
use opentele.Prelude.{
  ℕ, Bool, true, false, Option, none, some, List, [], ◌∷◌, ◌++◌, beq_list, if◌then◌else◌,
}
use opentele.Prelude.Int.{ℤ, negsuc}
use opentele.Prelude.Codes.{codes}
use opentele.Exception.{Exception, Result, ok, err, open_tele_exception, ◌>>=◌}
use opentele.Auth.{AuthKey}
use opentele.Qt.ByteArray
use opentele.Qt.ByteArray.{QByteArray}
use opentele.Storage.Names.{encode_utf8}
use opentele.StorageAccount.{Client, set_local_key}

-- The state of a client. The salt and the encrypted key have no value before the first load or save,
-- and nothing reads them then.
pub record TDesktop : Type 0 where
  pub accounts : List Client
  pub key_file : List ℕ
  pub passcode : List ℕ
  pub passcode_bytes : List ℕ
  pub main_account : Option Client
  pub active_index : ℤ
  pub passcode_key : Option AuthKey
  pub passcode_key_salt : QByteArray
  pub passcode_key_encrypted : QByteArray
  pub local_key : Option AuthKey
  pub app_version : Option ℕ
  pub is_loaded : Bool

-- `kDefaultKeyFile`
abbrev pub k_default_key_file : List ℕ
k_default_key_file = codes "data"

-- The fields of `TDesktop(...)` before anything is loaded, for a passcode with these bytes.
unfoldable pub new_fields : List ℕ → List ℕ → List ℕ → TDesktop
new_fields key_file passcode passcode_bytes = record {
  accounts = [];
  key_file = key_file;
  passcode = passcode;
  passcode_bytes = passcode_bytes;
  main_account = none;
  active_index = negsuc 0;
  passcode_key = none;
  passcode_key_salt = ByteArray.empty;
  passcode_key_encrypted = ByteArray.empty;
  local_key = none;
  app_version = none;
  is_loaded = false;
}

abbrev pub or_default : Option (List ℕ) → List ℕ → List ℕ
or_default none d = d
or_default (some x) d = x

-- `TDesktop(api, passcode, keyFile)` without a folder
unfoldable pub new_desktop : Option (List ℕ) → Option (List ℕ) → Result TDesktop
unfolding new_fields
new_desktop passcode key_file = do
  bytes ← encode_utf8 (or_default passcode [])
  ok (new_fields (or_default key_file k_default_key_file) (or_default passcode []) bytes)

-- `keyFile is not None and self.__keyFile != keyFile` and then the assignment
unfoldable pub choose_key_file : Option (List ℕ) → TDesktop → TDesktop
choose_key_file none t = t
choose_key_file (some key_file) t = record t { key_file = key_file }

-- Whether a passcode is given that is not the client's
abbrev pub is_new_passcode : Option (List ℕ) → TDesktop → Bool
is_new_passcode none t = false
is_new_passcode (some passcode) t = if beq_list t.passcode passcode then false else true

-- The assignment of the passcode and of its bytes: an encoding that raises leaves the old bytes.
abbrev pub with_bytes : TDesktop → Result (List ℕ) → Result (Unit {0}) × TDesktop
with_bytes t (ok bytes) = (ok tt, record t { passcode_bytes = bytes })
with_bytes t (err e) = (err e, t)

unfoldable pub set_passcode : Option (List ℕ) → TDesktop → Result (Unit {0}) × TDesktop
set_passcode none t = (ok tt, t)
set_passcode (some passcode) t =
    if beq_list t.passcode passcode
    then (ok tt, t)
    else with_bytes (record t { passcode = passcode }) (encode_utf8 passcode)

abbrev pub first_account : List Client → Option Client
first_account [] = none
first_account (client ∷ clients) = some client

abbrev pub with_first : Option Client → List Client → Option Client
with_first (some main) clients = some main
with_first none clients = first_account clients

-- The list behind which the account stands, and the main account where there was none.
abbrev pub with_accounts : List Client → TDesktop → TDesktop
with_accounts accounts t = record t {
  accounts = accounts;
  main_account = with_first t.main_account accounts;
}

-- `_addSingleAccount`
unfoldable pub add_single_account : Client → TDesktop → Result (Unit {0}) × TDesktop
add_single_account client t =
    if client.account.is_loaded
    then (ok tt, with_accounts (t.accounts ++ set_local_key t.local_key client ∷ []) t)
    else (err open_tele_exception, t)
