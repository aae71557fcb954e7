-- ===== src/Account.antt =====
-- The authorization of an `Account` of src/td/account.py: its main fields, its keys, and the data that
-- keeps them in the file of an account.
pub mod Layout
pub mod RoundTrip
use opentele.Prelude.{
  ℕ, ◌+◌, ◌*◌, ◌/◌, ◌^◌, Bool, true, false, Option, none, some, List, [], ◌∷◌, ◌++◌, ltb,
  if◌then◌else◌, length,
}
use opentele.Prelude.Int.{ℤ, pos, negsuc, pos_part, sub_ℕ, ◌==ℤ◌}
use opentele.Exception.{
  Exception, Result, ok, err, expects, open_tele_exception, q_data_stream_failed,
  t_data_auth_key_not_found,
}
use opentele.Exec.{Exec, pure, raise, gets, discard, for_each, repeat, ◌>>=◌, ◌>>◌}
use opentele.Auth.{AuthKey, read_from_file, k_size, write, from_stream}
use opentele.Qt.ByteArray
use opentele.Qt.ByteArray.{QByteArray}
use opentele.Qt.Buffer.{QBuffer, write_only}
use opentele.Qt.DataStream
use opentele.Qt.DataStream.{QDataStream, of_qbytearray, reading}
use opentele.Qt.Primitive.{read_int32, read_uint64, write_int32, write_int64}
use opentele.MapData.Read.{expect_stream_status}

pub record Account : Type 0 where
  pub user_id : ℤ
  pub main_dc_id : ℤ
  pub mtp_keys : List AuthKey
  pub mtp_keys_to_destroy : List AuthKey
  pub auth_key : Option AuthKey
  pub is_loaded : Bool

-- `Account(...)`, as far as the authorization goes
abbrev pub initial : Account
initial = record {
  user_id = pos 0;
  main_dc_id = pos 0;
  mtp_keys = [];
  mtp_keys_to_destroy = [];
  auth_key = none;
  is_loaded = false;
}

-- `Account.kWideIdsTag`, which is -1
abbrev pub wide_ids_tag : ℤ
wide_ids_tag = negsuc 0

-- `(user << 32) | dc` for a `dc` of 32 bits: the sign bits of a negative one fill all of the rest.
unfoldable pub joined_ids : ℤ → ℤ → ℤ
joined_ids user (negsuc n) = negsuc n
joined_ids (pos u) (pos n) = pos (u * 2 ^ 32 + n)
joined_ids (negsuc u) (pos n) = sub_ℕ n ((u + 1) * 2 ^ 32)

-- What follows the first two numbers: behind the tag, the id has 64 bits.
unfoldable pub read_wide : Bool → ℤ → ℤ → Exec QDataStream (ℤ × ℤ)
read_wide true user dc = do wide ← read_uint64; wide_dc ← read_int32; pure (pos wide, wide_dc)
read_wide false user dc = pure (user, dc)

-- The user id and the main data centre.
unfoldable pub read_ids : Exec QDataStream (ℤ × ℤ)
unfolding joined_ids read_wide
read_ids = do
  user ← read_int32
  dc ← read_int32
  read_wide (joined_ids user dc ==ℤ wide_ids_tag) user dc

-- The size of an entry: the data centre and the key.
abbrev pub pair_bytes : ℕ
pair_bytes = 4 + k_size

-- The guard of `readKeys`. For a count of 0 nothing is too many.
unfoldable pub guard_keys : ℤ → Exec QDataStream Unit
guard_keys (pos key_count) = do
  available ← gets DataStream.bytes_available
  if ltb (available / pair_bytes) key_count then raise q_data_stream_failed else pure tt
guard_keys (negsuc n) = pure tt

-- A round of the loop in `readKeys`
unfoldable pub read_key : List AuthKey → Exec QDataStream (List AuthKey)
read_key keys = do
  dc_id ← read_int32
  key ← from_stream read_from_file dc_id
  pure (keys ++ key ∷ [])

-- `readKeys`, into a list that was cleared
unfoldable pub read_keys : Exec QDataStream (List AuthKey)
unfolding guard_keys read_key
read_keys = do
  key_count ← read_int32
  expect_stream_status
  guard_keys key_count
  repeat (pos_part key_count) read_key []

-- The first key of a data centre, or else the key that was there before.
unfoldable pub main_key : ℤ → List AuthKey → Option AuthKey → Option AuthKey
main_key dc [] before = before
main_key dc (key ∷ keys) before = if key.dc_id ==ℤ dc then some key else main_key dc keys before

-- `__authKey`, which must be there.
abbrev pub with_auth_key : Account → Option AuthKey → Result (Unit {0}) × Account
with_auth_key a none = (err t_data_auth_key_not_found, record a { auth_key = none })
with_auth_key a (some key) = (ok tt, record a { auth_key = some key; is_loaded = true })

-- The end of `_setMtpAuthorization`: the key of the main data centre.
unfoldable pub set_main_key : Exec Account Unit
unfolding main_key
set_main_key a = with_auth_key a (main_key a.main_dc_id a.mtp_keys a.auth_key)

-- The steps of `_setMtpAuthorization`, from the outcome of each read.
abbrev pub set_to_destroy :
    Account → Result (List AuthKey) × QDataStream → Result (Unit {0}) × Account
set_to_destroy a (ok keys, s) = set_main_key (record a { mtp_keys_to_destroy = keys })
set_to_destroy a (err e, s) = (err e, a)

abbrev pub set_keys : Account → Result (List AuthKey) × QDataStream → Result (Unit {0}) × Account
set_keys a (ok keys, s) = set_to_destroy (record a { mtp_keys = keys }) (read_keys s)
set_keys a (err e, s) = (err e, a)

abbrev pub set_ids : Account → Result (ℤ × ℤ) × QDataStream → Result (Unit {0}) × Account
set_ids a (ok (user, dc), s) =
    if DataStream.is_ok s
    then set_keys
        (record a { user_id = user; main_dc_id = dc; mtp_keys = []; mtp_keys_to_destroy = [] })
        (read_keys s)
    else (err q_data_stream_failed, record a { user_id = user; main_dc_id = dc })
set_ids a (err e, s) = (err e, a)

-- `_setMtpAuthorization`
unfoldable pub set_mtp_authorization : QByteArray → Exec Account Unit
unfolding read_ids
set_mtp_authorization serialized a = set_ids a (read_ids (reading serialized))

-- `_setMtpAuthorizationCustom`, without keys to destroy
unfoldable pub set_mtp_authorization_custom : ℤ → ℤ → List AuthKey → Exec Account Unit
unfolding set_main_key
set_mtp_authorization_custom dc user keys a =
    set_main_key (record a { main_dc_id = dc; user_id = user; mtp_keys = keys })

-- An entry that `writeKeys` writes
unfoldable pub write_entry : AuthKey → Exec QDataStream Unit
write_entry key = do write_int32 key.dc_id; write key

-- `writeKeys`
unfoldable pub write_keys : List AuthKey → Exec QDataStream Unit
unfolding write_entry
write_keys keys = do write_int32 (pos (length keys)); for_each keys write_entry

unfoldable pub write_authorization : Account → Exec QDataStream Unit
unfolding write_keys
write_authorization a = do
  write_int64 wide_ids_tag
  write_int64 a.user_id
  write_int32 a.main_dc_id
  write_keys a.mtp_keys
  write_keys a.mtp_keys_to_destroy

-- The array of a buffer that was written to
unfoldable pub array_of : Option QBuffer → QByteArray
array_of none = ByteArray.empty
array_of (some b) = elim b.qba [ none ↦ ByteArray.empty | some q ↦ q ]

abbrev pub result_of : Result (Unit {0}) × QDataStream → Result QByteArray
result_of (ok u, s) = ok (array_of s.device)
result_of (err e, s) = err e

-- `serializeMtpAuthorization`
unfoldable pub serialize_mtp_authorization : Account → Result QByteArray
unfolding write_authorization
serialize_mtp_authorization a =
    if a.is_loaded
    then result_of (write_authorization a (of_qbytearray ByteArray.empty write_only))
    else err open_tele_exception
