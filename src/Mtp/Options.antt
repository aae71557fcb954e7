-- ===== src/Mtp/Options.antt =====
-- `DcOptions.Serialize` and `DcOptions.constructFromSerialized` of src/td/mtp.py.
use opentele.Prelude.{
  ℕ, zero, suc, ◌+◌, Bool, true, false, List, [], ◌∷◌, ◌&&◌, ltb, leb, length, if◌then◌else◌,
}
use opentele.Prelude.Int.{ℤ, pos, negsuc, pos_part}
use opentele.Exception.{
  Result, ok, err, t_data_bad_config_data, unicode_encode_error, unicode_decode_error,
}
use opentele.Exec.{Exec, pure, raise, lift, discard, for_each, when, ◌>>=◌, ◌>>◌}
use opentele.Qt.ByteArray.{QByteArray}
use opentele.Qt.DataStream.{QDataStream, reading}
use opentele.Qt.Primitive.{read_int32, write_int32}
use opentele.Qt.Blob.{read_raw_data, write_raw_data}
use opentele.MapData.Read.{expect_stream_status}
use opentele.Mtp.{Endpoint, DcOptions, bare_id, apply_one_guarded}

-- Whether every character is ASCII
unfoldable pub is_ascii : List ℕ → Bool
is_ascii [] = true
is_ascii (c ∷ s) = ltb c 128 && is_ascii s

-- `text.encode("ascii")`
unfoldable pub encode_ascii : List ℕ → Result (List ℕ)
unfolding is_ascii
encode_ascii s = if is_ascii s then ok s else err unicode_encode_error

-- `payload.decode("ascii")`
unfoldable pub decode_ascii : List ℕ → Result (List ℕ)
unfolding is_ascii
decode_ascii s = if is_ascii s then ok s else err unicode_decode_error

-- `Expects(condition, TDataBadConfigData(...))`
abbrev pub expects_config : Bool → Exec QDataStream Unit
expects_config condition = if condition then pure tt else raise t_data_bad_config_data

abbrev pub k_max_ip_size : ℕ
k_max_ip_size = 45

abbrev pub k_max_secret_size : ℕ
k_max_secret_size = 32

-- `ipSize > 0 and ipSize <= kMaxIpSize`
abbrev pub is_ip_size : ℤ → Bool
is_ip_size (pos n) = ltb 0 n && leb n k_max_ip_size
is_ip_size (negsuc n) = false

-- `secretSize >= 0 and secretSize <= kMaxSecretSize`
abbrev pub is_secret_size : ℤ → Bool
is_secret_size (pos n) = leb n k_max_secret_size
is_secret_size (negsuc n) = false

-- The bytes of a secret of a size that was checked
abbrev pub read_secret_bytes : ℤ → Exec QDataStream (List ℕ)
read_secret_bytes (pos (suc n)) = read_raw_data (pos (suc n))
read_secret_bytes _ = pure []

-- The secret, which the options of version 0 do not have.
unfoldable pub read_secret : Bool → Exec QDataStream (List ℕ)
read_secret true = do
  secret_size ← read_int32
  expects_config (is_secret_size secret_size)
  read_secret_bytes secret_size
read_secret false = pure []

-- A round of the loop in `constructFromSerialized`, as far as it reads.
unfoldable pub read_endpoint : Bool → Exec QDataStream Endpoint
unfolding read_secret
read_endpoint has_version = do
  dc_id ← read_int32
  flags ← read_int32
  port ← read_int32
  ip_size ← read_int32
  expects_config (is_ip_size ip_size)
  ip_bytes ← read_raw_data ip_size
  ip ← lift (decode_ascii ip_bytes)
  secret ← read_secret has_version
  expect_stream_status
  pure (record { id = dc_id; flags = flags; ip = ip; port = port; secret = secret })

-- `applyOneGuarded` with what a round has read
abbrev pub apply_endpoint : Endpoint → DcOptions → DcOptions
apply_endpoint e o = apply_one_guarded e.id e.flags e.ip e.port e.secret o

-- What a round does to the options, from what it has read; what was applied before stays.
abbrev pub after_endpoint :
    (QDataStream → Exec DcOptions Unit) → Result Endpoint × QDataStream → Exec DcOptions Unit
after_endpoint next (ok e, s) o = next s (apply_endpoint e o)
after_endpoint next (err x, s) o = (err x, o)

-- The loop
unfoldable pub read_endpoints : ℕ → Bool → QDataStream → Exec DcOptions Unit
unfolding read_endpoint
read_endpoints zero has_version s o = (ok tt, o)
read_endpoints (suc n) has_version s o =
    after_endpoint (read_endpoints n has_version) (read_endpoint has_version s) o

-- The count of endpoints, and whether there is a version before it.
unfoldable pub count_behind : ℤ → Exec QDataStream (Bool × ℤ)
count_behind (pos n) = pure (false, pos n)
count_behind (negsuc n) = do count ← read_int32; pure (true, count)

unfoldable pub read_count : Exec QDataStream (Bool × ℤ)
unfolding count_behind
read_count = do minus_version ← read_int32; count_behind minus_version

abbrev pub with_count : Result (Bool × ℤ) × QDataStream → Exec DcOptions Unit
with_count (ok (has_version, count), s) o =
    read_endpoints (pos_part count) has_version s (record o { centres = [] })
with_count (err x, s) o = (err x, o)

-- `constructFromSerialized`
unfoldable pub construct_from_serialized : QByteArray → Exec DcOptions Unit
unfolding read_count
construct_from_serialized serialized o = with_count (read_count (reading serialized)) o

-- A data centre is written unless its bare id is above 1000.
abbrev pub is_listed : ℤ → Bool
is_listed id = leb (bare_id id) 1000

-- `optionsCount`
unfoldable pub options_count : List (ℤ × List Endpoint) → ℕ
options_count [] = 0
options_count ((id, endpoints) ∷ rest) =
    (if is_listed id then length endpoints else 0) + options_count rest

unfoldable pub write_endpoint : Endpoint → Exec QDataStream Unit
write_endpoint e = do
  write_int32 e.id
  write_int32 e.flags
  write_int32 (pos (length e.ip))
  ip ← lift (encode_ascii e.ip)
  discard (write_raw_data ip)
  write_int32 (pos (length e.secret))
  discard (write_raw_data e.secret)

abbrev pub write_centre : ℤ × List Endpoint → Exec QDataStream Unit
write_centre (id, endpoints) = when (is_listed id) (for_each endpoints write_endpoint)

-- `DcOptions.Serialize`, on its stream. There are no public keys.
unfoldable pub write_options : DcOptions → Exec QDataStream Unit
unfolding write_endpoint options_count
write_options o = do
  write_int32 (negsuc 1)
  write_int32 (pos (options_count o.centres))
  for_each o.centres write_centre
  write_int32 (pos 0)
