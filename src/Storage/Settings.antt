-- ===== src/Storage/Settings.antt =====
-- `ReadSettingsContext` and `ReadSetting` of src/td/storage.py. The context has the fields that the
-- reading of a block changes.
pub mod Layout
pub mod Reads
use opentele.Prelude.{ℕ, ◌≡◌, refl, Bool, true, false, List, [], ◌∷◌, ◌++◌, ◌==◌, if◌then◌else◌}
use opentele.Prelude.Int.{ℤ, pos, pos_part}
use opentele.Exception.{Exception, Result, ok, err}
use opentele.Exec.{Exec, pure, continue, ◌>>=◌, ◌>>◌}
use opentele.Auth.{AuthKey, read_from_file}
use opentele.Qt.ByteArray
use opentele.Qt.ByteArray.{QByteArray}
use opentele.Qt.DataStream.{QDataStream}
use opentele.Qt.Primitive.{read_int32, read_uint32}
use opentele.Qt.Blob.{read_raw_data, read_qbytearray}
use opentele.Qt.Text.{read_qstring}
use opentele.MapData.Read.{expect_stream_status}
use opentele.Mtp.{DcOptions, production, new_options, construct_add_one}
use opentele.Mtp.Options.{construct_from_serialized}

pub record ReadSettingsContext : Type 0 where
  pub fallback_config_legacy_dc_options : DcOptions
  pub fallback_config_legacy_chat_size_max : ℤ
  pub fallback_config_legacy_saved_gifs_limit : ℤ
  pub fallback_config_legacy_stickers_recent_limit : ℤ
  pub fallback_config_legacy_stickers_faved_limit : ℤ
  pub fallback_config_legacy_megagroup_size_max : ℤ
  pub mtp_authorization : QByteArray
  pub mtp_legacy_keys : List AuthKey
  pub mtp_legacy_main_dc_id : ℕ
  pub mtp_legacy_user_id : ℤ
  pub legacy_read : Bool

-- `ReadSettingsContext()`
unfoldable pub new_context : ReadSettingsContext
new_context = record {
  fallback_config_legacy_dc_options = new_options production;
  fallback_config_legacy_chat_size_max = pos 0;
  fallback_config_legacy_saved_gifs_limit = pos 0;
  fallback_config_legacy_stickers_recent_limit = pos 0;
  fallback_config_legacy_stickers_faved_limit = pos 0;
  fallback_config_legacy_megagroup_size_max = pos 0;
  mtp_authorization = ByteArray.empty;
  mtp_legacy_keys = [];
  mtp_legacy_main_dc_id = 0;
  mtp_legacy_user_id = pos 0;
  legacy_read = false;
}

-- The blocks that are read, with their numbers in `dbi`.
pub data Block : Type 0 where
  dc_option_old_old dc_option_old dc_options_old application_settings : Block
  chat_size_max_old saved_gifs_limit_old stickers_recent_limit_old : Block
  stickers_faved_limit_old megagroup_size_max_old : Block
  user key mtp_authorization_block other : Block

unfoldable pub dbi : ℕ → Block
dbi n =
    if n == 0x02
    then dc_option_old_old
    else if n == 0x27
    then dc_option_old
    else if n == 0x4a
    then dc_options_old
    else if n == 0x5e
    then application_settings
    else if n == 0x03
    then chat_size_max_old
    else if n == 0x35
    then saved_gifs_limit_old
    else if n == 0x43
    then stickers_recent_limit_old
    else if n == 0x50
    then stickers_faved_limit_old
    else if n == 0x32
    then megagroup_size_max_old
    else if n == 0x01
    then user
    else if n == 0x00
    then key
    else if n == 0x4b
    then mtp_authorization_block
    else other

-- What a block changes in the context, once it was read in order. Loading options may raise, after
-- it has changed them.
abbrev pub Change : Type 0
Change = ReadSettingsContext → Result (Unit {0}) × ReadSettingsContext

abbrev pub sets : (ReadSettingsContext → ReadSettingsContext) → Exec QDataStream Change
sets f = do expect_stream_status; pure (λ c. (ok tt, f c))

abbrev pub sets_legacy : (ReadSettingsContext → ReadSettingsContext) → Exec QDataStream Change
sets_legacy f = sets (λ c. record (f c) { legacy_read = true })

-- `constructAddOne` on the fallback options
abbrev pub adds_option : ℤ → ℤ → List ℕ → ℤ → Exec QDataStream Change
adds_option dc_id flags ip port = sets_legacy (λ c. record c {
  fallback_config_legacy_dc_options =
      construct_add_one dc_id flags ip port [] c.fallback_config_legacy_dc_options;
})

abbrev pub loaded :
    ReadSettingsContext → Result (Unit {0}) × DcOptions → Result (Unit {0}) × ReadSettingsContext
loaded c (ok u, o) = (ok tt, record c { fallback_config_legacy_dc_options = o; legacy_read = true })
loaded c (err e, o) = (err e, record c { fallback_config_legacy_dc_options = o })

abbrev pub loads_options : QByteArray → Change
loads_options serialized c =
    loaded c (construct_from_serialized serialized c.fallback_config_legacy_dc_options)

unfoldable pub read_block : Block → Exec QDataStream Change
read_block dc_option_old_old = do
  dc_id ← read_uint32
  host ← read_qstring
  ip ← read_qstring
  port ← read_uint32
  adds_option (pos dc_id) (pos 0) ip (pos port)
read_block dc_option_old = do
  dc_id_with_shift ← read_uint32
  flags ← read_int32
  ip ← read_qstring
  port ← read_uint32
  adds_option (pos dc_id_with_shift) flags ip (pos port)
read_block dc_options_old = do
  serialized ← read_qbytearray
  expect_stream_status
  pure (loads_options serialized)
read_block application_settings = do serialized ← read_qbytearray; sets (λ c. c)
read_block chat_size_max_old = do
  max_size ← read_int32
  sets_legacy (λ c. record c { fallback_config_legacy_chat_size_max = max_size })
read_block saved_gifs_limit_old = do
  limit ← read_int32
  sets_legacy (λ c. record c { fallback_config_legacy_saved_gifs_limit = limit })
read_block stickers_recent_limit_old = do
  limit ← read_int32
  sets_legacy (λ c. record c { fallback_config_legacy_stickers_recent_limit = limit })
read_block stickers_faved_limit_old = do
  limit ← read_int32
  sets_legacy (λ c. record c { fallback_config_legacy_stickers_faved_limit = limit })
read_block megagroup_size_max_old = do
  max_size ← read_int32
  sets_legacy (λ c. record c { fallback_config_legacy_megagroup_size_max = max_size })
read_block user = do
  user_id ← read_int32
  dc_id ← read_uint32
  sets (λ c. record c { mtp_legacy_main_dc_id = dc_id; mtp_legacy_user_id = user_id })
read_block key = do
  dc_id ← read_int32
  key_data ← read_raw_data (pos 256)
  sets (λ c. record c {
    mtp_legacy_keys =
        c.mtp_legacy_keys ++ record { key = key_data; type = read_from_file; dc_id = dc_id } ∷ [];
  })
read_block mtp_authorization_block = do
  serialized ← read_qbytearray
  sets (λ c. record c { mtp_authorization = serialized })
read_block other = pure (λ c. (ok tt, c))

-- The outcome of a change, with what it left
abbrev pub outcome :
    QDataStream
    → Result (Unit {0}) × ReadSettingsContext
    → Result Bool × (QDataStream × ReadSettingsContext)
outcome s (ok u, c) = (ok true, (s, c))
outcome s (err e, c) = (err e, (s, c))

-- The context after the reads of a block, and the stream behind it.
abbrev pub changed :
    Result Change × QDataStream
    → ReadSettingsContext
    → Result Bool × (QDataStream × ReadSettingsContext)
changed (err e, s) c = (err e, (s, c))
changed (ok change, s) c = outcome s (change c)

-- `ReadSetting`
unfoldable pub read_setting :
    ℕ → QDataStream → ReadSettingsContext → Result Bool × (QDataStream × ReadSettingsContext)
unfolding read_block dbi
read_setting block_id s c = changed (read_block (dbi block_id) s) c
