-- ===== src/Storage/Settings/Layout.antt =====
-- The settings blocks that `ReadSetting` of src/td/storage.py reads: their numbers, their bytes and
-- what becomes of the context.
use opentele.Prelude.{ℕ, ◌%◌, ◌^◌, ◌<◌, ◌≡◌, true, List, [], ◌∷◌, ◌++◌, All, length}
use opentele.Prelude.Int.{ℤ, pos}
use opentele.Auth.{read_from_file}
use opentele.Qt.ByteArray.{of_bytes}
use opentele.Qt.Blob.{null_marker}
use opentele.Qt.Session.Blobs.{qbytearray_bytes}
use opentele.Qt.Session.Texts.{sized}
use opentele.Qt.Session.Values.{IsInt32}
use opentele.MapData.Layout.{uint32}
use opentele.Account.Layout.{int32_bytes}
use opentele.Ids.{k_dc_shift}
use opentele.Mtp.{Endpoint, append_endpoint}
use opentele.Mtp.Config.Layout.{IsText}
use opentele.Mtp.Stored.{IsStored, stored_options, with_endpoints}
use opentele.Storage.Settings.{ReadSettingsContext}

-- A text with its encoding
pub record Text : Type 0 where
  pub text : List ℕ
  pub payload : List ℕ

-- A settings block with what it holds.
pub data Setting : Type 0 where
  named_address : (dc_id : ℕ) (host : Text) (ip : Text) (port : ℕ) → Setting
  flagged_address : (dc_id : ℕ) (flags : ℤ) (ip : Text) (port : ℕ) → Setting
  data_centres : (endpoints : List Endpoint) → Setting
  application : (serialized : List ℕ) → Setting
  chat_size_max : (max_size : ℤ) → Setting
  saved_gifs_limit : (limit : ℤ) → Setting
  stickers_recent_limit : (limit : ℤ) → Setting
  stickers_faved_limit : (limit : ℤ) → Setting
  megagroup_size_max : (max_size : ℤ) → Setting
  main_user : (user_id : ℤ) (dc_id : ℕ) → Setting
  file_key : (dc_id : ℤ) (key : List ℕ) → Setting
  authorization : (serialized : List ℕ) → Setting

-- The number of its block
abbrev pub number : Setting → ℕ
number (file_key _ _) = 0
number (main_user _ _) = 1
number (named_address _ _ _ _) = 2
number (chat_size_max _) = 3
number (flagged_address _ _ _ _) = 39
number (megagroup_size_max _) = 50
number (saved_gifs_limit _) = 53
number (stickers_recent_limit _) = 67
number (data_centres _) = 74
number (authorization _) = 75
number (stickers_faved_limit _) = 80
number (application _) = 94

abbrev array_bytes : List ℕ → List ℕ
array_bytes bs = qbytearray_bytes (of_bytes bs)

-- What stands behind the number
unfoldable pub setting_bytes : Setting → List ℕ
setting_bytes (named_address dc_id host ip port) =
    uint32 dc_id ++ (sized host.payload ++ (sized ip.payload ++ uint32 port))
setting_bytes (flagged_address dc_id flags ip port) =
    uint32 dc_id ++ (int32_bytes flags ++ (sized ip.payload ++ uint32 port))
setting_bytes (data_centres endpoints) = array_bytes (stored_options endpoints)
setting_bytes (application serialized) = array_bytes serialized
setting_bytes (chat_size_max max_size) = int32_bytes max_size
setting_bytes (saved_gifs_limit limit) = int32_bytes limit
setting_bytes (stickers_recent_limit limit) = int32_bytes limit
setting_bytes (stickers_faved_limit limit) = int32_bytes limit
setting_bytes (megagroup_size_max max_size) = int32_bytes max_size
setting_bytes (main_user user_id dc_id) = int32_bytes user_id ++ uint32 dc_id
setting_bytes (file_key dc_id key) = int32_bytes dc_id ++ key
setting_bytes (authorization serialized) = array_bytes serialized

abbrev IsHeld : Text → Type 0
IsHeld t = IsText t.text t.payload

-- What the bytes can hold
abbrev pub IsStorableSetting : Setting → Type 0
IsStorableSetting (named_address dc_id host ip port) =
    (dc_id < 2 ^ 32) × IsHeld host × IsHeld ip × (port < 2 ^ 32)
IsStorableSetting (flagged_address dc_id flags ip port) =
    (dc_id < 2 ^ 32) × IsInt32 flags × IsHeld ip × (port < 2 ^ 32)
IsStorableSetting (data_centres endpoints) =
    All IsStored endpoints
    × (length endpoints < 2 ^ 31)
    × (length (stored_options endpoints) < null_marker)
IsStorableSetting (application serialized) = length serialized < null_marker
IsStorableSetting (chat_size_max max_size) = IsInt32 max_size
IsStorableSetting (saved_gifs_limit limit) = IsInt32 limit
IsStorableSetting (stickers_recent_limit limit) = IsInt32 limit
IsStorableSetting (stickers_faved_limit limit) = IsInt32 limit
IsStorableSetting (megagroup_size_max max_size) = IsInt32 max_size
IsStorableSetting (main_user user_id dc_id) = IsInt32 user_id × (dc_id < 2 ^ 32)
IsStorableSetting (file_key dc_id key) = IsInt32 dc_id × (length key ≡ 256)
IsStorableSetting (authorization serialized) = length serialized < null_marker

-- One endpoint more, at its bare data centre
abbrev with_address : ℕ → ℤ → List ℕ → ℕ → ReadSettingsContext → ReadSettingsContext
with_address dc_id flags ip port c =
    let id = pos (dc_id % k_dc_shift) in
    let options = c.fallback_config_legacy_dc_options in
    record c {
      fallback_config_legacy_dc_options = record options {
        centres =
            append_endpoint id
              (record { id = id; flags = flags; ip = ip; port = pos port; secret = [] })
              options.centres;
      };
      legacy_read = true;
    }

-- The context with the setting
unfoldable pub with_setting : Setting → ReadSettingsContext → ReadSettingsContext
with_setting (named_address dc_id host ip port) c = with_address dc_id (pos 0) ip.text port c
with_setting (flagged_address dc_id flags ip port) c = with_address dc_id flags ip.text port c
with_setting (data_centres endpoints) c = record c {
  fallback_config_legacy_dc_options = record c.fallback_config_legacy_dc_options {
    centres = with_endpoints endpoints [];
  };
  legacy_read = true;
}
with_setting (application serialized) c = c
with_setting (chat_size_max max_size) c = record c {
  fallback_config_legacy_chat_size_max = max_size;
  legacy_read = true;
}
with_setting (saved_gifs_limit limit) c = record c {
  fallback_config_legacy_saved_gifs_limit = limit;
  legacy_read = true;
}
with_setting (stickers_recent_limit limit) c = record c {
  fallback_config_legacy_stickers_recent_limit = limit;
  legacy_read = true;
}
with_setting (stickers_faved_limit limit) c = record c {
  fallback_config_legacy_stickers_faved_limit = limit;
  legacy_read = true;
}
with_setting (megagroup_size_max max_size) c = record c {
  fallback_config_legacy_megagroup_size_max = max_size;
  legacy_read = true;
}
with_setting (main_user user_id dc_id) c = record c {
  mtp_legacy_main_dc_id = dc_id;
  mtp_legacy_user_id = user_id;
}
with_setting (file_key dc_id key) c = record c {
  mtp_legacy_keys =
      c.mtp_legacy_keys ++ record { key = key; type = read_from_file; dc_id = dc_id } ∷ [];
}
with_setting (authorization serialized) c = record c { mtp_authorization = of_bytes serialized }
