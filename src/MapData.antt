-- ===== src/MapData.antt =====
-- `MapData` of src/td/account.py: the map file's payload, as fields and as a sequence of keyed
-- sections.
pub mod Keys
pub mod Read
pub mod Write
pub mod Layout
pub mod Size
pub mod Sections
pub mod Fields
pub mod Dicts
pub mod RoundTrip
pub mod Descriptor
pub mod Guard
pub mod Progress
pub mod Termination
pub mod Blocks
pub mod File
use opentele.Prelude.{ℕ, Bool, true, List, [], ◌∷◌, ◌==◌, if◌then◌else◌}
use opentele.Qt.ByteArray
use opentele.Qt.ByteArray.{QByteArray}

-- A `dict`, in the order of insertion.
abbrev pub Dict : Type 0 → Type 0
Dict V = List (ℕ × V)

-- `d[k] = v`: a known key keeps its place.
unfoldable pub set_item : {V : Type 0} → ℕ → V → Dict V → Dict V
set_item k v [] = (k, v) ∷ []
set_item k v ((j, w) ∷ d) = if j == k then (k, v) ∷ d else (j, w) ∷ set_item k v d

-- The fields, which `read` also has as local variables until it is done. A `FileKey` is a number.
pub record MapData : Type 0 where
  pub drafts_map : Dict ℕ
  pub draft_cursors_map : Dict ℕ
  pub drafts_not_read_map : Dict Bool
  pub locations_key : ℕ
  pub trusted_bots_key : ℕ
  pub installed_stickers_key : ℕ
  pub featured_stickers_key : ℕ
  pub recent_stickers_key : ℕ
  pub faved_stickers_key : ℕ
  pub archived_stickers_key : ℕ
  pub archived_masks_key : ℕ
  pub installed_custom_emoji_key : ℕ
  pub featured_custom_emoji_key : ℕ
  pub archived_custom_emoji_key : ℕ
  pub search_suggestions_key : ℕ
  pub webview_storage_token_bots : QByteArray
  pub webview_storage_token_other : QByteArray
  pub saved_gifs_key : ℕ
  pub recent_stickers_key_old : ℕ
  pub legacy_background_key_day : ℕ
  pub legacy_background_key_night : ℕ
  pub settings_key : ℕ
  pub recent_hashtags_and_bots_key : ℕ
  pub export_settings_key : ℕ
  pub installed_masks_key : ℕ
  pub recent_masks_key : ℕ
  pub round_placeholder : ℕ
  pub inline_bots_downloads : ℕ
  pub media_last_playback_positions : ℕ
  pub bot_storages_map : Dict ℕ
  pub bot_storages_not_read_map : Dict Bool
  pub prefs_key : ℕ

-- `MapData(basePath)`, and the local variables of `read` at its start
abbrev pub initial : MapData
initial = record {
  drafts_map = [];
  draft_cursors_map = [];
  drafts_not_read_map = [];
  locations_key = 0;
  trusted_bots_key = 0;
  installed_stickers_key = 0;
  featured_stickers_key = 0;
  recent_stickers_key = 0;
  faved_stickers_key = 0;
  archived_stickers_key = 0;
  archived_masks_key = 0;
  installed_custom_emoji_key = 0;
  featured_custom_emoji_key = 0;
  archived_custom_emoji_key = 0;
  search_suggestions_key = 0;
  webview_storage_token_bots = ByteArray.empty;
  webview_storage_token_other = ByteArray.empty;
  saved_gifs_key = 0;
  recent_stickers_key_old = 0;
  legacy_background_key_day = 0;
  legacy_background_key_night = 0;
  settings_key = 0;
  recent_hashtags_and_bots_key = 0;
  export_settings_key = 0;
  installed_masks_key = 0;
  recent_masks_key = 0;
  round_placeholder = 0;
  inline_bots_downloads = 0;
  media_last_playback_positions = 0;
  bot_storages_map = [];
  bot_storages_not_read_map = [];
  prefs_key = 0;
}
