-- ===== src/MapData/Write.antt =====
-- `MapData.prepareToWrite`: the size of the payload, and the payload.
use opentele.Prelude.{
  ℕ, ◌+◌, ◌*◌, Bool, false, not, ◌||◌, List, [], ◌∷◌, ltb, if◌then◌else◌, length,
}
use opentele.Exec.{Exec, lift, when, for_each, ◌>>=◌, ◌>>◌}
use opentele.Ids.{serialize}
use opentele.Qt.ByteArray
use opentele.Qt.ByteArray.{QByteArray}
use opentele.Qt.DataStream.{QDataStream}
use opentele.Qt.Primitive.{write_uint32, write_uint64}
use opentele.Qt.Blob.{write_qbytearray}
use opentele.MapData.{MapData, Dict}
use opentele.MapData.Keys.{
  LskType, code, lsk_draft, lsk_draft_position, lsk_locations, lsk_trusted_bots,
  lsk_recent_stickers_old, lsk_stickers_keys, lsk_faved_stickers, lsk_saved_gifs, lsk_user_settings,
  lsk_recent_hashtags_and_bots, lsk_export_settings, lsk_masks_keys, lsk_custom_emoji_keys,
  lsk_search_suggestions, lsk_webview_tokens, lsk_round_placeholder, lsk_inline_bots_downloads,
  lsk_media_last_playback_positions, lsk_bot_storages, lsk_prefs,
}

-- Python's truth of a number
abbrev pub is_set : ℕ → Bool
is_set key = ltb 0 key

abbrev pub any_set : List ℕ → Bool
any_set [] = false
any_set (k ∷ ks) = is_set k || any_set ks

abbrev pub has_items : {V : Type 0} → Dict V → Bool
has_items d = ltb 0 (length d)

abbrev pub has_tokens : MapData → Bool
has_tokens m =
    not (ByteArray.is_empty m.webview_storage_token_bots)
    || not (ByteArray.is_empty m.webview_storage_token_other)

-- `Serialize.bytearraySize` of src/td/storage.py
abbrev pub bytearray_size : QByteArray → ℕ
bytearray_size q = 4 + ByteArray.size q

abbrev pub sticker_keys : MapData → List ℕ
sticker_keys m =
    m.installed_stickers_key ∷ m.featured_stickers_key ∷ m.recent_stickers_key
    ∷ m.archived_stickers_key ∷ []

abbrev pub mask_keys : MapData → List ℕ
mask_keys m = m.installed_masks_key ∷ m.recent_masks_key ∷ m.archived_masks_key ∷ []

abbrev pub emoji_keys : MapData → List ℕ
emoji_keys m =
    m.installed_custom_emoji_key ∷ m.featured_custom_emoji_key ∷ m.archived_custom_emoji_key ∷ []

-- `mapSize`: `sizeof(uint32)` is 4 and `sizeof(uint64)` is 8.
abbrev pub key_size : ℕ → ℕ
key_size key = if is_set key then 4 + 8 else 0

abbrev pub dict_size : {V : Type 0} → Dict V → ℕ
dict_size d = if has_items d then 4 * 2 + length d * 8 * 2 else 0

unfoldable pub map_size : MapData → ℕ
map_size m =
    dict_size m.drafts_map
    + dict_size m.draft_cursors_map
    + key_size m.locations_key
    + key_size m.trusted_bots_key
    + key_size m.recent_stickers_key_old
    + (if any_set (sticker_keys m) then 4 + 4 * 8 else 0)
    + key_size m.faved_stickers_key
    + key_size m.saved_gifs_key
    + key_size m.settings_key
    + key_size m.recent_hashtags_and_bots_key
    + key_size m.export_settings_key
    + (if any_set (mask_keys m) then 4 + 3 * 8 else 0)
    + (if any_set (emoji_keys m) then 4 + 3 * 8 else 0)
    + key_size m.search_suggestions_key
    + (if has_tokens m
        then 4
          + bytearray_size m.webview_storage_token_bots
          + bytearray_size m.webview_storage_token_other
        else 0)
    + key_size m.round_placeholder
    + key_size m.inline_bots_downloads
    + key_size m.media_last_playback_positions
    + dict_size m.bot_storages_map
    + key_size m.prefs_key

unfoldable pub write_key : LskType → ℕ → Exec QDataStream Unit
write_key t key = when (is_set key) do write_uint32 (code t); write_uint64 key

unfoldable pub write_keys : LskType → List ℕ → Exec QDataStream Unit
write_keys t keys = when (any_set keys) do write_uint32 (code t); for_each keys write_uint64

-- A round of the loops over `items()`
unfoldable pub write_pair : ℕ × ℕ → Exec QDataStream Unit
write_pair (key, value) = do write_uint64 value; s ← lift (serialize key); write_uint64 s

unfoldable pub write_dict : LskType → Dict ℕ → Exec QDataStream Unit
unfolding write_pair
write_dict t d =
    when (has_items d) do write_uint32 (code t); write_uint32 (length d); for_each d write_pair

unfoldable pub write_tokens : MapData → Exec QDataStream Unit
write_tokens m = when (has_tokens m) do
  write_uint32 (code lsk_webview_tokens)
  write_qbytearray m.webview_storage_token_bots
  write_qbytearray m.webview_storage_token_other

unfoldable pub write_map : MapData → Exec QDataStream Unit
unfolding write_key write_keys write_dict write_tokens
write_map m = do
  write_dict lsk_draft m.drafts_map
  write_dict lsk_draft_position m.draft_cursors_map
  write_key lsk_locations m.locations_key
  write_key lsk_trusted_bots m.trusted_bots_key
  write_key lsk_recent_stickers_old m.recent_stickers_key_old
  write_keys lsk_stickers_keys (sticker_keys m)
  write_key lsk_faved_stickers m.faved_stickers_key
  write_key lsk_saved_gifs m.saved_gifs_key
  write_key lsk_user_settings m.settings_key
  write_key lsk_recent_hashtags_and_bots m.recent_hashtags_and_bots_key
  write_key lsk_export_settings m.export_settings_key
  write_keys lsk_masks_keys (mask_keys m)
  write_keys lsk_custom_emoji_keys (emoji_keys m)
  write_key lsk_search_suggestions m.search_suggestions_key
  write_tokens m
  write_key lsk_round_placeholder m.round_placeholder
  write_key lsk_inline_bots_downloads m.inline_bots_downloads
  write_key lsk_media_last_playback_positions m.media_last_playback_positions
  write_dict lsk_bot_storages m.bot_storages_map
  write_key lsk_prefs m.prefs_key
