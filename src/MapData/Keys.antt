-- ===== src/MapData/Keys.antt =====
-- `lskType` of src/td/configs.py: the keys of the sections.
use opentele.Prelude.{ℕ, ◌≡◌, refl, Option, none, some, List, [], ◌∷◌, ◌==◌, if◌then◌else◌}

pub data LskType : Type 0 where
  lsk_user_map lsk_draft lsk_draft_position : LskType
  lsk_legacy_images lsk_locations lsk_legacy_sticker_images : LskType
  lsk_legacy_audios lsk_recent_stickers_old lsk_background_old_old : LskType
  lsk_user_settings lsk_recent_hashtags_and_bots lsk_stickers_old : LskType
  lsk_saved_peers_old lsk_report_spam_statuses_old lsk_saved_gifs_old : LskType
  lsk_saved_gifs lsk_stickers_keys lsk_trusted_bots : LskType
  lsk_faved_stickers lsk_export_settings lsk_background_old : LskType
  lsk_self_serialized lsk_masks_keys lsk_custom_emoji_keys : LskType
  lsk_search_suggestions lsk_webview_tokens lsk_round_placeholder : LskType
  lsk_inline_bots_downloads lsk_media_last_playback_positions lsk_bot_storages : LskType
  lsk_prefs : LskType

abbrev pub code : LskType → ℕ
code lsk_user_map = 0x00
code lsk_draft = 0x01
code lsk_draft_position = 0x02
code lsk_legacy_images = 0x03
code lsk_locations = 0x04
code lsk_legacy_sticker_images = 0x05
code lsk_legacy_audios = 0x06
code lsk_recent_stickers_old = 0x07
code lsk_background_old_old = 0x08
code lsk_user_settings = 0x09
code lsk_recent_hashtags_and_bots = 0x0a
code lsk_stickers_old = 0x0b
code lsk_saved_peers_old = 0x0c
code lsk_report_spam_statuses_old = 0x0d
code lsk_saved_gifs_old = 0x0e
code lsk_saved_gifs = 0x0f
code lsk_stickers_keys = 0x10
code lsk_trusted_bots = 0x11
code lsk_faved_stickers = 0x12
code lsk_export_settings = 0x13
code lsk_background_old = 0x14
code lsk_self_serialized = 0x15
code lsk_masks_keys = 0x16
code lsk_custom_emoji_keys = 0x17
code lsk_search_suggestions = 0x18
code lsk_webview_tokens = 0x19
code lsk_round_placeholder = 0x1a
code lsk_inline_bots_downloads = 0x1b
code lsk_media_last_playback_positions = 0x1c
code lsk_bot_storages = 0x1d
code lsk_prefs = 0x1e

-- All of them
abbrev lsk_types : List LskType
lsk_types =
    lsk_user_map ∷ lsk_draft ∷ lsk_draft_position ∷ lsk_legacy_images ∷ lsk_locations
    ∷ lsk_legacy_sticker_images ∷ lsk_legacy_audios ∷ lsk_recent_stickers_old
    ∷ lsk_background_old_old ∷ lsk_user_settings ∷ lsk_recent_hashtags_and_bots ∷ lsk_stickers_old
    ∷ lsk_saved_peers_old ∷ lsk_report_spam_statuses_old ∷ lsk_saved_gifs_old ∷ lsk_saved_gifs
    ∷ lsk_stickers_keys ∷ lsk_trusted_bots ∷ lsk_faved_stickers ∷ lsk_export_settings
    ∷ lsk_background_old ∷ lsk_self_serialized ∷ lsk_masks_keys ∷ lsk_custom_emoji_keys
    ∷ lsk_search_suggestions ∷ lsk_webview_tokens ∷ lsk_round_placeholder
    ∷ lsk_inline_bots_downloads ∷ lsk_media_last_playback_positions ∷ lsk_bot_storages ∷ lsk_prefs
    ∷ []

-- The first of the keys with that code: the source compares a number with one code after the other.
unfoldable find_code : ℕ → List LskType → Option LskType
find_code k [] = none
find_code k (t ∷ ts) = if k == code t then some t else find_code k ts

-- The key that a number stands for, if any.
unfoldable pub lsk_type : ℕ → Option LskType
unfolding find_code
lsk_type k = find_code k lsk_types

pub lsk_type-code : (t : LskType) → lsk_type (code t) ≡ some t
unfolding lsk_type
lsk_type-code lsk_user_map = refl
lsk_type-code _ = refl
