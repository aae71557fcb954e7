-- ===== src/MapData/RoundTrip.antt =====
-- What `prepareToWrite` wrote, `read` reads back.
use opentele.Prelude.{
  ℕ, zero, suc, append_assoc, ◌^◌, ◌<◌, ◌≡◌, refl, ◌∙◌, Bool, some, List, [], ◌++◌, append-nil,
  arith, length, All,
}
use opentele.Exception.{ok}
use opentele.Qt.Session.{Frame, reader}
use opentele.MapData.{MapData, Dict, initial}
use opentele.MapData.Keys.{
  lsk_draft, lsk_draft_position, lsk_locations, lsk_trusted_bots, lsk_recent_stickers_old,
  lsk_stickers_keys, lsk_faved_stickers, lsk_saved_gifs, lsk_user_settings,
  lsk_recent_hashtags_and_bots, lsk_export_settings, lsk_masks_keys, lsk_custom_emoji_keys,
  lsk_search_suggestions, lsk_round_placeholder, lsk_inline_bots_downloads,
  lsk_media_last_playback_positions, lsk_bot_storages, lsk_prefs,
}
use opentele.MapData.Read.{
  add_draft, add_cursor, add_bot_storage, read_payload, read_loop, read_map,
}
use opentele.MapData.Write.{sticker_keys, mask_keys, emoji_keys}
use opentele.MapData.Layout.{
  HasShortTokens, map_bytes, key_bytes, keys_bytes, dict_bytes, tokens_bytes,
}
use opentele.MapData.Sections.{Chain, Chain-append, bytes_available-reader, at_end-reader}
use opentele.MapData.Fields.{
  IsKey, IsEntry, normal_token, key-Chain, three-Chain, four-Chain, tokens-Chain, dict-Chain,
}
use opentele.MapData.Dicts.{
  IsDict, IsDict-marks, marks, set_items-nil, add_all-drafts, add_all-cursors, add_all-bot_storages,
}

-- A dict of the map: distinct peers that can be serialized, keys of 64 bits, a count of 32 bits.
pub record IsPeerDict (d : Dict ℕ) : Type 0 where
  pub distinct : IsDict d
  pub entries : All IsEntry d
  pub count : length d < 2 ^ 32

-- What every field of a map must be for the wire format to hold it.
pub record IsStorable (m : MapData) : Type 0 where
  pub drafts : IsPeerDict m.drafts_map
  pub cursors : IsPeerDict m.draft_cursors_map
  pub bot_storages : IsPeerDict m.bot_storages_map
  pub tokens : HasShortTokens m
  pub locations_key : IsKey m.locations_key
  pub trusted_bots_key : IsKey m.trusted_bots_key
  pub recent_stickers_key_old : IsKey m.recent_stickers_key_old
  pub faved_stickers_key : IsKey m.faved_stickers_key
  pub saved_gifs_key : IsKey m.saved_gifs_key
  pub settings_key : IsKey m.settings_key
  pub recent_hashtags_and_bots_key : IsKey m.recent_hashtags_and_bots_key
  pub export_settings_key : IsKey m.export_settings_key
  pub search_suggestions_key : IsKey m.search_suggestions_key
  pub round_placeholder : IsKey m.round_placeholder
  pub inline_bots_downloads : IsKey m.inline_bots_downloads
  pub media_last_playback_positions : IsKey m.media_last_playback_positions
  pub prefs_key : IsKey m.prefs_key
  pub installed_stickers_key : IsKey m.installed_stickers_key
  pub featured_stickers_key : IsKey m.featured_stickers_key
  pub recent_stickers_key : IsKey m.recent_stickers_key
  pub archived_stickers_key : IsKey m.archived_stickers_key
  pub installed_masks_key : IsKey m.installed_masks_key
  pub recent_masks_key : IsKey m.recent_masks_key
  pub archived_masks_key : IsKey m.archived_masks_key
  pub installed_custom_emoji_key : IsKey m.installed_custom_emoji_key
  pub featured_custom_emoji_key : IsKey m.featured_custom_emoji_key
  pub archived_custom_emoji_key : IsKey m.archived_custom_emoji_key

-- A map as it comes back: the keys of the legacy backgrounds are not written, every draft and bot
-- storage is marked as not read, and byte arrays are not null.
abbrev pub kept : MapData → MapData
kept m = record m {
  drafts_not_read_map = marks m.drafts_map;
  bot_storages_not_read_map = marks m.bot_storages_map;
  legacy_background_key_day = 0;
  legacy_background_key_night = 0;
  webview_storage_token_bots = normal_token m m.webview_storage_token_bots;
  webview_storage_token_other = normal_token m m.webview_storage_token_other;
}

-- The local variables after the sections up to the stickers, the emoji and the end.
abbrev with_drafts : MapData → MapData
with_drafts m = record initial {
  drafts_map = m.drafts_map;
  drafts_not_read_map = marks m.drafts_map;
}

abbrev with_cursors : MapData → MapData
with_cursors m = record (with_drafts m) { draft_cursors_map = m.draft_cursors_map }

abbrev with_stickers : MapData → MapData
with_stickers m = record (with_cursors m) {
  locations_key = m.locations_key;
  trusted_bots_key = m.trusted_bots_key;
  recent_stickers_key_old = m.recent_stickers_key_old;
  installed_stickers_key = m.installed_stickers_key;
  featured_stickers_key = m.featured_stickers_key;
  recent_stickers_key = m.recent_stickers_key;
  archived_stickers_key = m.archived_stickers_key;
}

abbrev with_emoji : MapData → MapData
with_emoji m = record (with_stickers m) {
  faved_stickers_key = m.faved_stickers_key;
  saved_gifs_key = m.saved_gifs_key;
  settings_key = m.settings_key;
  recent_hashtags_and_bots_key = m.recent_hashtags_and_bots_key;
  export_settings_key = m.export_settings_key;
  installed_masks_key = m.installed_masks_key;
  recent_masks_key = m.recent_masks_key;
  archived_masks_key = m.archived_masks_key;
  installed_custom_emoji_key = m.installed_custom_emoji_key;
  featured_custom_emoji_key = m.featured_custom_emoji_key;
  archived_custom_emoji_key = m.archived_custom_emoji_key;
  search_suggestions_key = m.search_suggestions_key;
}

abbrev with_playback : MapData → MapData
with_playback m = record (with_emoji m) {
  webview_storage_token_bots = normal_token m m.webview_storage_token_bots;
  webview_storage_token_other = normal_token m m.webview_storage_token_other;
  round_placeholder = m.round_placeholder;
  inline_bots_downloads = m.inline_bots_downloads;
  media_last_playback_positions = m.media_last_playback_positions;
}

abbrev with_bot_storages : MapData → MapData
with_bot_storages m = record (with_playback m) {
  bot_storages_map = m.bot_storages_map;
  bot_storages_not_read_map = marks m.bot_storages_map;
}

module _ (lenient : Bool) (m : MapData) (h : IsStorable m) where
  stickers-Chain :
      Chain lenient
        (key_bytes lsk_locations m.locations_key
          ++ (key_bytes lsk_trusted_bots m.trusted_bots_key
              ++ (key_bytes lsk_recent_stickers_old m.recent_stickers_key_old
                  ++ (keys_bytes lsk_stickers_keys (sticker_keys m)))))
        (with_cursors m)
        (with_stickers m)
  unfolding read_payload
  stickers-Chain =
      Chain-append lenient _ _ _ _ _
        (key-Chain lenient _ lsk_locations (λ k x. record x { locations_key = k }) m.locations_key
          h.locations_key refl refl)
        (Chain-append lenient _ _ _ _ _
          (key-Chain lenient _ lsk_trusted_bots (λ k x. record x { trusted_bots_key = k })
            m.trusted_bots_key h.trusted_bots_key refl refl)
          (Chain-append lenient _ _ _ _ _
            (key-Chain lenient _ lsk_recent_stickers_old
              (λ k x. record x { recent_stickers_key_old = k }) m.recent_stickers_key_old
              h.recent_stickers_key_old refl refl)
            ((four-Chain lenient _ lsk_stickers_keys
              (λ a b c d x. record x {
                installed_stickers_key = a;
                featured_stickers_key = b;
                recent_stickers_key = c;
                archived_stickers_key = d;
              })
              m.installed_stickers_key m.featured_stickers_key m.recent_stickers_key
              m.archived_stickers_key
              (
                h.installed_stickers_key,
                (h.featured_stickers_key, (h.recent_stickers_key, (h.archived_stickers_key, tt))),
              )
              refl refl))))

  emoji-Chain :
      Chain lenient
        (key_bytes lsk_faved_stickers m.faved_stickers_key
          ++ (key_bytes lsk_saved_gifs m.saved_gifs_key
              ++ (key_bytes lsk_user_settings m.settings_key
                  ++ (key_bytes lsk_recent_hashtags_and_bots m.recent_hashtags_and_bots_key
                      ++ (key_bytes lsk_export_settings m.export_settings_key
                          ++ (keys_bytes lsk_masks_keys (mask_keys m)
                              ++ (keys_bytes lsk_custom_emoji_keys (emoji_keys m)
                                  ++ (key_bytes lsk_search_suggestions
                                      m.search_suggestions_key))))))))
        (with_stickers m)
        (with_emoji m)
  unfolding read_payload
  emoji-Chain =
      Chain-append lenient _ _ _ _ _
        (key-Chain lenient _ lsk_faved_stickers (λ k x. record x { faved_stickers_key = k })
          m.faved_stickers_key h.faved_stickers_key refl refl)
        (Chain-append lenient _ _ _ _ _
          (key-Chain lenient _ lsk_saved_gifs (λ k x. record x { saved_gifs_key = k })
            m.saved_gifs_key h.saved_gifs_key refl refl)
          (Chain-append lenient _ _ _ _ _
            (key-Chain lenient _ lsk_user_settings (λ k x. record x { settings_key = k })
              m.settings_key h.settings_key refl refl)
            (Chain-append lenient _ _ _ _ _
              (key-Chain lenient _ lsk_recent_hashtags_and_bots
                (λ k x. record x { recent_hashtags_and_bots_key = k })
                m.recent_hashtags_and_bots_key h.recent_hashtags_and_bots_key refl refl)
              (Chain-append lenient _ _ _ _ _
                (key-Chain lenient _ lsk_export_settings
                  (λ k x. record x { export_settings_key = k }) m.export_settings_key
                  h.export_settings_key refl refl)
                (Chain-append lenient _ _ _ _ _
                  (three-Chain lenient _ lsk_masks_keys
                    (λ a b c x. record x {
                      installed_masks_key = a;
                      recent_masks_key = b;
                      archived_masks_key = c;
                    })
                    m.installed_masks_key m.recent_masks_key m.archived_masks_key
                    (h.installed_masks_key, (h.recent_masks_key, (h.archived_masks_key, tt))) refl
                    refl)
                  (Chain-append lenient _ _ _ _ _
                    (three-Chain lenient _ lsk_custom_emoji_keys
                      (λ a b c x. record x {
                        installed_custom_emoji_key = a;
                        featured_custom_emoji_key = b;
                        archived_custom_emoji_key = c;
                      })
                      m.installed_custom_emoji_key m.featured_custom_emoji_key
                      m.archived_custom_emoji_key
                      (
                        h.installed_custom_emoji_key,
                        (h.featured_custom_emoji_key, (h.archived_custom_emoji_key, tt)),
                      )
                      refl refl)
                    ((key-Chain lenient _ lsk_search_suggestions
                      (λ k x. record x { search_suggestions_key = k }) m.search_suggestions_key
                      h.search_suggestions_key refl refl))))))))

  playback-Chain :
      Chain lenient
        (tokens_bytes m
          ++ (key_bytes lsk_round_placeholder m.round_placeholder
              ++ (key_bytes lsk_inline_bots_downloads m.inline_bots_downloads
                  ++ (key_bytes lsk_media_last_playback_positions
                      m.media_last_playback_positions))))
        (with_emoji m)
        (with_playback m)
  unfolding read_payload
  playback-Chain =
      Chain-append lenient _ _ _ _ _
        (tokens-Chain lenient _
          (λ bots other x. record x {
            webview_storage_token_bots = bots;
            webview_storage_token_other = other;
          })
          m h.tokens refl refl)
        (Chain-append lenient _ _ _ _ _
          (key-Chain lenient _ lsk_round_placeholder (λ k x. record x { round_placeholder = k })
            m.round_placeholder h.round_placeholder refl refl)
          (Chain-append lenient _ _ _ _ _
            (key-Chain lenient _ lsk_inline_bots_downloads
              (λ k x. record x { inline_bots_downloads = k }) m.inline_bots_downloads
              h.inline_bots_downloads refl refl)
            ((key-Chain lenient _ lsk_media_last_playback_positions
              (λ k x. record x { media_last_playback_positions = k })
              m.media_last_playback_positions h.media_last_playback_positions refl refl))))

  drafts-Chain : Chain lenient (dict_bytes lsk_draft m.drafts_map) initial (with_drafts m)
  unfolding read_payload
  drafts-Chain =
      rw
        (
          add_all-drafts m.drafts_map initial,
          set_items-nil m.drafts_map h.drafts.distinct,
          set_items-nil (marks m.drafts_map) (IsDict-marks m.drafts_map h.drafts.distinct),
        )
        at
        (dict-Chain lenient initial lsk_draft add_draft m.drafts_map h.drafts.entries h.drafts.count
          refl)

  cursors-Chain :
      Chain lenient
        (dict_bytes lsk_draft_position m.draft_cursors_map)
        (with_drafts m)
        (with_cursors m)
  unfolding read_payload
  cursors-Chain =
      rw
        (
          add_all-cursors m.draft_cursors_map (with_drafts m),
          set_items-nil m.draft_cursors_map h.cursors.distinct,
        )
        at
        (dict-Chain lenient (with_drafts m) lsk_draft_position add_cursor m.draft_cursors_map
          h.cursors.entries h.cursors.count refl)

  bot_storages-Chain :
      Chain lenient
        (dict_bytes lsk_bot_storages m.bot_storages_map)
        (with_playback m)
        (with_bot_storages m)
  unfolding read_payload
  bot_storages-Chain =
      rw
        (
          add_all-bot_storages m.bot_storages_map (with_playback m),
          set_items-nil m.bot_storages_map h.bot_storages.distinct,
          set_items-nil (marks m.bot_storages_map)
              (IsDict-marks m.bot_storages_map h.bot_storages.distinct),
        )
        at
        (dict-Chain lenient (with_playback m) lsk_bot_storages add_bot_storage m.bot_storages_map
          h.bot_storages.entries h.bot_storages.count refl)

  prefs-Chain : Chain lenient (key_bytes lsk_prefs m.prefs_key) (with_bot_storages m) (kept m)
  unfolding read_payload
  prefs-Chain =
      key-Chain lenient (with_bot_storages m) lsk_prefs (λ k x. record x { prefs_key = k })
        m.prefs_key h.prefs_key refl refl

  -- The sections one behind the other.
  map-Chain : Chain lenient (map_bytes m) initial (kept m)
  unfolding map_bytes
  map-Chain = simp append_assoc at (
      Chain-append lenient _ _ _ _ _ drafts-Chain (
        Chain-append lenient _ _ _ _ _ cursors-Chain (
          Chain-append lenient _ _ _ _ _ stickers-Chain (
            Chain-append lenient _ _ _ _ _ emoji-Chain (
              Chain-append lenient _ _ _ _ _ playback-Chain
                (Chain-append lenient _ _ _ _ _ bot_storages-Chain prefs-Chain))))))

  loop_ends :
      (x : MapData) (f : Frame) (done : List ℕ) (left : ℕ)
      → 0 < left
      → read_loop lenient left x (reader f done []) ≡ (ok (some x), reader f done [])
  unfolding read_loop
  loop_ends x f done zero pos = absurd (omega arith)
  loop_ends x f done (suc left) pos = rw (at_end-reader f done [])

  -- From a stream before the payload of a storable map, wherever it starts, `read_map` returns the
  -- map as it is kept and stops at the end, whether unknown keys are tolerated or not.
  pub read_map-map_bytes :
      (f : Frame) (done : List ℕ)
      → read_map lenient (reader f done (map_bytes m))
        ≡ (ok (some (kept m)), reader f (done ++ map_bytes m) [])
  unfolding read_map
  read_map-map_bytes f done =
      let bs = map_bytes m in
      let (left, fits, e) =
        map-Chain.at f done [] (suc (length bs)) (rw (append-nil bs) (omega arith)) in
      rw (bytes_available-reader f done bs)
        ((rw (append-nil bs) at e) ∙ loop_ends (kept m) f (done ++ bs) left (omega arith))
