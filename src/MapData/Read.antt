-- ===== src/MapData/Read.antt =====
-- `MapData.read` from the decrypted stream on: one section, and the loop over the sections.
-- What is read into a variable that nothing uses is read and dropped.
use opentele.Prelude.{ℕ, zero, suc, ◌/◌, Bool, true, Option, none, some, ltb, ◌==◌, if◌then◌else◌}
use opentele.Exception.{ok, err, q_data_stream_failed, t_data_read_map_data_failed}
use opentele.Exec.{Exec, pure, raise, gets, repeat, ◌>>=◌, ◌>>◌}
use opentele.Ids.{from_serialized}
use opentele.Qt.DataStream
use opentele.Qt.DataStream.{QDataStream}
use opentele.Qt.Primitive.{read_uint32, read_uint64, read_int32}
use opentele.Qt.Blob.{read_qbytearray}
use opentele.MapData.{MapData, initial, set_item}
use opentele.MapData.Keys.{
  LskType, lsk_type, lsk_user_map, lsk_draft, lsk_draft_position, lsk_legacy_images, lsk_locations,
  lsk_legacy_sticker_images, lsk_legacy_audios, lsk_recent_stickers_old, lsk_background_old_old,
  lsk_user_settings, lsk_recent_hashtags_and_bots, lsk_stickers_old, lsk_saved_peers_old,
  lsk_report_spam_statuses_old, lsk_saved_gifs_old, lsk_saved_gifs, lsk_stickers_keys,
  lsk_trusted_bots, lsk_faved_stickers, lsk_export_settings, lsk_background_old,
  lsk_self_serialized, lsk_masks_keys, lsk_custom_emoji_keys, lsk_search_suggestions,
  lsk_webview_tokens, lsk_round_placeholder, lsk_inline_bots_downloads,
  lsk_media_last_playback_positions, lsk_bot_storages, lsk_prefs,
}

-- `_GuardCount`: a loop of `count` rounds over `pair_bytes` each must fit what is left.
unfoldable pub guard_count : ℕ → ℕ → Exec QDataStream Unit
guard_count count pair_bytes = if count == 0 then pure tt else do
  available ← gets DataStream.bytes_available
  if ltb (available / pair_bytes) count then raise t_data_read_map_data_failed else pure tt

-- `ExpectStreamStatus`
unfoldable pub expect_stream_status : Exec QDataStream Unit
expect_stream_status s = if DataStream.is_ok s then (ok tt, s) else (err q_data_stream_failed, s)

-- A round of the loops over pairs: the key, then the peer that it belongs to.
unfoldable pub read_pair : Exec QDataStream (ℕ × ℕ)
unfolding from_serialized
read_pair = do
  key ← read_uint64
  peer_id_serialized ← read_uint64
  pure (from_serialized peer_id_serialized, key)

abbrev pub add_draft : ℕ × ℕ → MapData → MapData
add_draft (peer, key) m = record m {
  drafts_map = set_item peer key m.drafts_map;
  drafts_not_read_map = set_item peer true m.drafts_not_read_map;
}

abbrev pub add_cursor : ℕ × ℕ → MapData → MapData
add_cursor (peer, key) m = record m { draft_cursors_map = set_item peer key m.draft_cursors_map }

abbrev pub add_bot_storage : ℕ × ℕ → MapData → MapData
add_bot_storage (peer, key) m = record m {
  bot_storages_map = set_item peer key m.bot_storages_map;
  bot_storages_not_read_map = set_item peer true m.bot_storages_not_read_map;
}

-- A count, its guard, and the loop over the pairs.
unfoldable pub read_pairs : (ℕ × ℕ → MapData → MapData) → MapData → Exec QDataStream MapData
unfolding guard_count read_pair
read_pairs add m = do
  count ← read_uint32
  guard_count count 16
  repeat count (λ x. read_pair >>= λ p. pure (add p x)) m

-- The items of the legacy sections, which are skipped.
unfoldable pub skip_item : MapData → Exec QDataStream MapData
skip_item m = do
  filekey ← read_uint64
  first ← read_uint64
  second ← read_uint64
  size ← read_int32
  pure m

unfoldable pub skip_legacy : MapData → Exec QDataStream MapData
unfolding guard_count skip_item
skip_legacy m = do count ← read_uint32; guard_count count 28; repeat count skip_item m

-- What a section leads to: the next one, or the end of the loop by `break`.
pub data Next : Type 0 where
  more : MapData → Next
  stop : MapData → Next

abbrev pub read_key : (ℕ → MapData) → Exec QDataStream Next
read_key set = do key ← read_uint64; pure (more (set key))

-- `lenient` is whether OPENTELE_LENIENT_UNKNOWN_LSK is 1.
module _ (lenient : Bool) where
  unfoldable pub read_payload : Option LskType → MapData → Exec QDataStream Next
  unfolding read_pairs skip_legacy
  read_payload (some lsk_draft) m = do x ← read_pairs add_draft m; pure (more x)
  read_payload (some lsk_self_serialized) m = do self_serialized ← read_qbytearray; pure (more m)
  read_payload (some lsk_draft_position) m = do x ← read_pairs add_cursor m; pure (more x)
  read_payload (some lsk_legacy_images) m = do x ← skip_legacy m; pure (more x)
  read_payload (some lsk_legacy_sticker_images) m = do x ← skip_legacy m; pure (more x)
  read_payload (some lsk_legacy_audios) m = do x ← skip_legacy m; pure (more x)
  read_payload (some lsk_locations) m = read_key (λ k. record m { locations_key = k })
  read_payload (some lsk_report_spam_statuses_old) m = read_key (λ k. m)
  read_payload (some lsk_trusted_bots) m = read_key (λ k. record m { trusted_bots_key = k })
  read_payload (some lsk_recent_stickers_old) m =
      read_key (λ k. record m { recent_stickers_key_old = k })
  read_payload (some lsk_background_old_old) m =
      read_key (λ k. record m { legacy_background_key_day = k })
  read_payload (some lsk_background_old) m = do
    k0 ← read_uint64
    k1 ← read_uint64
    pure (more (record m { legacy_background_key_day = k0; legacy_background_key_night = k1 }))
  read_payload (some lsk_user_settings) m = read_key (λ k. record m { settings_key = k })
  read_payload (some lsk_recent_hashtags_and_bots) m =
      read_key (λ k. record m { recent_hashtags_and_bots_key = k })
  read_payload (some lsk_stickers_old) m = read_key (λ k. record m { installed_stickers_key = k })
  read_payload (some lsk_stickers_keys) m = do
    k0 ← read_uint64
    k1 ← read_uint64
    k2 ← read_uint64
    k3 ← read_uint64
    pure (
        more (record m {
          installed_stickers_key = k0;
          featured_stickers_key = k1;
          recent_stickers_key = k2;
          archived_stickers_key = k3;
        }))
  read_payload (some lsk_faved_stickers) m = read_key (λ k. record m { faved_stickers_key = k })
  read_payload (some lsk_saved_gifs_old) m = read_key (λ k. m)
  read_payload (some lsk_saved_gifs) m = read_key (λ k. record m { saved_gifs_key = k })
  read_payload (some lsk_saved_peers_old) m = read_key (λ k. m)
  read_payload (some lsk_export_settings) m = read_key (λ k. record m { export_settings_key = k })
  read_payload (some lsk_masks_keys) m = do
    k0 ← read_uint64
    k1 ← read_uint64
    k2 ← read_uint64
    pure (
        more
          (record m { installed_masks_key = k0; recent_masks_key = k1; archived_masks_key = k2 }))
  read_payload (some lsk_custom_emoji_keys) m = do
    k0 ← read_uint64
    k1 ← read_uint64
    k2 ← read_uint64
    pure (
        more (record m {
          installed_custom_emoji_key = k0;
          featured_custom_emoji_key = k1;
          archived_custom_emoji_key = k2;
        }))
  read_payload (some lsk_search_suggestions) m =
      read_key (λ k. record m { search_suggestions_key = k })
  read_payload (some lsk_webview_tokens) m = do
    bots ← read_qbytearray
    other ← read_qbytearray
    pure
        (more (record m { webview_storage_token_bots = bots; webview_storage_token_other = other }))
  read_payload (some lsk_round_placeholder) m = read_key (λ k. record m { round_placeholder = k })
  read_payload (some lsk_inline_bots_downloads) m =
      read_key (λ k. record m { inline_bots_downloads = k })
  read_payload (some lsk_media_last_playback_positions) m =
      read_key (λ k. record m { media_last_playback_positions = k })
  read_payload (some lsk_bot_storages) m = do x ← read_pairs add_bot_storage m; pure (more x)
  read_payload (some lsk_prefs) m = read_key (λ k. record m { prefs_key = k })
  read_payload (some lsk_user_map) m =
      if lenient then pure (stop m) else raise t_data_read_map_data_failed
  read_payload none m = if lenient then pure (stop m) else raise t_data_read_map_data_failed

  abbrev pub checked : Next → Exec QDataStream Next
  checked (stop m) = pure (stop m)
  checked (more m) = do expect_stream_status; pure (more m)

  -- One round of the loop: a `break` goes round the check of the status.
  unfoldable pub read_section : MapData → Exec QDataStream Next
  unfolding read_payload lsk_type expect_stream_status
  read_section m = do
    key_type ← read_uint32
    next ← read_payload (lsk_type key_type) m
    checked next

  abbrev pub after :
      (MapData → Exec QDataStream (Option MapData)) → Next → Exec QDataStream (Option MapData)
  after loop (stop m) = pure (some m)
  after loop (more m) = loop m

  -- `while not is_finished and not map.stream.atEnd()`; `none` means that the fuel ran out.
  unfoldable pub read_loop : ℕ → MapData → Exec QDataStream (Option MapData)
  unfolding read_section
  read_loop zero m s = (ok none, s)
  read_loop (suc fuel) m s =
      let round = (read_section m >>= after (read_loop fuel)) s in
      if DataStream.at_end s then (ok (some m), s) else round

  -- Every round takes a byte at least, so the bytes at hand are fuel enough.
  unfoldable pub read_map : Exec QDataStream (Option MapData)
  unfolding read_loop
  read_map s = read_loop (suc (DataStream.bytes_available s)) initial s
